-- ===== src/Engine/Memtable.antt =====
-- src/engine/memtable.rs: the frames that no table holds yet, in a skip list ordered by device,
-- microsecond and sequence number. The skip list is an ascending association list. Each operation
-- is one step; the relaxed atomics are plain fields.
pub mod Keys
pub mod Scan
pub mod History
pub mod Delete
use lo_ra_db.Prelude.{
  ℕ, zero, suc, ◌+◌, ◌-◌, ◌*◌, ◌%◌, ◌^◌, Bool, Option, none, some, List, [], ◌∷◌, map, length,
  last?, if◌then◌else◌, leb, unwrap_or, Ordering, compare, is_none,
}
use lo_ra_db.Prelude.Int.{ℤ, pos, negsuc, cmp_ℤ}
use lo_ra_db.Prelude.Order.{Ord, cmp_list, then_with, list_ord, nat_ord}
use lo_ra_db.Prelude.Assoc
use lo_ra_db.Model.Text.{Text, byte_len}
use lo_ra_db.Model.Lorawan.{DevEui, normalized}
use lo_ra_db.Model.Frames.{Frame, DateTime, timestamp_micros, dev_eui, timestamp}
use lo_ra_db.Engine.Bincode.{Bincode}
use Keys.{MemtableKey, key_ord, range_start, range_end, new_key}

-- `data` of the source is `entries`.
pub record Memtable : Type 0 where
  pub entries : List (MemtableKey × Frame)
  pub size_bytes : ℕ
  pub sequence : ℕ

unfoldable pub new : Memtable
new = record { entries = []; size_bytes = 0; sequence = 0 }

-- `size_of::<MemtableKey>()`: a `String` of three words, an `i64` and a `u64`.
abbrev pub key_size : ℕ
key_size = 40

unfoldable pub frame_size : Bincode → MemtableKey → Frame → ℕ
frame_size bincode key frame =
    unwrap_or (bincode.serialized_size frame) 256 + byte_len key.dev_eui + key_size

-- Always `Ok(())`. Both counters wrap.
unfoldable pub insert : Bincode → Memtable → Frame → Memtable
insert bincode m frame =
    let key = new_key (dev_eui frame) (timestamp frame) m.sequence in
    record {
      entries = Assoc.insert key frame m.entries;
      size_bytes = (m.size_bytes + frame_size bincode key frame) % 2 ^ 64;
      sequence = (m.sequence + 1) % 2 ^ 64;
    }

unfoldable pub len : Memtable → ℕ
len m = length m.entries

unfoldable pub is_empty : Memtable → Bool
is_empty m = elim m.entries [ [] ↦ mathlib.Core.Bool.true | ◌∷◌ e l ↦ mathlib.Core.Bool.false ]

unfoldable pub should_flush : Memtable → ℕ → Bool
should_flush m threshold_mb =
    let threshold_bytes = threshold_mb * 1024 * 1024 in leb threshold_bytes m.size_bytes

unfoldable pub scan_device_range :
    Memtable → DevEui → Option DateTime → Option DateTime → List Frame
scan_device_range m eui start_time end_time =
    let start_key = range_start eui start_time in
    let end_key = range_end eui end_time in map (λ e. e.1) (Assoc.range start_key end_key m.entries)

-- The last entry of the whole range of the device.
unfoldable pub get_latest : Memtable → DevEui → Option Frame
get_latest m eui =
    mathlib.Core.Option.map (λ e. e.1)
      (last? (Assoc.range (range_start eui none) (range_end eui none) m.entries))

unfoldable pub clear : Memtable → Memtable
clear m = record { entries = []; size_bytes = 0; sequence = 0 }

-- The loop over the collected keys: what is left, how many were removed, and their bytes.
unfoldable pub delete_keys :
    Bincode
    → List MemtableKey
    → List (MemtableKey × Frame)
    → ℕ
    → ℕ
    → List (MemtableKey × Frame) × ℕ × ℕ
delete_keys bincode [] entries count bytes = (entries, count, bytes)
delete_keys bincode (key ∷ keys) entries count bytes = elim (Assoc.get key entries) [
  | none ↦ delete_keys bincode keys entries count bytes
  | some frame ↦
      delete_keys bincode keys (Assoc.remove key entries) (count + 1)
        (bytes + frame_size bincode key frame)
]

-- `-` stops at 0, as `saturating_sub` does.
unfoldable pub delete_device : Bincode → Memtable → DevEui → Memtable × ℕ
unfolding delete_keys
delete_device bincode m eui =
    let keys_to_delete =
      map (λ e. e.0) (Assoc.range (range_start eui none) (range_end eui none) m.entries) in
    let (entries, deleted_count, deleted_bytes) =
      delete_keys bincode keys_to_delete m.entries 0 0 in
    (record m { entries = entries; size_bytes = m.size_bytes - deleted_bytes }, deleted_count)
