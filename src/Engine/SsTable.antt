-- ===== src/Engine/SsTable.antt =====
-- src/engine/sstable.rs: sorted tables in files. A file is its bytes; a failure of the file system
-- is left out, but for the end of a file. A set of texts is a map to the unit type.
pub mod Writer
pub mod Reader
pub mod Stored
pub mod Written
pub mod RoundTrip
pub mod Reopen
pub mod Scan
pub mod Table
use lo_ra_db.Prelude.{
  ℕ, zero, suc, ◌+◌, ◌-◌, ◌*◌, ◌%◌, ◌^◌, ◌≡◌, Bool, true, false, not, ◌&&◌, Option, none, some,
  List, [], ◌∷◌, ◌++◌, length, take, drop, replicate, ltb, leb, ◌==◌, if◌then◌else◌, Result, ok,
  err, ◌>>=◌, is_none, Ordering,
}
use lo_ra_db.Prelude.Int.{ℤ}
use lo_ra_db.Prelude.Order.{le}
use lo_ra_db.Prelude.Assoc
use lo_ra_db.Model.Text.{Text, text_ord, eq_text}
use lo_ra_db.Model.Lorawan.{LoraDbError, DevEui, normalized}
use lo_ra_db.Model.Frames.{Frame, DateTime, application_id}
use lo_ra_db.Engine.Bincode.{Bincode}
use lo_ra_db.Engine.Codec.{Formats}
use lo_ra_db.Engine.Bytes.{Bytes, to_le_bytes, of_i64, to_i64, read, read_word}
use lo_ra_db.Engine.Bloom
use lo_ra_db.Engine.Bloom.{BloomFilter}
use lo_ra_db.Engine.Memtable.Keys.{MemtableKey, key_ord, cmp_key, range_start, range_end}

abbrev pub sstable_magic : ℕ
sstable_magic = 0x5353544C

abbrev pub sstable_version : ℕ
sstable_version = 2

pub record IndexEntry : Type 0 where
  pub key : MemtableKey
  pub offset : ℕ
  pub size : ℕ

abbrev pub AppIds : Type 0
AppIds = List (Text × Unit {0})

-- `created_at` is in microseconds.
pub record SsTableMetadata : Type 0 where
  pub id : ℕ
  pub created_at : ℤ
  pub num_entries : ℕ
  pub min_key : MemtableKey
  pub max_key : MemtableKey
  pub bloom_filter : BloomFilter
  pub data_size_bytes : ℕ
  pub compressed_size_bytes : ℕ
  pub application_ids : AppIds

-- `written` is what the writer has written to the file so far.
pub record SsTableWriter : Type 0 where
  pub id : ℕ
  pub written : Bytes
  pub bloom_header_size : ℕ
  pub index_entries : List IndexEntry
  pub bloom_filter : BloomFilter
  pub application_ids : AppIds
  pub min_key : Option MemtableKey
  pub max_key : Option MemtableKey
  pub num_entries : ℕ
  pub data_size_bytes : ℕ

pub record SsTableReader : Type 0 where
  pub id : ℕ
  pub metadata : SsTableMetadata
  pub index : List IndexEntry
  pub app_ids_cache : Option AppIds

-- A serialiser's failure as the error that `?` returns.
abbrev pub or_bincode {ℓ} : {A : Type ℓ} → Option A → Result LoraDbError A
or_bincode none = err LoraDbError.bincode_error
or_bincode (some a) = ok a

abbrev pub or_io {ℓ} : {A : Type ℓ} → Option A → Result LoraDbError A
or_io none = err LoraDbError.io_error
or_io (some a) = ok a

abbrev pub check : Bool → LoraDbError → Result LoraDbError (Unit {0})
check true e = ok tt
check false e = err e

infixl 5 ◌>>◌
abbrev pub ◌>>◌ {ℓ} :
    {B : Type ℓ} → Result LoraDbError (Unit {0}) → Result LoraDbError B → Result LoraDbError B
m >> k = m >>= λ _. k

-- The key is above the last one.
abbrev pub in_order : Option MemtableKey → MemtableKey → Bool
in_order none key = true
in_order (some last_key) key = not (le key last_key)

-- `last_dev_eui == Some(dev_eui)`
abbrev pub same_device : Option Text → Text → Bool
same_device none dev_eui = false
same_device (some last) dev_eui = eq_text last dev_eui

abbrev pub add_app_id : Frame → AppIds → AppIds
add_app_id frame ids = elim (application_id frame) [
  | none ↦ ids
  | some app_id ↦ Assoc.insert app_id.as_str tt ids
]
