-- ===== src/Tests/Runs.antt =====
-- Runs of the engine on two devices, and the theorems at these runs.
use lo_ra_db.Prelude.{
  ℕ, ◌+◌, ◌^◌, ◌<◌, ◌≡◌, refl, true, not, none, some, List, [], ◌∷◌, filter, length, arith, All,
}
use lo_ra_db.Prelude.Int.{int_ord}
use lo_ra_db.Prelude.Order.{le, cmp_list}
use lo_ra_db.Prelude.Assoc
use lo_ra_db.Model.Text.{Text, text, byte_len}
use lo_ra_db.Model.Lorawan.{DevEui, normalized}
use lo_ra_db.Model.Frames.{Frame, dev_eui, timestamp}
use lo_ra_db.Engine.Bloom
use lo_ra_db.Engine.Memtable
use lo_ra_db.Engine.Memtable.{Memtable}
use lo_ra_db.Engine.Memtable.Keys.{key_ord, cmp_key, new_key, range_start, range_end}
use lo_ra_db.Engine.Memtable.Scan.{
  IsValid, insert_all, frames, matches, micros, stable_sort, Representable, new-IsValid,
  insert_all-IsValid,
}
use lo_ra_db.Engine.Memtable.History.{scan-insert_all, get_latest-newest}
use lo_ra_db.Engine.Memtable.Delete.{
  delete_device-frames, size_bytes-IsAccounted, IsAccounted, total_size,
}
use lo_ra_db.Tests.Formats.{accept_at, toy_bincode}

abbrev eui_a : DevEui
eui_a = record { as_str = text "0123456789ABCDEF" }

abbrev frame_a1 : Frame
frame_a1 = accept_at eui_a.as_str 5000

abbrev frame_a2 : Frame
frame_a2 = accept_at eui_a.as_str 9000

abbrev frame_b : Frame
frame_b = accept_at (text "fedcba9876543210") 7000

abbrev history : List Frame
history = frame_a2 ∷ frame_b ∷ frame_a1 ∷ []

abbrev table_now : Memtable
table_now = insert_all toy_bincode Memtable.new history

history-Representable : All Representable history
unfolding timestamp
history-Representable = (omega arith, (omega arith, (omega arith, tt)))

table_now-IsValid : IsValid table_now
unfolding Memtable.new
table_now-IsValid =
    (insert_all-IsValid toy_bincode history Memtable.new new-IsValid history-Representable
      (omega arith)).0

scan-insert_all_example :
    Memtable.scan_device_range table_now eui_a none none
    ≡ filter (matches eui_a none none) (stable_sort history [])
scan-insert_all_example =
    scan-insert_all toy_bincode history eui_a none none history-Representable (omega arith)

latest_a : Memtable.get_latest table_now eui_a ≡ some frame_a2
unfolding Memtable.get_latest Memtable.new insert_all Memtable.insert Assoc.insert cmp_key cmp_list
    new_key normalized dev_eui timestamp range_start range_end
latest_a = refl

get_latest-newest_example :
    (matches eui_a none none frame_a2 ≡ true)
    × All
        (λ g. le (micros g) (micros frame_a2) ≡ true)
        (filter (matches eui_a none none) (frames table_now))
get_latest-newest_example = get_latest-newest table_now eui_a frame_a2 table_now-IsValid latest_a

delete_device-frames_example :
    (frames (Memtable.delete_device toy_bincode table_now eui_a).0
      ≡ filter (λ f. not (matches eui_a none none f)) (frames table_now))
    × ((Memtable.delete_device toy_bincode table_now eui_a).1
        ≡ length (filter (matches eui_a none none) (frames table_now)))
    × IsValid (Memtable.delete_device toy_bincode table_now eui_a).0
delete_device-frames_example = delete_device-frames toy_bincode table_now eui_a table_now-IsValid

table_now-IsAccounted : IsAccounted toy_bincode table_now
unfolding Memtable.new insert_all Memtable.insert total_size Memtable.frame_size Assoc.insert
    cmp_key cmp_list new_key normalized dev_eui timestamp byte_len
table_now-IsAccounted = refl

more_fits : total_size toy_bincode (Memtable.insert toy_bincode table_now frame_b).entries < 2 ^ 64
unfolding Memtable.new insert_all Memtable.insert total_size Memtable.frame_size Assoc.insert
    cmp_key cmp_list new_key normalized dev_eui timestamp byte_len
more_fits = omega arith

size_bytes-IsAccounted_example :
    IsAccounted toy_bincode (Memtable.insert toy_bincode table_now frame_b)
    × IsAccounted toy_bincode (Memtable.delete_device toy_bincode table_now eui_a).0
size_bytes-IsAccounted_example =
    size_bytes-IsAccounted toy_bincode table_now frame_b eui_a table_now-IsValid
      table_now-IsAccounted more_fits

abbrev toy_hash : Text → ℕ → ℕ
toy_hash s n = length s + n

some_filter-IsValid : Bloom.IsValid toy_hash (Bloom.new 8 2)
some_filter-IsValid = Bloom.new-IsValid toy_hash 8 2 (omega arith)

no_false_negatives_example :
    All
      (λ t.
        Bloom.contains toy_hash t
          (Bloom.insert_all toy_hash (text "ab" ∷ text "c" ∷ []) (Bloom.new 8 2))
        ≡ true)
      (text "ab" ∷ text "c" ∷ [])
    × Bloom.IsValid toy_hash (Bloom.insert_all toy_hash (text "ab" ∷ text "c" ∷ []) (Bloom.new 8 2))
no_false_negatives_example =
    Bloom.no_false_negatives toy_hash (text "ab" ∷ text "c" ∷ []) (Bloom.new 8 2)
      some_filter-IsValid
