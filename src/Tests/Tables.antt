-- ===== src/Tests/Tables.antt =====
-- Runs of the tables, of their compaction and of the storage engine.
use lo_ra_db.Prelude.{
  ◌+◌, ◌-◌, ◌%◌, ◌^◌, ◌<◌, ◌≡◌, ◌≢◌, refl, ap, unwrap_or, get_elem?, none, some, List, [], ◌∷◌,
  ◌++◌, map, filter, arith, All, ok,
}
use lo_ra_db.Prelude.Int.{pos}
use lo_ra_db.Prelude.Assoc
use lo_ra_db.Model.Text.{Text, text, text_ord, eq_text, to_lowercase, to_ascii_lowercase}
use lo_ra_db.Model.Lorawan.{DevEui, normalized}
use lo_ra_db.Model.Frames.{Frame, dev_eui, timestamp}
use lo_ra_db.Model.Device
use lo_ra_db.Model.Device.History.{
  Sighting, register_all, is_same, last_time, last_name, summary, get-register_all,
}
use lo_ra_db.Prelude.Order.{cmp_list}
use lo_ra_db.Engine.Bytes.{Bytes}
use lo_ra_db.Engine.Memtable
use lo_ra_db.Engine.Memtable.Keys.{MemtableKey, key_ord, new_key, in_window}
use lo_ra_db.Engine.Wal.{open_wal}
use lo_ra_db.Engine.SsTable.{SsTableWriter}
use lo_ra_db.Engine.SsTable.Writer.{new, add_all}
use lo_ra_db.Engine.SsTable.Written.{Writable}
use lo_ra_db.Engine.SsTable.Table.{Reads, KeyFits, reads-add_all}
use lo_ra_db.Engine.Compaction.{
  CompactionManager, Table, merge_key, merge_frames, compact, open_each, open_all_sstables,
}
use lo_ra_db.Engine.Compaction.Merge.{Hold, compact-reads, get-merge_frames, last_or, is_key}
use lo_ra_db.Engine.Compaction.Ids.{open_all_sstables-fresh}
use lo_ra_db.Storage.{
  StorageEngine, flush_memtable, query, scan_tables, sort_by_timestamp, sstable_path, file_of,
  digits,
}
use lo_ra_db.Storage.Query.{Ordered, query-Ordered}
use lo_ra_db.Storage.Flush.{query-flush_memtable}
use lo_ra_db.Tests.Formats.{accept_at, toy_formats, toy_laws}

abbrev pub eui_a : DevEui
eui_a = record { as_str = text "a" }

abbrev pub frame_a : Frame
frame_a = accept_at (text "a") 5000

-- The key of the frame under the first sequence number.
abbrev pub key_a : MemtableKey
key_a = record { dev_eui = text "a"; timestamp = pos 5; sequence = 0 }

abbrev pub entries : List (MemtableKey × Frame)
entries = (key_a, frame_a) ∷ []

abbrev pub plain_a : Bytes
plain_a = 5000 ∷ text "a"

abbrev pub key_data_a : Bytes
key_data_a = 0 ∷ 5 ∷ 0 ∷ text "a"

abbrev pub frame_a_entry : Writable toy_formats toy_laws key_a frame_a
frame_a_entry = record {
  plain = plain_a;
  compressed = plain_a;
  key_data = key_data_a;
  serializes = refl;
  compresses = refl;
  short = omega arith;
  reads_back = refl;
  key_serializes = refl;
  key_short = omega arith;
}

pub entries-KeyFits : All KeyFits entries
entries-KeyFits = ((omega arith, omega arith), tt)

reads-add_all_example :
    (w w' : SsTableWriter) × (new toy_formats 3 ≡ ok w)
    × (add_all toy_formats w entries ≡ ok w')
    × Reads toy_formats toy_laws w' (pos 77) entries
    × (w'.id ≡ 3)
reads-add_all_example =
    reads-add_all toy_formats toy_laws 3 (pos 77) key_a frame_a [] (tt, tt) (frame_a_entry, tt)
      entries-KeyFits (omega arith) (omega arith) (omega arith)

abbrev pub written :
    (w w' : SsTableWriter) × (new toy_formats 3 ≡ ok w)
    × (add_all toy_formats w entries ≡ ok w')
    × Reads toy_formats toy_laws w' (pos 77) entries
    × (w'.id ≡ 3)
written =
    reads-add_all toy_formats toy_laws 3 (pos 77) key_a frame_a [] (tt, tt) (frame_a_entry, tt)
      entries-KeyFits (omega arith) (omega arith) (omega arith)

abbrev pub stored : Reads toy_formats toy_laws written.1 (pos 77) entries × (written.1.id ≡ 3)
stored = (written.4, written.5)

abbrev pub table_a : Table
table_a = record {
  path = text "sstable-00000003.sst";
  file = stored.0.file;
  reader = stored.0.reader;
}

pub table_a-Hold : Hold toy_formats (table_a ∷ []) (frame_a ∷ [])
table_a-Hold = Hold.table (frame_a ∷ []) [] stored.0.all_frames Hold.nothing

abbrev pub manager : CompactionManager
manager = record { threshold = 3; next_sstable_id = 4 }

merged-entries : merge_frames (frame_a ∷ []) [] ≡ entries
unfolding merge_frames merge_key new_key normalized dev_eui timestamp Assoc.insert
merged-entries = refl

compact-reads_example :
    (w : SsTableWriter) × (r : Reads toy_formats toy_laws w (pos 78) entries) × (compact toy_formats
        (pos 78)
        (table_a ∷ [])
        manager
      ≡ (
        ok ((r.file, r.metadata), map (λ t. t.path) (table_a ∷ [])),
        record manager { next_sstable_id = (manager.next_sstable_id + 1) % 2 ^ 64 },
      ))
    × (r.reader.id ≡ manager.next_sstable_id)
compact-reads_example =
    compact-reads toy_formats toy_laws (pos 78) table_a [] (frame_a ∷ []) key_a frame_a [] manager
      table_a-Hold merged-entries (frame_a_entry, tt) entries-KeyFits (omega arith) (omega arith)
      (omega arith)

get-merge_frames_example :
    Assoc.get key_a (merge_frames (frame_a ∷ accept_at (text "a") 5400 ∷ []) [])
    ≡ last_or
        (Assoc.get key_a [])
        (filter (λ f. is_key key_a (merge_key f)) (frame_a ∷ accept_at (text "a") 5400 ∷ []))
get-merge_frames_example = get-merge_frames key_a (frame_a ∷ accept_at (text "a") 5400 ∷ []) [] tt

abbrev pub disk : List (Text × Bytes)
disk = (table_a.path, table_a.file) ∷ []

max_id-low : (open_each toy_formats disk 0).1 < 2 ^ 64 - 1
unfolding open_each
max_id-low = rw (stored.0.opens, open_each) (ground (arith, stored.0.same_id, stored.1))

open_all_sstables-fresh_example :
    All
      (λ t. t.reader.id < (open_all_sstables toy_formats disk manager).1.next_sstable_id)
      (open_all_sstables toy_formats disk manager).0
open_all_sstables-fresh_example = open_all_sstables-fresh toy_formats disk manager max_id-low

abbrev pub engine : StorageEngine
engine = record {
  wal = open_wal [];
  memtable = record { entries = entries; size_bytes = 50; sequence = 1 };
  sstables = table_a ∷ [];
  compaction_manager = manager;
  device_registry = [];
  files = disk;
  memtable_size_mb = 64;
  compaction_threshold = 3;
}

disk-IsSorted : Assoc.IsSorted disk
disk-IsSorted = (tt, tt)

table_a-apart : sstable_path engine.compaction_manager.next_sstable_id ≢ table_a.path
unfolding sstable_path digits
table_a-apart e =
    let last : 52 ≡ 51 = ap (λ t. unwrap_or (get_elem? t 15) 0) e in omega (arith, last)

abbrev pub found_a : List Frame
found_a = frame_a ∷ []

tables-found : scan_tables toy_formats engine.files engine.sstables eui_a none none ≡ ok found_a
unfolding scan_tables file_of Assoc.get in_window normalized eq_text to_lowercase
tables-found = rw (stored.0.scans eui_a none none) refl

query-Ordered_example :
    (frames : List Frame) × (query toy_formats engine eui_a none none ≡ ok frames) × Ordered frames
query-Ordered_example = query-Ordered toy_formats engine eui_a none none found_a tables-found

query-flush_memtable_example :
    ((flush_memtable toy_formats (record { nanos = pos 80000 }) engine).0 ≡ ok tt)
    × ((flush_memtable toy_formats (record { nanos = pos 80000 }) engine).1.memtable.entries ≡ [])
    × (query toy_formats engine eui_a none none
        ≡ ok (
            sort_by_timestamp
              (Memtable.scan_device_range engine.memtable eui_a none none ++ found_a)))
    × (query toy_formats
          (flush_memtable toy_formats (record { nanos = pos 80000 }) engine).1
          eui_a
          none
          none
        ≡ ok (
            sort_by_timestamp
              (found_a ++ Memtable.scan_device_range engine.memtable eui_a none none)))
query-flush_memtable_example =
    query-flush_memtable toy_formats toy_laws (record { nanos = pos 80000 }) engine key_a frame_a []
      eui_a none none found_a refl (tt, tt) (frame_a_entry, tt) entries-KeyFits (omega arith)
      (omega arith) (omega arith) (omega arith) disk-IsSorted (table_a-apart, tt) tables-found

abbrev sightings : List Sighting
sightings =
    record {
      now = record { nanos = pos 1 };
      eui = eui_a;
      name = some (text "meter");
      app_id = text "app";
    }
    ∷ record {
      now = record { nanos = pos 2 };
      eui = record { as_str = text "B" };
      name = none;
      app_id = text "app";
    }
    ∷ record {
      now = record { nanos = pos 3 };
      eui = record { as_str = text "A" };
      name = none;
      app_id = text "other";
    }
    ∷ []

get-register_all_example :
    Device.get eui_a (register_all sightings []) ≡ summary (filter (is_same eui_a) sightings)
get-register_all_example = get-register_all sightings eui_a

-- The device was seen twice, under both spellings.
sightings-summary :
    summary (filter (is_same eui_a) sightings)
    ≡ some (record {
      dev_eui = eui_a;
      device_name = some (text "meter");
      application_id = text "app";
      first_seen = record { nanos = pos 1 };
      last_seen = some (record { nanos = pos 3 });
      frame_count = 2;
    })
unfolding summary normalized to_lowercase to_ascii_lowercase eq_text cmp_list last_time last_name
sightings-summary = refl
