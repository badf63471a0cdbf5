-- ===== src/Tests/Recovery.antt =====
-- Runs of the recovery and of the deletion of a device.
use lo_ra_db.Prelude.{
  false, length, ◌≤◌, All, arith, ◌≡◌, ◌+◌, refl, ap, List, [], ◌∷◌, map, ok, ◌>>=◌, filter, not,
}
use lo_ra_db.Prelude.Order.{cmp_list}
use lo_ra_db.Prelude.Assoc
use lo_ra_db.Model.Text.{Text, text_ord, text, eq_text, starts_with, ends_with}
use lo_ra_db.Model.Lorawan.{DevEui}
use lo_ra_db.Model.Frames.{Frame, dev_eui}
use lo_ra_db.Engine.Memtable
use lo_ra_db.Engine.Memtable.Scan.{insert_all}
use lo_ra_db.Engine.Wal.{WriteAheadLog, open_wal}
use lo_ra_db.Engine.Wal.Replay.{append_all}
use lo_ra_db.Engine.Compaction.{Table}
use lo_ra_db.Engine.SsTable.Reader.{iter_all}
use lo_ra_db.Storage.{StorageEngine, open_path, open_paths}
use lo_ra_db.Storage.Deletion.{delete_device, delete_from_tables, rewrite_tables, is_deleted_device}
use lo_ra_db.Storage.Deletion.Counts.{count_of, delete_device-count}
use lo_ra_db.Storage.Recovery.{open_engine, find_sstables, startup_open_limit}
use lo_ra_db.Engine.SsTable.Reader.{open_panics, read_header}
use lo_ra_db.Engine.Bytes.{Bytes, read_word}
use lo_ra_db.Storage.Recovery.Frames.{open_engine-recovers}
use lo_ra_db.Tests.Formats.{toy_formats, toy_laws}
use lo_ra_db.Tests.Logs.{two, two-Serializes}
use lo_ra_db.Tests.Queries.{noon}
use lo_ra_db.Tests.Tables.{table_a, table_a-Hold, stored, frame_a}

-- A directory with an empty table file.
abbrev broken : List (Text × Bytes)
broken = (text "sstable-00000001.sst", []) ∷ []

broken-few : length (find_sstables broken) ≤ startup_open_limit
unfolding find_sstables starts_with ends_with eq_text cmp_list
broken-few = omega arith

broken-times : All (λ f. open_panics toy_formats f.1 ≡ false) (find_sstables broken)
unfolding find_sstables starts_with ends_with open_panics eq_text cmp_list read_header read_word
broken-times = (refl, tt)

open_engine-recovers_example :
    (wal : WriteAheadLog) × (engine : StorageEngine) × (append_all toy_formats.bincode
        toy_formats.crc32 toy_laws.word
        (open_wal [])
        two
      ≡ ok wal)
    × (open_engine toy_formats noon 64 3 wal.segments broken ≡ ok engine)
    × (engine.wal ≡ wal)
    × (engine.memtable ≡ insert_all toy_formats.bincode Memtable.new two)
open_engine-recovers_example =
    open_engine-recovers toy_formats toy_laws noon 64 3 broken two two-Serializes broken-few
      broken-times

abbrev engine : StorageEngine
engine = record {
  wal = open_wal [];
  memtable = Memtable.new;
  sstables = table_a ∷ [];
  compaction_manager = record { threshold = 3; next_sstable_id = 4 };
  device_registry = [];
  files = (table_a.path, table_a.file) ∷ [];
  memtable_size_mb = 64;
  compaction_threshold = 3;
}

table_a-opens : open_path toy_formats table_a.path engine.files ≡ ok table_a
unfolding open_path Assoc.get cmp_list
table_a-opens = ap (λ r. r >>= λ reader. ok (record table_a { reader = reader })) stored.0.opens

tables-open :
    open_paths toy_formats (map (λ t. t.path) engine.sstables) engine.files ≡ ok (table_a ∷ [])
unfolding open_paths
tables-open = ap (λ r. r >>= λ t. ok (t ∷ [])) table_a-opens

abbrev device_a : DevEui
device_a = record { as_str = text "a" }

-- Deleting the only device of the only table.
delete_only_device :
    (e : StorageEngine) (t : Table) (all : List Frame)
    → open_paths toy_formats (map (λ t. t.path) e.sstables) e.files ≡ ok (t ∷ [])
    → iter_all toy_formats t.file t.reader ≡ ok all
    → filter (λ f. not (is_deleted_device device_a f)) all ≡ []
    → (delete_device toy_formats noon device_a e).0
      ≡ ok (
          (Memtable.delete_device toy_formats.bincode e.memtable device_a).1
          + count_of device_a all)
unfolding delete_device delete_from_tables rewrite_tables is_deleted_device
delete_only_device e t all opens reads kept =
    rw (opens, delete_device, delete_from_tables, reads, rewrite_tables, kept) refl

one-deleted : (delete_device toy_formats noon device_a engine).0 ≡ ok 1
unfolding is_deleted_device dev_eui cmp_list eq_text Memtable.delete_device Memtable.new
one-deleted = delete_only_device engine table_a (frame_a ∷ []) tables-open stored.0.all_frames refl

delete_device-count_example :
    1
    ≡ (Memtable.delete_device toy_formats.bincode engine.memtable device_a).1
      + count_of device_a (frame_a ∷ [])
delete_device-count_example =
    delete_device-count toy_formats noon device_a engine (table_a ∷ []) (frame_a ∷ []) 1 tables-open
      table_a-Hold one-deleted
