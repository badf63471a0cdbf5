-- ===== src/Storage.antt =====
-- src/storage/mod.rs: `write`, `flush_memtable`, `compact` and `query`, one call at a time; the steps
-- that the locks make of them are in Interleaving. The background tasks are left out. The data
-- directory is its table files by name, and a failure of the file system is left out but for a
-- missing file. A write of a table that fails leaves no file here. The configuration is part of the
-- state, and the clock is an argument.
pub mod Query
pub mod Flush
pub mod Policies
pub mod Retention
pub mod Deletion
pub mod Registry
pub mod Write
pub mod Interleaving
pub mod Recovery
use lo_ra_db.Prelude.{
  unwrap_or, ℕ, zero, suc, ◌+◌, ◌-◌, ◌/◌, ◌%◌, ◌<◌, ◌≡◌, Bool, true, false, Option, none, some,
  List, [], ◌∷◌, ◌++◌, map, length, take, drop, replicate, min, Result, ok, err, ◌>>=◌,
  if◌then◌else◌, ltb,
}
use lo_ra_db.Prelude.Int.{ℤ, int_ord}
use lo_ra_db.Prelude.Order.{le}
use lo_ra_db.Prelude.Assoc
use lo_ra_db.Model.Text.{Text, text, text_ord}
use lo_ra_db.Model.Lorawan.{LoraDbError, DevEui}
use lo_ra_db.Model.Frames.{
  Frame, uplink, downlink, join_request, join_accept, status, DateTime, timestamp, timestamp_micros,
  dev_eui, application_id,
}
use lo_ra_db.Model.Device
use lo_ra_db.Model.Device.{DeviceRegistry}
use lo_ra_db.Engine.Codec.{Formats}
use lo_ra_db.Engine.Bytes.{Bytes}
use lo_ra_db.Engine.Memtable
use lo_ra_db.Engine.Memtable.{Memtable}
use lo_ra_db.Engine.Wal
use lo_ra_db.Engine.Wal.{WriteAheadLog}
use lo_ra_db.Engine.SsTable.{SsTableMetadata, SsTableReader}
use lo_ra_db.Engine.SsTable.Reader.{open_sstable, scan}
use lo_ra_db.Engine.Compaction
use lo_ra_db.Engine.Compaction.{
  CompactionManager, Table, allocate_sstable_id, should_compact, write_merged,
}

pub record StorageEngine : Type 0 where
  pub wal : WriteAheadLog
  pub memtable : Memtable
  pub sstables : List Table
  pub compaction_manager : CompactionManager
  pub device_registry : DeviceRegistry
  pub files : List (Text × Bytes)
  pub memtable_size_mb : ℕ
  pub compaction_threshold : ℕ

-- The decimal digits of a number, on fuel, in front of the given ones.
unfoldable pub digits : ℕ → ℕ → Text → Text
digits zero n acc = acc
digits (suc fuel) n acc =
    let rest = digits fuel (n / 10) ((48 + n % 10) ∷ acc) in
    if ltb n 10 then (48 + n % 10) ∷ acc else rest

-- `format!("sstable-{:08}.sst", sstable_id)`
unfoldable pub sstable_path : ℕ → Text
unfolding digits
sstable_path sstable_id =
    let number = digits (suc sstable_id) sstable_id [] in
    text "sstable-" ++ (replicate (8 - length number) 48 ++ (number ++ text ".sst"))

-- The device name that `write` registers.
unfoldable pub name_of : Frame → Option Text
name_of (uplink f) = f.device_name
name_of (status f) = f.device_name
name_of (downlink f) = none
name_of (join_request f) = none
name_of (join_accept f) = none

unfoldable pub app_of : Frame → Text
app_of frame = elim (application_id frame) [ none ↦ [] | some id ↦ id.as_str ]

-- `sort_by_key(|f| f.timestamp())`: stable.
unfoldable pub sort_one : Frame → List Frame → List Frame
sort_one f [] = f ∷ []
sort_one f (g ∷ l) =
    let rest = sort_one f l in
    if le (timestamp f).nanos (timestamp g).nanos then f ∷ g ∷ l else g ∷ rest

unfoldable pub sort_by_timestamp : List Frame → List Frame
unfolding sort_one
sort_by_timestamp [] = []
sort_by_timestamp (f ∷ l) = sort_one f (sort_by_timestamp l)

unfoldable pub delete_files : List Text → List (Text × Bytes) → List (Text × Bytes)
delete_files [] files = files
delete_files (path ∷ paths) files = delete_files paths (Assoc.remove path files)

-- The bytes under a path. A file that is missing fails as an empty one does, at the first frame that is
-- read from it.
unfoldable pub file_of : List (Text × Bytes) → Text → Bytes
file_of files path = unwrap_or (Assoc.get path files) []

module _ (x : Formats) where
  unfoldable pub open_path : Text → List (Text × Bytes) → Result LoraDbError Table
  open_path path files = elim (Assoc.get path files) [
    | none ↦ err LoraDbError.io_error
    | some file ↦ do
      reader ← open_sstable x file
      ok (record { path = path; file = file; reader = reader })
  ]

  unfoldable pub open_paths : List Text → List (Text × Bytes) → Result LoraDbError (List Table)
  unfolding open_path
  open_paths [] files = ok []
  open_paths (path ∷ paths) files = do
    t ← open_path path files
    tables ← open_paths paths files
    ok (t ∷ tables)

  -- The merged table is put in front of the tables that were not compacted.
  unfoldable pub compact : DateTime → StorageEngine → Result LoraDbError (Unit {0}) × StorageEngine
  compact now e =
      let batch_size = min e.compaction_threshold (length e.sstables) in
      elim (open_paths (map (λ t. t.path) (take batch_size e.sstables)) e.files) [
        | err why ↦ (err why, e)
        | ok old_sstables ↦
            let (done, m) =
              Compaction.compact x (timestamp_micros now) old_sstables e.compaction_manager in
            elim done [
              | err why ↦ (err why, record e { compaction_manager = m })
              | ok ((file, new_metadata), old_paths) ↦
                  let path = sstable_path new_metadata.id in
                  let files = Assoc.insert path file e.files in
                  elim (open_path path files) [
                    | err why ↦ (err why, record e { compaction_manager = m; files = files })
                    | ok new_reader ↦ (
                      ok tt,
                      record e {
                        compaction_manager = m;
                        sstables = new_reader ∷ drop batch_size e.sstables;
                        files = delete_files old_paths files;
                      },
                    )
                  ]
            ]
      ]

  -- The memtable's entries go to a new table, behind the others; then the memtable is cleared, the
  -- log truncated, and the tables compacted if there are too many.
  unfoldable pub flush_memtable :
      DateTime → StorageEngine → Result LoraDbError (Unit {0}) × StorageEngine
  unfolding allocate_sstable_id
  flush_memtable now e =
      let (sstable_id, m) = allocate_sstable_id e.compaction_manager in
      elim (write_merged x sstable_id (timestamp_micros now) e.memtable.entries) [
        | err why ↦ (err why, record e { compaction_manager = m })
        | ok (file, metadata) ↦
            let path = sstable_path sstable_id in
            let files = Assoc.insert path file e.files in
            elim (open_path path files) [
              | err why ↦ (err why, record e { compaction_manager = m; files = files })
              | ok reader ↦
                  let flushed = record e {
                    compaction_manager = m;
                    files = files;
                    sstables = e.sstables ++ reader ∷ [];
                    memtable = Memtable.clear e.memtable;
                    wal = Wal.truncate e.wal;
                  } in
                  if should_compact m (length flushed.sstables)
                  then compact now flushed
                  else (ok tt, flushed)
            ]
      ]

  -- A frame that the log refuses is registered all the same.
  unfoldable pub write :
      DateTime → Frame → StorageEngine → Result LoraDbError (Unit {0}) × StorageEngine
  write now frame e =
      let devices =
        Device.register_or_update now (dev_eui frame) (name_of frame) (app_of frame)
          e.device_registry in
      let registered = record e { device_registry = devices } in
      elim (Wal.append x.bincode x.crc32 e.wal frame) [
        | err why ↦ (err why, registered)
        | ok wal ↦
            let written = record registered {
              wal = wal;
              memtable = Memtable.insert x.bincode e.memtable frame;
            } in
            if Memtable.should_flush written.memtable e.memtable_size_mb
            then flush_memtable now written
            else (ok tt, written)
      ]

  -- The frames of the tables, table by table. Each frame is read from the file that stands under the
  -- path of the table then.
  unfoldable pub scan_tables :
      List (Text × Bytes)
      → List Table
      → DevEui
      → Option DateTime
      → Option DateTime
      → Result LoraDbError (List Frame)
  unfolding file_of
  scan_tables files [] eui start_time end_time = ok []
  scan_tables files (t ∷ tables) eui start_time end_time = do
    frames ← scan x (file_of files t.path) t.reader eui start_time end_time
    rest ← scan_tables files tables eui start_time end_time
    ok (frames ++ rest)

  unfoldable pub query :
      StorageEngine → DevEui → Option DateTime → Option DateTime → Result LoraDbError (List Frame)
  unfolding scan_tables
  query e eui start_time end_time = do
    found ← scan_tables e.files e.sstables eui start_time end_time
    ok (sort_by_timestamp (Memtable.scan_device_range e.memtable eui start_time end_time ++ found))
