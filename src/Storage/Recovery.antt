-- ===== src/Storage/Recovery.antt =====
-- `StorageEngine::new` of src/storage/mod.rs, on the log's files and the table files of the directory.
-- The retention policies and the permissions of the directory are left out.
pub mod Frames
use lo_ra_db.Prelude.{
  ℕ, zero, suc, ◌+◌, ◌<◌, ◌≡◌, Bool, true, false, ◌&&◌, ◌||◌, ◌>>=◌, Option, none, some, List, [],
  ◌∷◌, ◌++◌, map, filter, length, take, drop, min, Result, ok, err, if◌then◌else◌, ltb,
}
use lo_ra_db.Prelude.Assoc
use lo_ra_db.Model.Text.{Text, text, text_ord, starts_with, ends_with}
use lo_ra_db.Model.Lorawan.{Failure, panic}
use lo_ra_db.Model.Frames.{
  Frame, uplink, downlink, join_request, join_accept, status, DateTime, timestamp_micros, dev_eui,
}
use lo_ra_db.Model.Device
use lo_ra_db.Model.Device.{DeviceRegistry}
use lo_ra_db.Engine.Codec.{Formats}
use lo_ra_db.Engine.Bytes.{Bytes}
use lo_ra_db.Engine.Memtable
use lo_ra_db.Engine.Memtable.{Memtable}
use lo_ra_db.Engine.Wal
use lo_ra_db.Engine.Wal.{WriteAheadLog}
use lo_ra_db.Engine.SsTable.Reader.{open_sstable, open_panics, iter_unique_device_frames}
use lo_ra_db.Engine.Compaction
use lo_ra_db.Engine.Compaction.{CompactionManager, Table, new_manager, open_all_sstables}
use lo_ra_db.Storage.{StorageEngine, app_of, sstable_path, open_paths, delete_files}

abbrev pub startup_open_limit : ℕ
startup_open_limit = 500

abbrev pub startup_batch_size : ℕ
startup_batch_size = 100

-- `find_sstables` on the files of the directory, which ascend by name.
unfoldable pub find_sstables : List (Text × Bytes) → List (Text × Bytes)
find_sstables files =
    filter (λ f. starts_with f.0 (text "sstable-") && ends_with f.0 (text ".sst")) files

-- The device name that the registry gets at the start: only an uplink's.
unfoldable pub startup_name : Frame → Option Text
startup_name (uplink f) = f.device_name
startup_name (downlink f) = none
startup_name (status f) = none
startup_name (join_request f) = none
startup_name (join_accept f) = none

unfoldable pub register_frames : DateTime → List Frame → DeviceRegistry → DeviceRegistry
unfolding startup_name
register_frames now [] devices = devices
register_frames now (frame ∷ frames) devices =
    register_frames now frames
      (Device.register_or_update now (dev_eui frame) (startup_name frame) (app_of frame) devices)

-- The frames of the log go to a new memtable, in their order.
unfoldable pub populate : Formats → List Frame → Memtable → Memtable
populate x [] m = m
populate x (frame ∷ frames) m = populate x frames (Memtable.insert x.bincode m frame)

module _ (x : Formats) where
  -- Whether opening the files one by one panics, before one of them does not open.
  unfoldable pub opening_panics : List Text → List (Text × Bytes) → Bool
  opening_panics [] files = false
  opening_panics (path ∷ paths) files = elim (Assoc.get path files) [
    | none ↦ false
    | some file ↦
        let rest = opening_panics paths files in
        if open_panics x file
        then true
        else elim (open_sstable x file) [ err e ↦ false | ok t ↦ rest ]
  ]

  -- The loop of the batch compaction, on fuel; a round takes 99 names off the list.
  unfoldable pub startup_compaction :
      ℕ
      → DateTime
      → List Text
      → CompactionManager
      → List (Text × Bytes)
      → Result Failure (CompactionManager × List (Text × Bytes))
  unfolding opening_panics
  startup_compaction zero now remaining m files = ok (m, files)
  startup_compaction (suc fuel) now remaining m files =
      let batch = take (min startup_batch_size (length remaining)) remaining in
      let opened =
        elim (open_paths x batch files)
          as (λ _. Result Failure (CompactionManager × List (Text × Bytes))) [
            | err why ↦ ok (m, files)
            | ok readers ↦
                let (compacted, m') = Compaction.compact x (timestamp_micros now) readers m in
                elim compacted [
                  | err why ↦ ok (m', files)
                  | ok ((file, metadata), old_paths) ↦
                      let path = sstable_path metadata.id in
                      startup_compaction fuel now
                        (drop (min startup_batch_size (length remaining)) remaining ++ path ∷ []) m'
                        (delete_files old_paths (Assoc.insert path file files))
                ]
          ] in
      let round = if opening_panics batch files then err panic else opened in
      if ltb startup_open_limit (length remaining) then round else ok (m, files)

  -- `open_all_sstables` opens every file, whatever becomes of those before it.
  unfoldable pub any_panics : List (Text × Bytes) → Bool
  any_panics [] = false
  any_panics (f ∷ files) = open_panics x f.1 || any_panics files

  -- The registration of the first frames of each device; a table that cannot be read is passed over.
  unfoldable pub register_tables : DateTime → List Table → DeviceRegistry → DeviceRegistry
  register_tables now [] devices = devices
  register_tables now (t ∷ tables) devices = elim (iter_unique_device_frames x t.file t.reader) [
    | err why ↦ register_tables now tables devices
    | ok frames ↦ register_tables now tables (register_frames now frames devices)
  ]

  -- The engine behind the startup compaction, on the files that it left.
  unfoldable pub recovered :
      DateTime
      → ℕ
      → ℕ
      → WriteAheadLog
      → Memtable
      → CompactionManager
      → List (Text × Bytes)
      → StorageEngine
  recovered now memtable_size_mb compaction_threshold wal memtable m left =
      let (sstables, manager) = open_all_sstables x (find_sstables left) m in
      let known = register_tables now sstables Device.new in
      record {
        wal = wal;
        memtable = memtable;
        sstables = sstables;
        compaction_manager = manager;
        device_registry = register_frames now (map (λ e. e.1) memtable.entries) known;
        files = left;
        memtable_size_mb = memtable_size_mb;
        compaction_threshold = compaction_threshold;
      }

  unfoldable pub open_engine :
      DateTime → ℕ → ℕ → List (ℕ × Bytes) → List (Text × Bytes) → Result Failure StorageEngine
  unfolding startup_compaction any_panics recovered
  open_engine now memtable_size_mb compaction_threshold wal_files files =
      let wal = Wal.open_wal wal_files in
      let memtable = populate x (Wal.replay x.bincode x.crc32 wal) Memtable.new in
      let startup_paths = map (λ f. f.0) (find_sstables files) in
      do
        (m, left) ←
            startup_compaction (length startup_paths) now startup_paths
              (new_manager compaction_threshold) files
        if any_panics (find_sstables left)
            then err panic
            else ok (recovered now memtable_size_mb compaction_threshold wal memtable m left)
