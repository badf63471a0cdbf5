-- ===== src/Storage/Interleaving.antt =====
-- `write` and `flush_memtable` of src/storage/mod.rs as the steps that their locks make of them: any
-- number of writers beside one flush. A step is what the source does under one lock; the registration
-- of a device is in the step of the log, and the file of a table is written in one step from the
-- entries that the iteration over the memtable finds. The compaction behind a flush,
-- and a flush that fails, are left out.
pub mod Durable
pub mod Runs
use lo_ra_db.Prelude.{ℕ, ◌≡◌, ok, List, [], ◌∷◌, ◌++◌}
use lo_ra_db.Prelude.Assoc
use lo_ra_db.Model.Text.{text_ord}
use lo_ra_db.Model.Frames.{Frame, DateTime, timestamp_micros, dev_eui}
use lo_ra_db.Model.Device
use lo_ra_db.Engine.Codec.{Formats}
use lo_ra_db.Engine.Bytes.{Bytes}
use lo_ra_db.Engine.Memtable
use lo_ra_db.Engine.Wal
use lo_ra_db.Engine.Wal.{WriteAheadLog}
use lo_ra_db.Engine.SsTable.{SsTableMetadata}
use lo_ra_db.Engine.Compaction.{Table, allocate_sstable_id, write_merged}
use lo_ra_db.Storage.{StorageEngine, name_of, app_of, sstable_path, open_path}

-- How far the flush is.
pub data Phase : Type 0 where
  idle pushed cleared finished : Phase
  allocated : ℕ → Phase
  created : ℕ → Phase

-- `logged` are the frames of the writers between the append to the log and the insertion.
pub record System : Type 0 where
  pub engine : StorageEngine
  pub logged : List Frame
  pub phase : Phase

-- The engine behind each step.
abbrev pub logged_engine : DateTime → Frame → WriteAheadLog → StorageEngine → StorageEngine
logged_engine now frame wal e = record e {
  device_registry =
      Device.register_or_update now (dev_eui frame) (name_of frame) (app_of frame)
        e.device_registry;
  wal = wal;
}

module _ (x : Formats) where
  abbrev pub stored_engine : Frame → StorageEngine → StorageEngine
  stored_engine frame e = record e { memtable = Memtable.insert x.bincode e.memtable frame }

  pub data Step (now : DateTime) (s : System) : System → Type 0 where
    log :
        (frame : Frame) (wal : WriteAheadLog)
        → Wal.append x.bincode x.crc32 s.engine.wal frame ≡ ok wal
        → Step now s (record {
          engine = logged_engine now frame wal s.engine;
          logged = frame ∷ s.logged;
          phase = s.phase;
        })
    store :
        (frame : Frame) (before behind : List Frame)
        → s.logged ≡ before ++ frame ∷ behind
        → Step now s (record {
          engine = stored_engine frame s.engine;
          logged = before ++ behind;
          phase = s.phase;
        })
    allocate :
        s.phase ≡ Phase.idle
        → Step now s (record {
          engine = record s.engine {
            compaction_manager = (allocate_sstable_id s.engine.compaction_manager).1;
          };
          logged = s.logged;
          phase = Phase.allocated (allocate_sstable_id s.engine.compaction_manager).0;
        })
    create :
        (id : ℕ) (file : Bytes) (metadata : SsTableMetadata)
        → s.phase ≡ Phase.allocated id
        → write_merged x id (timestamp_micros now) s.engine.memtable.entries ≡ ok (file, metadata)
        → Step now s (record {
          engine = record s.engine { files = Assoc.insert (sstable_path id) file s.engine.files };
          logged = s.logged;
          phase = Phase.created id;
        })
    push :
        (id : ℕ) (reader : Table)
        → s.phase ≡ Phase.created id
        → open_path x (sstable_path id) s.engine.files ≡ ok reader
        → Step now s (record {
          engine = record s.engine { sstables = s.engine.sstables ++ reader ∷ [] };
          logged = s.logged;
          phase = Phase.pushed;
        })
    clear :
        s.phase ≡ Phase.pushed
        → Step now s (record {
          engine = record s.engine { memtable = Memtable.clear s.engine.memtable };
          logged = s.logged;
          phase = Phase.cleared;
        })
    truncate :
        s.phase ≡ Phase.cleared
        → Step now s (record {
          engine = record s.engine { wal = Wal.truncate s.engine.wal };
          logged = s.logged;
          phase = Phase.finished;
        })

  pub data Steps (now : DateTime) (s : System) : System → Type 0 where
    start : Steps now s s
    later : {t u : System} → Steps now s t → Step now t u → Steps now s u
