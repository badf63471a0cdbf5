-- ===== src/Tests/Interleaving.antt =====
-- Runs of a write, and of a write and a flush that come between each other.
use mathlib.Core.List.{Perm}
use lo_ra_db.Prelude.{◌^◌, ◌<◌, ◌+◌, ◌≡◌, ◌≢◌, refl, false, none, List, [], ◌∷◌, ok, arith}
use lo_ra_db.Prelude.Int.{pos}
use lo_ra_db.Prelude.Order.{nat_ord}
use lo_ra_db.Prelude.Assoc
use lo_ra_db.Model.Text.{text_ord, text, byte_len}
use lo_ra_db.Model.Lorawan.{normalized}
use lo_ra_db.Model.Frames.{Frame, DateTime, timestamp, dev_eui}
use lo_ra_db.Engine.Memtable
use lo_ra_db.Engine.Memtable.Keys.{new_key}
use lo_ra_db.Engine.Memtable.Scan.{Representable, matches, new-IsValid}
use lo_ra_db.Engine.Wal
use lo_ra_db.Engine.Wal.{WriteAheadLog, open_wal, replay}
use lo_ra_db.Engine.Wal.Truncate.{open_wal-IsLog}
use lo_ra_db.Storage.{StorageEngine, write, query, scan_tables}
use lo_ra_db.Storage.Query.{Ordered}
use lo_ra_db.Storage.Write.{query-write, with_matching}
use lo_ra_db.Storage.Interleaving.{Phase, System, Steps}
use lo_ra_db.Storage.Interleaving.Durable.{IsDurable, Steps-IsDurable}
use lo_ra_db.Storage.Interleaving.Runs.{quiet, behind_write, write-Steps, lost_write}
use lo_ra_db.Tests.Formats.{accept_at, toy_formats, toy_laws}
use lo_ra_db.Tests.Tables.{eui_a, frame_a, key_a, entries, frame_a_entry, entries-KeyFits, manager}

abbrev now : DateTime
now = record { nanos = pos 80000 }

-- An engine without a frame.
abbrev engine : StorageEngine
engine = record {
  wal = open_wal [];
  memtable = Memtable.new;
  sstables = [];
  compaction_manager = manager;
  device_registry = [];
  files = [];
  memtable_size_mb = 64;
  compaction_threshold = 3;
}

-- The log with the frame, and that it takes it.
abbrev log_a : WriteAheadLog
log_a = record {
  segments = (0, Wal.entry_bytes toy_formats.crc32 (5000 ∷ text "a")) ∷ [];
  current_segment = 0;
  segment_number = 0;
}

frame_a-logged : Wal.append toy_formats.bincode toy_formats.crc32 (open_wal []) frame_a ≡ ok log_a
unfolding Wal.append open_wal Wal.find_latest_segment Wal.open_segment Assoc.get Assoc.insert
frame_a-logged = refl

room_left :
    Memtable.should_flush (Memtable.insert toy_formats.bincode Memtable.new frame_a) 64 ≡ false
unfolding Memtable.should_flush Memtable.insert Memtable.new Memtable.frame_size byte_len new_key
    normalized dev_eui
room_left = refl

sequence_left : Memtable.new.sequence + 1 < 2 ^ 64
unfolding Memtable.new
sequence_left = omega arith

frame_a-Representable : Representable frame_a
unfolding timestamp
frame_a-Representable = omega arith

nothing-found : scan_tables toy_formats [] [] eui_a none none ≡ ok []
unfolding scan_tables
nothing-found = refl

query-write_example :
    (before after : List Frame) × (query toy_formats engine eui_a none none ≡ ok before)
    × ((write toy_formats now frame_a engine).0 ≡ ok tt)
    × (query toy_formats (write toy_formats now frame_a engine).1 eui_a none none ≡ ok after)
    × Ordered after
    × Perm after (with_matching (matches eui_a none none) frame_a before)
query-write_example =
    query-write toy_formats now frame_a engine log_a eui_a none none [] new-IsValid
      frame_a-Representable sequence_left frame_a-logged room_left nothing-found

-- An engine with one frame, which is written to the table 3 of a flush.
abbrev full_engine : StorageEngine
full_engine = record engine {
  memtable = record { entries = entries; size_bytes = 50; sequence = 1 };
  files = [];
}

-- The frame that is lost is another one.
abbrev late : Frame
late = accept_at (text "a") 7000

abbrev log_late : WriteAheadLog
log_late = record {
  segments = (0, Wal.entry_bytes toy_formats.crc32 (7000 ∷ text "a")) ∷ [];
  current_segment = 0;
  segment_number = 0;
}

late-logged : Wal.append toy_formats.bincode toy_formats.crc32 (open_wal []) late ≡ ok log_late
unfolding Wal.append open_wal Wal.find_latest_segment Wal.open_segment Assoc.get Assoc.insert
late-logged = refl

lost_write_example :
    (made : StorageEngine) × (t : System) × (before after : List Frame) × Steps toy_formats now
      (quiet full_engine (Phase.allocated 3))
      (quiet made (Phase.created 3))
    × Steps toy_formats now
        (quiet made (Phase.created 3))
        (behind_write toy_formats now late log_late made (Phase.created 3))
    × Steps toy_formats now (behind_write toy_formats now late log_late made (Phase.created 3)) t
    × (t.phase ≡ Phase.finished)
    × (t.engine.memtable.entries ≡ [])
    × (replay toy_formats.bincode toy_formats.crc32 t.engine.wal ≡ [])
    × (query toy_formats full_engine eui_a none none ≡ ok before)
    × (query toy_formats t.engine eui_a none none ≡ ok after)
    × Perm after before
lost_write_example =
    lost_write toy_formats toy_laws now full_engine 3 key_a frame_a [] late log_late eui_a none none
      [] refl (tt, tt) (frame_a_entry, tt) entries-KeyFits (omega arith) (omega arith) (omega arith)
      ([], open_wal-IsLog toy_formats.bincode toy_formats.crc32 toy_laws.word) late-logged tt tt
      nothing-found

engine-IsDurable : IsDurable toy_formats toy_laws (quiet engine (Phase.created 3))
unfolding Memtable.new
engine-IsDurable = record {
  in_order = ([], open_wal-IsLog toy_formats.bincode toy_formats.crc32 toy_laws.word);
  stored = tt;
  waiting = tt;
}

created-unfinished : Phase.created 3 ≢ Phase.finished
created-unfinished e = cc e

Steps-IsDurable_example :
    IsDurable toy_formats toy_laws
      (behind_write toy_formats now frame_a log_a engine (Phase.created 3))
Steps-IsDurable_example =
    Steps-IsDurable toy_formats toy_laws now (quiet engine (Phase.created 3))
      (behind_write toy_formats now frame_a log_a engine (Phase.created 3)) engine-IsDurable
      (write-Steps toy_formats now frame_a log_a engine (Phase.created 3) frame_a-logged)
      created-unfinished
