-- ===== src/Storage/Recovery/Frames.antt =====
-- What `StorageEngine::new` of src/storage/mod.rs recovers after a crash.
use lo_ra_db.Prelude.{
  ℕ, zero, suc, map, ◌≤◌, arith, false, ◌≡◌, refl, sym, ap, ◌∙◌, subst, List, [], ◌∷◌, length, ok,
  All, Returns, Result-cases, Option-cases, Bool-cases, inl, inr, ltb, ◌-◌, ◌^◌,
}
use lo_ra_db.Prelude.Order.{nat_ord}
use lo_ra_db.Prelude.Assoc
use lo_ra_db.Model.Text.{Text}
use lo_ra_db.Model.Frames.{Frame, DateTime}
use lo_ra_db.Engine.Codec.{Formats, FormatLaws}
use lo_ra_db.Engine.Bytes.{Bytes}
use lo_ra_db.Engine.Memtable
use lo_ra_db.Engine.Memtable.Scan.{insert_all}
use lo_ra_db.Engine.Wal.{WriteAheadLog, open_wal, replay, append, find_latest_segment, open_segment}
use lo_ra_db.Engine.Wal.Replay.{append_all, Serializes}
use lo_ra_db.Engine.Wal.Truncate.{append_all_empty, open_wal-IsLog}
use lo_ra_db.Storage.Recovery.{
  open_engine, populate, recovered, any_panics, startup_compaction, startup_open_limit,
  find_sstables,
}
use lo_ra_db.Storage.{StorageEngine}
use lo_ra_db.Engine.SsTable.Reader.{open_panics}
use lo_ra_db.Engine.Compaction.{CompactionManager, new_manager}

-- A log of one segment.
abbrev pub single : Bytes → WriteAheadLog
single bytes = record { segments = (0, bytes) ∷ []; current_segment = 0; segment_number = 0 }

abbrev pub IsSingle : WriteAheadLog → Type 0
IsSingle wal = (bytes : Bytes) × (wal ≡ single bytes)

-- Opening the files of such a log gives it back.
open_wal-single : (wal : WriteAheadLog) → IsSingle wal → open_wal wal.segments ≡ wal
unfolding open_wal Assoc.get find_latest_segment open_segment
open_wal-single wal (bytes, e) = ap (λ w. open_wal w.segments) e ∙ sym e

module _ (x : Formats) (law : FormatLaws x) where
  append-single :
      (frame : Frame) (bytes : Bytes)
      → Returns IsSingle (append x.bincode x.crc32 (single bytes) frame)
  unfolding append Assoc.insert
  append-single frame bytes = elim (Option-cases (x.bincode.serialize frame)) [
    | inl e ↦ rw (e, Returns) tt
    | inr (p, e) ↦ elim (Bool-cases (ltb (2 ^ 32 - 1) (length p))) [
      | inl long ↦ rw (e, Returns, append, long) tt
      | inr short ↦ rw (e, Returns, append, short) (_, refl)
    ]
  ]

  append_all-IsSingle :
      (frames : List Frame) (wal : WriteAheadLog)
      → IsSingle wal
      → Returns IsSingle (append_all x.bincode x.crc32 law.word wal frames)
  unfolding append_all
  append_all-IsSingle [] wal h = h
  append_all-IsSingle (f ∷ frames) wal h =
      let (bytes, e) = h in
      let one =
        subst (λ w. Returns IsSingle (append x.bincode x.crc32 w f)) (sym e)
          (append-single f bytes) in
      elim (Result-cases (append x.bincode x.crc32 wal f)) [
        | inl (why, bad) ↦ rw (bad, Returns) tt
        | inr (next, good) ↦
            rw (good, Returns) (append_all-IsSingle frames next (subst (Returns IsSingle) good one))
      ]

  populate-insert_all :
      (frames : List Frame) (m : Memtable.Memtable)
      → populate x frames m ≡ insert_all x.bincode m frames
  unfolding populate insert_all
  populate-insert_all [] m = refl
  populate-insert_all (f ∷ frames) m = populate-insert_all frames (Memtable.insert x.bincode m f)

  none_panics :
      (files : List (Text × Bytes))
      → All (λ f. open_panics x f.1 ≡ false) files
      → any_panics x files ≡ false
  unfolding any_panics
  none_panics [] h = refl
  none_panics (f ∷ files) h = rw (h.0, none_panics files h.1) refl

  few_compacted :
      (fuel : ℕ) (now : DateTime) (remaining : List Text) (m : CompactionManager)
      (files : List (Text × Bytes))
      → length remaining ≤ startup_open_limit
      → startup_compaction x fuel now remaining m files ≡ ok (m, files)
  unfolding startup_compaction
  few_compacted zero now remaining m files h = refl
  few_compacted (suc fuel) now remaining m files h =
      let few : ltb startup_open_limit (length remaining) ≡ false = ground (arith, h) in rw few refl

  length-paths : (l : List (Text × Bytes)) → length (map (λ f. f.0) l) ≡ length l
  length-paths [] = refl
  length-paths (f ∷ l) = ap suc (length-paths l)

  -- With at most 500 table files, none with a time out of the range of the time library, an engine
  -- opens on any log.
  open_engine-recovered :
      (now : DateTime) (memtable_size_mb compaction_threshold : ℕ) (wal_files : List (ℕ × Bytes))
      (files : List (Text × Bytes))
      → length (find_sstables files) ≤ startup_open_limit
      → All (λ f. open_panics x f.1 ≡ false) (find_sstables files)
      → open_engine x now memtable_size_mb compaction_threshold wal_files files
        ≡ ok (
            recovered x now memtable_size_mb compaction_threshold
              (open_wal wal_files)
              (populate x (replay x.bincode x.crc32 (open_wal wal_files)) Memtable.new)
              (new_manager compaction_threshold)
              files)
  unfolding open_engine
  open_engine-recovered now size threshold wal_files files few times =
      rw
        (
          few_compacted (length (map (λ f. f.0) (find_sstables files))) now
              (map (λ f. f.0) (find_sstables files)) (new_manager threshold) files
              (omega (arith, few, length-paths (find_sstables files))),
          none_panics (find_sstables files) times,
        )
        refl

  -- After frames that serialise to less than 4 GiB and read back as they were have been appended to an empty
  -- log, an engine can be opened on the log's files and at most 500 table files, none of which has a
  -- time out of the range of the time library; it has the same log, and the memtable that inserting the
  -- frames in their order into an empty one gives, whatever else is in the table files.
  pub open_engine-recovers :
      (now : DateTime) (memtable_size_mb compaction_threshold : ℕ) (files : List (Text × Bytes))
      (frames : List Frame)
      → All (Serializes x.bincode x.crc32 law.word) frames
      → length (find_sstables files) ≤ startup_open_limit
      → All (λ f. open_panics x f.1 ≡ false) (find_sstables files)
      → (wal : WriteAheadLog) × (engine : StorageEngine) × (append_all x.bincode x.crc32 law.word
            (open_wal [])
            frames
          ≡ ok wal)
        × (open_engine x now memtable_size_mb compaction_threshold wal.segments files ≡ ok engine)
        × (engine.wal ≡ wal)
        × (engine.memtable ≡ insert_all x.bincode Memtable.new frames)
  unfolding recovered
  open_engine-recovers now memtable_size_mb compaction_threshold files frames s few times =
      let (wal, done, replayed) =
        append_all_empty x.bincode x.crc32 law.word (open_wal []) frames
          (open_wal-IsLog x.bincode x.crc32 law.word) (unfold open_wal in refl) s in
      let empty : IsSingle (open_wal []) = (
        [],
        unfold open_wal in
            unfold find_latest_segment in
            unfold open_segment in unfold Assoc.insert in unfold Assoc.get in refl,
      ) in
      let one = subst (Returns IsSingle) done (append_all-IsSingle frames (open_wal []) empty) in
      let same = open_wal-single wal one in
      (
        wal,
        _,
        done,
        open_engine-recovered now memtable_size_mb compaction_threshold wal.segments files few
            times,
        same,
        ap (λ w. populate x (replay x.bincode x.crc32 w) Memtable.new) same
            ∙ ap (λ l. populate x l Memtable.new) replayed
            ∙ populate-insert_all frames Memtable.new,
      )
