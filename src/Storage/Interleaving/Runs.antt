-- ===== src/Storage/Interleaving/Runs.antt =====
-- Runs of the steps of src/storage/mod.rs: a flush that a write comes between.
use mathlib.Core.List.{Perm, perm_middle, append-nil}
use mathlib.Core.List.Perm
use lo_ra_db.Prelude.{Option, List, map, All, sym, ap, ◌∙◌, ◌<◌, ◌^◌}
use lo_ra_db.Engine.Memtable.Keys.{MemtableKey, key_ord, InI64}
use lo_ra_db.Engine.SsTable.Written.{Writable}
use lo_ra_db.Engine.SsTable.Table.{KeyFits, reads-add_all, range-in_range}
use lo_ra_db.Engine.SsTable.Reader.{scan}
use lo_ra_db.Storage.Query.{scan_tables-new}
use lo_ra_db.Storage.Flush.{open_path-insert, scan_of_entries}
use lo_ra_db.Storage.Write.{sort_by_timestamp-perm, query-ok}
use lo_ra_db.Prelude.{ℕ, ◌≡◌, ◌≢◌, refl, [], ◌∷◌, ◌++◌, length, ok}
use lo_ra_db.Prelude.Assoc
use lo_ra_db.Model.Text.{text_ord}
use lo_ra_db.Model.Lorawan.{DevEui}
use lo_ra_db.Model.Frames.{Frame, DateTime, timestamp_micros}
use lo_ra_db.Engine.Codec.{Formats, FormatLaws}
use lo_ra_db.Engine.Memtable
use lo_ra_db.Engine.Wal
use lo_ra_db.Engine.Wal.{WriteAheadLog, replay}
use lo_ra_db.Engine.Wal.Truncate.{truncate-IsLog, replay_fresh, current-truncate}
use lo_ra_db.Engine.Compaction.{Table, write_merged}
use lo_ra_db.Storage.{StorageEngine, sstable_path, open_path, query, scan_tables, sort_by_timestamp}
use lo_ra_db.Storage.Interleaving.{
  Phase, System, Steps, log, store, create, push, clear, truncate, start, later, logged_engine,
  stored_engine,
}
use lo_ra_db.Storage.Interleaving.Durable.{Logged, append-replay}

-- A system whose flush is this far, with no writer under way.
abbrev pub quiet : StorageEngine → Phase → System
quiet e phase = record { engine = e; logged = []; phase = phase }

module _ (x : Formats) where
  -- The system behind a whole write, where the flush is this far.
  abbrev pub behind_write : DateTime → Frame → WriteAheadLog → StorageEngine → Phase → System
  behind_write now frame wal e phase =
      quiet (stored_engine x frame (logged_engine now frame wal e)) phase

  pub write-Steps :
      (now : DateTime) (frame : Frame) (wal : WriteAheadLog) (e : StorageEngine) (phase : Phase)
      → Wal.append x.bincode x.crc32 e.wal frame ≡ ok wal
      → Steps x now (quiet e phase) (behind_write now frame wal e phase)
  write-Steps now frame wal e phase h =
      later (later start (log frame wal h)) (store frame [] [] refl)

  -- The rest of a flush whose table's file is written.
  abbrev pub flush_rest : Table → StorageEngine → StorageEngine
  flush_rest reader e = record e {
    sstables = e.sstables ++ reader ∷ [];
    memtable = Memtable.clear e.memtable;
    wal = Wal.truncate e.wal;
  }

  rest-Steps :
      (now : DateTime) (e : StorageEngine) (id : ℕ) (reader : Table)
      → open_path x (sstable_path id) e.files ≡ ok reader
      → Steps x now (quiet e (Phase.created id)) (quiet (flush_rest reader e) Phase.finished)
  rest-Steps now e id reader h =
      later (later (later start (push id reader refl h)) (clear refl)) (truncate refl)

  append_comm : {A : Type 0} (k l : List A) → Perm (k ++ l) (l ++ k)
  append_comm [] l = rw (append-nil l) Perm.rfl
  append_comm (a ∷ k) l = Perm.trans (Perm.cons a (append_comm k l)) (Perm.symm (perm_middle l k))

  -- Behind the rest of the flush of what a table was made of, a query finds the old tables and it.
  query_rest :
      (e : StorageEngine) (t : Table) (eui : DevEui) (s z : Option DateTime)
      (found more : List Frame)
      → scan_tables x e.files (e.sstables ++ t ∷ []) eui s z ≡ ok (found ++ more)
      → query x (flush_rest t e) eui s z ≡ ok (sort_by_timestamp (found ++ more))
  unfolding query Memtable.clear Memtable.scan_device_range
  query_rest e t eui s z found more h = rw h refl

  sorted_comm : (k l : List Frame) → Perm (sort_by_timestamp (k ++ l)) (sort_by_timestamp (l ++ k))
  sorted_comm k l =
      Perm.trans (sort_by_timestamp-perm (k ++ l))
        (Perm.trans (append_comm k l) (Perm.symm (sort_by_timestamp-perm (l ++ k))))

  -- Behind the allocation of its id, a flush of a memtable that fits the formats can write the file of
  -- its table; then a whole write can pass, whose frame the log takes and the memtable too; and then
  -- the flush can end. The memtable is then empty, the log replays to nothing, and a query, which
  -- reads the new table too, returns the frames that it returned before the write, and no other: what
  -- was written is lost. The memtable has fewer than 2^31 entries, whose frames read back as they were
  -- serialised, and the open segment of the log holds whole entries only and is the last one. The files ascend by name, and no table is
  -- under the path of the new file.
  pub lost_write :
      (law : FormatLaws x) (now : DateTime) (e : StorageEngine) (id : ℕ) (k : MemtableKey)
      (f : Frame) (entries : List (MemtableKey × Frame)) (frame : Frame) (wal : WriteAheadLog)
      (eui : DevEui) (start_time end_time : Option DateTime) (found : List Frame)
      → e.memtable.entries ≡ (k, f) ∷ entries
      → Assoc.IsSorted ((k, f) ∷ entries)
      → All (λ e. Writable x law e.0 e.1) ((k, f) ∷ entries)
      → All KeyFits ((k, f) ∷ entries)
      → length ((k, f) ∷ entries) < 2 ^ 31
      → id < 2 ^ 64
      → InI64 (timestamp_micros now)
      → Logged x law e.wal
      → Wal.append x.bincode x.crc32 e.wal frame ≡ ok wal
      → Assoc.IsSorted e.files
      → All (λ u. sstable_path id ≢ u.path) e.sstables
      → scan_tables x e.files e.sstables eui start_time end_time ≡ ok found
      → (made : StorageEngine) × (t : System) × (before after : List Frame) × Steps x now
          (quiet e (Phase.allocated id))
          (quiet made (Phase.created id))
        × Steps x now
            (quiet made (Phase.created id))
            (behind_write now frame wal made (Phase.created id))
        × Steps x now (behind_write now frame wal made (Phase.created id)) t
        × (t.phase ≡ Phase.finished)
        × (t.engine.memtable.entries ≡ [])
        × (replay x.bincode x.crc32 t.engine.wal ≡ [])
        × (query x e eui start_time end_time ≡ ok before)
        × (query x t.engine eui start_time end_time ≡ ok after)
        × Perm after before
  unfolding Memtable.clear write_merged
  lost_write law now e id k f entries frame wal eui s z found held sorted fit keys few id_low i
        log_l taken files apart h =
      let (w, w', made, added, r, named) =
        reads-add_all x law id (timestamp_micros now) k f entries sorted fit keys few id_low i in
      let ((l, j), same) = append-replay x law e.wal wal frame log_l taken in
      let t : Table = record { path = sstable_path id; file = r.file; reader = r.reader } in
      let made_e = record e { files = Assoc.insert (sstable_path id) r.file e.files } in
      let written = stored_engine x frame (logged_engine now frame wal made_e) in
      let old = Memtable.scan_device_range e.memtable eui s z in
      let in_table : scan x r.file r.reader eui s z ≡ ok old =
        r.scans eui s z
        ∙ ap (λ l. ok (map (λ e. e.1) l)) (sym (range-in_range eui s z ((k, f) ∷ entries) keys))
        ∙ scan_of_entries x e ((k, f) ∷ entries) eui s z held in
      (
        made_e,
        quiet (flush_rest t written) Phase.finished,
        sort_by_timestamp (old ++ found),
        sort_by_timestamp (found ++ old),
        later start (create id r.file r.metadata refl (rw (held, made, added, r.finishes) refl)),
        write-Steps now frame wal made_e (Phase.created id) taken,
        rest-Steps now written id t (open_path-insert x t e.files r.opens),
        refl,
        refl,
        replay_fresh x.bincode x.crc32 law.word (Wal.truncate wal)
            (truncate-IsLog x.bincode x.crc32 law.word wal l j)
            (current-truncate x.bincode x.crc32 law.word wal),
        query-ok x e eui s z found h,
        query_rest written t eui s z found old
            (scan_tables-new x e.files e.sstables t eui s z found old files apart h in_table),
        sorted_comm found old,
      )
