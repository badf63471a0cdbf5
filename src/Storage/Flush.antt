-- ===== src/Storage/Flush.antt =====
-- `flush_memtable` of src/storage/mod.rs.
use lo_ra_db.Prelude.{
  ◌+◌, ◌<◌, ◌%◌, ◌^◌, ◌≡◌, ◌≢◌, refl, sym, ◌∙◌, ap, false, Option, List, [], ◌∷◌, ◌++◌, map, length,
  Result, ok, All, arith, length-append,
}
use lo_ra_db.Prelude.Assoc
use lo_ra_db.Model.Text.{Text, text_ord}
use lo_ra_db.Model.Lorawan.{LoraDbError, DevEui}
use lo_ra_db.Model.Frames.{Frame, DateTime, timestamp_micros}
use lo_ra_db.Engine.Codec.{Formats, FormatLaws}
use lo_ra_db.Engine.Bytes.{Bytes}
use lo_ra_db.Engine.Memtable
use lo_ra_db.Engine.Memtable.Keys.{MemtableKey, key_ord, InI64, range_start, range_end}
use lo_ra_db.Engine.Wal
use lo_ra_db.Engine.SsTable.{SsTableMetadata, SsTableReader}
use lo_ra_db.Engine.SsTable.Reader.{open_sstable, scan}
use lo_ra_db.Engine.SsTable.Written.{Writable}
use lo_ra_db.Engine.SsTable.Table.{KeyFits, reads-add_all, range-in_range}
use lo_ra_db.Engine.Compaction.{
  CompactionManager, Table, allocate_sstable_id, should_compact, write_merged,
}
use lo_ra_db.Storage.{
  StorageEngine, sstable_path, open_path, flush_memtable, query, scan_tables, sort_by_timestamp,
}
use lo_ra_db.Storage.Query.{scan_tables-new}

-- The id manager behind an allocation.
abbrev pub allocated : CompactionManager → CompactionManager
allocated m = record m { next_sstable_id = (m.next_sstable_id + 1) % 2 ^ 64 }

module _ (x : Formats) where
  -- The state behind a flush to a table.
  abbrev pub flushed : StorageEngine → Table → StorageEngine
  flushed e t = record e {
    compaction_manager = allocated e.compaction_manager;
    files = Assoc.insert t.path t.file e.files;
    sstables = e.sstables ++ t ∷ [];
    memtable = Memtable.clear e.memtable;
    wal = Wal.truncate e.wal;
  }

  pub open_path-insert :
      (t : Table) (files : List (Text × Bytes))
      → open_sstable x t.file ≡ ok t.reader
      → open_path x t.path (Assoc.insert t.path t.file files) ≡ ok t
  unfolding open_path
  open_path-insert t files h = rw (Assoc.get-insert_self t.path t.file files, open_path, h) refl

  abbrev pub new_table : StorageEngine → Bytes → SsTableReader → Table
  new_table e file reader = record {
    path = sstable_path e.compaction_manager.next_sstable_id;
    file = file;
    reader = reader;
  }

  flush-flushed :
      (now : DateTime) (e : StorageEngine) (file : Bytes) (reader : SsTableReader)
      (meta : SsTableMetadata)
      → write_merged x e.compaction_manager.next_sstable_id
          (timestamp_micros now)
          e.memtable.entries
        ≡ ok (file, meta)
      → open_sstable x file ≡ ok reader
      → should_compact
          (allocated e.compaction_manager)
          (length (e.sstables ++ new_table e file reader ∷ []))
        ≡ false
      → flush_memtable x now e ≡ (ok tt, flushed e (new_table e file reader))
  unfolding flush_memtable allocate_sstable_id
  flush-flushed now e file reader meta h o few =
      rw (h, flush_memtable, open_path-insert (new_table e file reader) e.files o, few) refl

  query-flushed :
      (e : StorageEngine) (t : Table) (eui : DevEui) (start_time end_time : Option DateTime)
      (found : List Frame)
      → Assoc.IsSorted e.files
      → All (λ u. t.path ≢ u.path) e.sstables
      → scan_tables x e.files e.sstables eui start_time end_time ≡ ok found
      → scan x t.file t.reader eui start_time end_time
        ≡ ok (Memtable.scan_device_range e.memtable eui start_time end_time)
      → query x (flushed e t) eui start_time end_time
        ≡ ok (
            sort_by_timestamp
              (found ++ Memtable.scan_device_range e.memtable eui start_time end_time))
  unfolding query Memtable.clear Memtable.scan_device_range
  query-flushed e t eui s z found sorted apart h p =
      rw
        (scan_tables-new x e.files e.sstables t eui s z found
          (Memtable.scan_device_range e.memtable eui s z) sorted apart h p)
        refl

  pub scan_of_entries :
      (e : StorageEngine) (l : List (MemtableKey × Frame)) (eui : DevEui) (s z : Option DateTime)
      → e.memtable.entries ≡ l
      → Path
          (Result LoraDbError (List Frame))
          (ok (map (λ e. e.1) (Assoc.range (range_start eui s) (range_end eui z) l)))
          (ok (Memtable.scan_device_range e.memtable eui s z))
  unfolding Memtable.scan_device_range
  scan_of_entries e l eui s z held =
      ap (λ l. ok (map (λ e. e.1) (Assoc.range (range_start eui s) (range_end eui z) l))) (sym held)

  -- Flushing a memtable that is not empty, with fewer than 2^31 entries, which ascend by key, fit the
  -- formats and the fields of a file, and whose frames read back as they were serialised, where the
  -- tables stay at or below the threshold, no table is under the path of the new file, and the files
  -- ascend by name, succeeds; it leaves an empty memtable, and a query then
  -- returns the same frames as before, those of the new table taken as the last in place of the first
  -- before the sort by time, for each device and window for which the old tables can be read.
  pub query-flush_memtable :
      (law : FormatLaws x) (now : DateTime) (e : StorageEngine) (k : MemtableKey) (f : Frame)
      (entries : List (MemtableKey × Frame)) (eui : DevEui) (start_time end_time : Option DateTime)
      (found : List Frame)
      → e.memtable.entries ≡ (k, f) ∷ entries
      → Assoc.IsSorted ((k, f) ∷ entries)
      → All (λ e. Writable x law e.0 e.1) ((k, f) ∷ entries)
      → All KeyFits ((k, f) ∷ entries)
      → length ((k, f) ∷ entries) < 2 ^ 31
      → e.compaction_manager.next_sstable_id < 2 ^ 64
      → InI64 (timestamp_micros now)
      → length e.sstables < e.compaction_manager.threshold
      → Assoc.IsSorted e.files
      → All (λ u. sstable_path e.compaction_manager.next_sstable_id ≢ u.path) e.sstables
      → scan_tables x e.files e.sstables eui start_time end_time ≡ ok found
      → ((flush_memtable x now e).0 ≡ ok tt)
        × ((flush_memtable x now e).1.memtable.entries ≡ [])
        × (query x e eui start_time end_time
            ≡ ok (
                sort_by_timestamp
                  (Memtable.scan_device_range e.memtable eui start_time end_time ++ found)))
        × (query x (flush_memtable x now e).1 eui start_time end_time
            ≡ ok (
                sort_by_timestamp
                  (found ++ Memtable.scan_device_range e.memtable eui start_time end_time)))
  unfolding query Memtable.clear should_compact write_merged
  query-flush_memtable law now e k f entries eui s z found held sorted fit keys few id_low i room
        files apart h =
      let (w, w', made, added, r, named) =
        reads-add_all x law e.compaction_manager.next_sstable_id (timestamp_micros now) k f entries
          sorted fit keys few id_low i in
      let t = new_table e r.file r.reader in
      let done : flush_memtable x now e ≡ (ok tt, flushed e t) =
        flush-flushed now e r.file r.reader r.metadata (rw (held, made, added, r.finishes) refl)
          r.opens (ground (arith, length-append e.sstables (t ∷ []), room)) in
      let same : scan x r.file r.reader eui s z
          ≡ ok (Memtable.scan_device_range e.memtable eui s z) =
        r.scans eui s z
        ∙ ap (λ l. ok (map (λ e. e.1) l)) (sym (range-in_range eui s z ((k, f) ∷ entries) keys))
        ∙ scan_of_entries e ((k, f) ∷ entries) eui s z held in
      (
        ap (λ p. p.0) done,
        ap (λ p. p.1.memtable.entries) done,
        rw h refl,
        ap (λ p. query x p.1 eui s z) done ∙ query-flushed e t eui s z found files apart h same,
      )
