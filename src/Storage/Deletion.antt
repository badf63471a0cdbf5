-- ===== src/Storage/Deletion.antt =====
-- `delete_device` and `shutdown` of src/storage/mod.rs. A failure half way leaves the memtable without
-- the device, the list of tables as it was, and the files that were written.
pub mod Counts
use lo_ra_db.Prelude.{
  ℕ, zero, suc, ◌+◌, ◌-◌, ◌≡◌, Bool, true, false, not, Option, none, some, List, [], ◌∷◌, map,
  filter, length, Result, ok, err, if◌then◌else◌,
}
use lo_ra_db.Prelude.Order.{le}
use lo_ra_db.Prelude.Assoc
use lo_ra_db.Model.Text.{Text, text_ord, eq_text}
use lo_ra_db.Model.Lorawan.{LoraDbError, DevEui}
use lo_ra_db.Model.Frames.{Frame, DateTime, timestamp, timestamp_micros, dev_eui}
use lo_ra_db.Model.Device
use lo_ra_db.Engine.Codec.{Formats}
use lo_ra_db.Engine.Bytes.{Bytes}
use lo_ra_db.Engine.Memtable
use lo_ra_db.Engine.Memtable.Keys.{MemtableKey, new_key, key_ord}
use lo_ra_db.Engine.SsTable.Reader.{iter_all}
use lo_ra_db.Engine.Compaction.{CompactionManager, Table, allocate_sstable_id, write_merged}
use lo_ra_db.Storage.{
  StorageEngine, sstable_path, open_path, open_paths, delete_files, flush_memtable,
}

-- `frame.dev_eui() == dev_eui`, in the letter case of both.
unfoldable pub is_deleted_device : DevEui → Frame → Bool
is_deleted_device eui frame = eq_text (dev_eui frame).as_str eui.as_str

-- `enumerate` and the key of each frame.
unfoldable pub keyed_from : ℕ → List Frame → List (MemtableKey × Frame)
keyed_from seq [] = []
keyed_from seq (frame ∷ frames) =
    (new_key (dev_eui frame) (timestamp frame) seq, frame) ∷ keyed_from (suc seq) frames

-- `sort_by` on the keys: stable.
unfoldable pub sort_key_one :
    MemtableKey × Frame → List (MemtableKey × Frame) → List (MemtableKey × Frame)
sort_key_one e [] = e ∷ []
sort_key_one e (g ∷ l) = let rest = sort_key_one e l in if le e.0 g.0 then e ∷ g ∷ l else g ∷ rest

unfoldable pub sort_by_key : List (MemtableKey × Frame) → List (MemtableKey × Frame)
unfolding sort_key_one
sort_by_key [] = []
sort_by_key (e ∷ l) = sort_key_one e (sort_by_key l)

-- What the loop over the tables leaves: the new tables and the count, or its error, and the ids and
-- files.
pub record Rewritten : Type 0 where
  pub outcome : Result LoraDbError (List Table × ℕ)
  pub manager : CompactionManager
  pub files : List (Text × Bytes)

abbrev pub with_table : Table → Rewritten → Rewritten
with_table t r = elim r.outcome [
  | err why ↦ record r { outcome = err why }
  | ok (tables, n) ↦ record r { outcome = ok (t ∷ tables, n) }
]

module _ (x : Formats) where
  -- The loop over the tables.
  unfoldable pub rewrite_tables :
      DateTime → DevEui → List Table → CompactionManager → List (Text × Bytes) → ℕ → Rewritten
  rewrite_tables now eui [] m files total_deleted = record {
    outcome = ok ([], total_deleted);
    manager = m;
    files = files;
  }
  rewrite_tables now eui (t ∷ tables) m files total_deleted = elim (iter_all x t.file t.reader) [
    | err why ↦ record { outcome = err why; manager = m; files = files }
    | ok all ↦
        let total = total_deleted + length (filter (is_deleted_device eui) all) in
        elim (filter (λ f. not (is_deleted_device eui f)) all) [
          | [] ↦ rewrite_tables now eui tables m files total
          | f ∷ frames ↦
              let (new_id, m') = allocate_sstable_id m in
              elim (write_merged x new_id (timestamp_micros now)
                (sort_by_key (keyed_from 0 (f ∷ frames)))) [
                  | err why ↦ record { outcome = err why; manager = m'; files = files }
                  | ok (file, metadata) ↦
                      let path = sstable_path metadata.id in
                      let files' = Assoc.insert path file files in
                      elim (open_path x path files') [
                        | err why ↦ record { outcome = err why; manager = m'; files = files' }
                        | ok table ↦
                            with_table table (rewrite_tables now eui tables m' files' total)
                      ]
                ]
        ]
  ]

  -- The tables' part, on an engine whose memtable is done.
  unfoldable pub delete_from_tables :
      DateTime → DevEui → ℕ → StorageEngine → Result LoraDbError ℕ × StorageEngine
  delete_from_tables now eui total_deleted e =
      elim (open_paths x (map (λ t. t.path) e.sstables) e.files) [
        | err why ↦ (err why, e)
        | ok old_sstables ↦
            let r =
              rewrite_tables now eui old_sstables e.compaction_manager e.files total_deleted in
            elim r.outcome [
              | err why ↦ (err why, record e { compaction_manager = r.manager; files = r.files })
              | ok (new_sstables, n) ↦ (
                ok n,
                record e {
                  compaction_manager = r.manager;
                  sstables = new_sstables;
                  files = delete_files (map (λ t. t.path) old_sstables) r.files;
                },
              )
            ]
      ]

  unfoldable pub delete_device :
      DateTime → DevEui → StorageEngine → Result LoraDbError ℕ × StorageEngine
  delete_device now eui e =
      let (memtable, deleted) = Memtable.delete_device x.bincode e.memtable eui in
      let (outcome, after) =
        delete_from_tables now eui deleted (record e { memtable = memtable }) in
      elim outcome [
        | err why ↦ (err why, after)
        | ok n ↦ (
          ok n,
          record after {
            device_registry = (Device.remove_device eui.as_str after.device_registry).0;
          },
        )
      ]

  unfoldable pub shutdown : DateTime → StorageEngine → Result LoraDbError (Unit {0}) × StorageEngine
  shutdown now e =
      let flushed = flush_memtable x now e in
      if Memtable.is_empty e.memtable then (ok tt, e) else flushed
