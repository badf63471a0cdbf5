-- ===== src/Storage/Deletion/Counts.antt =====
-- What `delete_device` of src/storage/mod.rs counts, and what it leaves of the device.
use lo_ra_db.Prelude.{
  ℕ, Bool, ◌+◌, ◌≡◌, refl, not, List, ◌∷◌, map, filter, length, Result, ok, err, arith, ap, subst,
  Result-cases, inl, inr, List-cases, filter-append, length-append,
}
use lo_ra_db.Prelude.Assoc
use lo_ra_db.Model.Text.{Text, text_ord, eq_text}
use lo_ra_db.Model.Lorawan.{LoraDbError, DevEui}
use lo_ra_db.Model.Frames.{Frame, dev_eui, DateTime, timestamp_micros}
use lo_ra_db.Engine.Codec.{Formats}
use lo_ra_db.Engine.Bytes.{Bytes}
use lo_ra_db.Engine.Memtable
use lo_ra_db.Engine.Compaction.{CompactionManager, Table, allocate_sstable_id, write_merged}
use lo_ra_db.Engine.Compaction.Merge.{Hold, nothing, table}
use lo_ra_db.Storage.{StorageEngine, open_path, open_paths, sstable_path}
use lo_ra_db.Storage.Deletion.{
  Rewritten, with_table, rewrite_tables, delete_from_tables, delete_device, is_deleted_device,
  sort_by_key, keyed_from,
}

-- The frame's EUI is spelled as the given one.
abbrev pub is_spelled : DevEui → Frame → Bool
is_spelled eui frame = eq_text (dev_eui frame).as_str eui.as_str

-- The number of frames whose EUI is spelled so.
abbrev pub count_of : DevEui → List Frame → ℕ
count_of eui frames = length (filter (is_spelled eui) frames)

deleted-spelled :
    (eui : DevEui) (frames : List Frame)
    → length (filter (is_deleted_device eui) frames) ≡ count_of eui frames
unfolding is_deleted_device
deleted-spelled eui frames = refl

-- The count of a rewriting that succeeds.
abbrev Counted : ℕ → Result LoraDbError (List Table × ℕ) → Type 0
Counted k (ok (tables, n)) = n ≡ k
Counted k (err why) = Unit

abbrev Deleted : ℕ → Result LoraDbError ℕ → Type 0
Deleted k (ok n) = n ≡ k
Deleted k (err why) = Unit

with_table-Counted :
    (k : ℕ) (t : Table) (r : Rewritten) → Counted k r.outcome → Counted k (with_table t r).outcome
with_table-Counted k t r h = elim (Result-cases r.outcome) [
  | inl (why, e) ↦ rw (e, with_table) tt
  | inr ((tables, n), e) ↦ rw (e, with_table) (subst (Counted k) e h)
]

module _ (x : Formats) where
  rewrite_tables-Counted :
      (now : DateTime) (eui : DevEui) (tables : List Table) (frames : List Frame)
      (m : CompactionManager) (files : List (Text × Bytes)) (total k : ℕ)
      → Hold x tables frames
      → k ≡ total + count_of eui frames
      → Counted k (rewrite_tables x now eui tables m files total).outcome
  unfolding rewrite_tables
  rewrite_tables-Counted now eui _ _ m files total k nothing e = ground (arith, e)
  rewrite_tables-Counted now eui _ _ m files total k (table {t} {tables} all rest reads h) e =
      let removed = length (filter (is_deleted_device eui) all) in
      let sum : k ≡ (total + removed) + count_of eui rest = omega (
        arith,
        e,
        deleted-spelled eui all,
        ap length (filter-append (is_spelled eui) all rest),
        length-append (filter (is_spelled eui) all) (filter (is_spelled eui) rest),
      ) in
      elim (List-cases (filter (λ f. not (is_deleted_device eui f)) all)) [
        | inl none_left ↦
            rw (reads, rewrite_tables, none_left)
              (rewrite_tables-Counted now eui tables rest m files (total + removed) k h sum)
        | inr (f, frames, left) ↦
            let (new_id, m') = allocate_sstable_id m in
            let written =
              write_merged x new_id (timestamp_micros now)
                (sort_by_key (keyed_from 0 (f ∷ frames))) in
            elim (Result-cases written) [
              | inl (why, bad) ↦ rw (reads, rewrite_tables, left, bad) tt
              | inr ((file, metadata), good) ↦
                  let files' = Assoc.insert (sstable_path metadata.id) file files in
                  elim (Result-cases (open_path x (sstable_path metadata.id) files')) [
                    | inl (why, shut) ↦ rw (reads, rewrite_tables, left, good, shut) tt
                    | inr (u, opened) ↦
                        rw (reads, rewrite_tables, left, good, opened)
                          (with_table-Counted k u _ (
                            rewrite_tables-Counted now eui tables rest m' files' (total + removed) k
                              h sum))
                  ]
            ]
      ]

  delete_from_tables-Deleted :
      (now : DateTime) (eui : DevEui) (e : StorageEngine) (tables : List Table)
      (frames : List Frame) (deleted : ℕ)
      → open_paths x (map (λ t. t.path) e.sstables) e.files ≡ ok tables
      → Hold x tables frames
      → Deleted (deleted + count_of eui frames) (delete_from_tables x now eui deleted e).0
  unfolding delete_from_tables
  delete_from_tables-Deleted now eui e tables frames deleted opens held =
      let r = rewrite_tables x now eui tables e.compaction_manager e.files deleted in
      let counted =
        rewrite_tables-Counted now eui tables frames e.compaction_manager e.files deleted _ held
          refl in
      elim (Result-cases r.outcome) [
        | inl (why, bad) ↦ rw (opens, delete_from_tables, bad) tt
        | inr ((new_sstables, n), good) ↦
            rw (opens, delete_from_tables, good)
              (subst (Counted (deleted + count_of eui frames)) good counted)
      ]

  delete_device-Deleted :
      (now : DateTime) (eui : DevEui) (e : StorageEngine) (k : ℕ)
      → Deleted k
          (delete_from_tables x now eui
            (Memtable.delete_device x.bincode e.memtable eui).1
            (record e { memtable = (Memtable.delete_device x.bincode e.memtable eui).0 })).0
      → Deleted k (delete_device x now eui e).0
  unfolding delete_device
  delete_device-Deleted now eui e k h =
      let memtable = (Memtable.delete_device x.bincode e.memtable eui).0 in
      let deleted = (Memtable.delete_device x.bincode e.memtable eui).1 in
      elim (Result-cases
        (delete_from_tables x now eui deleted (record e { memtable = memtable })).0) [
          | inl (why, bad) ↦ rw (bad, delete_device) tt
          | inr (n, good) ↦ rw (good, delete_device) (subst (Deleted k) good h)
        ]

  -- Where the tables open again to tables that hold these frames, a deletion that succeeds returns the
  -- number of frames that the memtable lost, and of the frames of the tables whose EUI is spelled as
  -- the given one, letter case included.
  pub delete_device-count :
      (now : DateTime) (eui : DevEui) (e : StorageEngine) (tables : List Table)
      (frames : List Frame) (n : ℕ)
      → open_paths x (map (λ t. t.path) e.sstables) e.files ≡ ok tables
      → Hold x tables frames
      → (delete_device x now eui e).0 ≡ ok n
      → n ≡ (Memtable.delete_device x.bincode e.memtable eui).1 + count_of eui frames
  delete_device-count now eui e tables frames n opens held h =
      let (memtable, deleted) = Memtable.delete_device x.bincode e.memtable eui in
      subst (Deleted (deleted + count_of eui frames)) h (
        delete_device-Deleted now eui e (deleted + count_of eui frames) (
          delete_from_tables-Deleted now eui (record e { memtable = memtable }) tables frames
            deleted opens held))
