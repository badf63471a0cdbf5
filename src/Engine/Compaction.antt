-- ===== src/Engine/Compaction.antt =====
-- src/engine/compaction.rs. The data directory is a list of named files in no order; a failure of
-- the file system is left out.
pub mod Merge
pub mod Ids
use lo_ra_db.Prelude.{
  ℕ, ◌+◌, ◌%◌, ◌^◌, ◌≡◌, refl, Bool, true, false, ◌&&◌, Option, none, some, List, [], ◌∷◌, map,
  filter, Result, ok, err, ◌>>=◌, ltb, if◌then◌else◌,
}
use lo_ra_db.Prelude.Int.{ℤ}
use lo_ra_db.Prelude.Assoc
use lo_ra_db.Model.Lorawan.{LoraDbError}
use lo_ra_db.Model.Text.{Text}
use lo_ra_db.Model.Frames.{Frame, dev_eui, timestamp}
use lo_ra_db.Engine.Codec.{Formats}
use lo_ra_db.Engine.Bytes.{Bytes}
use lo_ra_db.Engine.Memtable.Keys.{MemtableKey, key_ord, new_key}
use lo_ra_db.Engine.SsTable.{SsTableMetadata, SsTableReader}
use lo_ra_db.Engine.SsTable.Writer.{new, add_all, finish}
use lo_ra_db.Engine.SsTable.Reader.{open_sstable, iter_all}

pub record CompactionManager : Type 0 where
  pub threshold : ℕ
  pub next_sstable_id : ℕ

-- A reader with the name and the bytes of its file.
pub record Table : Type 0 where
  pub path : Text
  pub file : Bytes
  pub reader : SsTableReader

unfoldable pub new_manager : ℕ → CompactionManager
new_manager threshold = record { threshold = threshold; next_sstable_id = 0 }

unfoldable pub should_compact : CompactionManager → ℕ → Bool
should_compact m sstable_count = ltb m.threshold sstable_count

unfoldable pub set_next_sstable_id : ℕ → CompactionManager → CompactionManager
set_next_sstable_id id m = record m { next_sstable_id = id }

unfoldable pub allocate_sstable_id : CompactionManager → ℕ × CompactionManager
allocate_sstable_id m =
    (m.next_sstable_id, record m { next_sstable_id = (m.next_sstable_id + 1) % 2 ^ 64 })

-- The key of a frame in the merge, whose sequence number is always 0.
unfoldable pub merge_key : Frame → MemtableKey
merge_key frame = new_key (dev_eui frame) (timestamp frame) 0

-- The inner loop of `compact`, over the frames of a table.
unfoldable pub merge_frames : List Frame → List (MemtableKey × Frame) → List (MemtableKey × Frame)
unfolding merge_key
merge_frames [] merged_data = merged_data
merge_frames (frame ∷ frames) merged_data =
    merge_frames frames (Assoc.insert (merge_key frame) frame merged_data)

module _ (x : Formats) where
  -- The outer loop, over the tables.
  unfoldable pub merge_tables :
      List Table → List (MemtableKey × Frame) → Result LoraDbError (List (MemtableKey × Frame))
  unfolding merge_frames
  merge_tables [] merged_data = ok merged_data
  merge_tables (t ∷ tables) merged_data = do
    frames ← iter_all x t.file t.reader
    merge_tables tables (merge_frames frames merged_data)

  unfoldable pub write_merged :
      ℕ → ℤ → List (MemtableKey × Frame) → Result LoraDbError (Bytes × SsTableMetadata)
  write_merged new_id now merged_data = do
    writer ← new x new_id
    added ← add_all x writer merged_data
    finish x added now

  -- The new file and its metadata, and the names of the files that it stands for. The id of a merge
  -- whose file is not written is not given back.
  unfoldable pub compact :
      ℤ
      → List Table
      → CompactionManager
      → Result LoraDbError ((Bytes × SsTableMetadata) × List Text) × CompactionManager
  unfolding allocate_sstable_id write_merged
  compact now [] m = (err LoraDbError.storage_error, m)
  compact now (t ∷ tables) m = elim (merge_tables (t ∷ tables) []) [
    | err e ↦ (err e, m)
    | ok merged_data ↦
        let (new_id, m') = allocate_sstable_id m in
        (
          (do
            written ← write_merged new_id now merged_data
            ok (written, map (λ r. r.path) (t ∷ tables))),
          m',
        )
  ]

  -- The loop of `open_all_sstables`: a file that does not open is passed over.
  unfoldable pub open_each : List (Text × Bytes) → ℕ → List Table × ℕ
  open_each [] max_id = ([], max_id)
  open_each ((path, file) ∷ paths) max_id = elim (open_sstable x file) [
    | err e ↦ open_each paths max_id
    | ok reader ↦
        let (readers, last) =
          open_each paths (if ltb max_id reader.id then reader.id else max_id) in
        (record { path = path; file = file; reader = reader } ∷ readers, last)
  ]

  -- `open_all_sstables` on the files that `find_sstables` gives.
  unfoldable pub open_all_sstables :
      List (Text × Bytes) → CompactionManager → List Table × CompactionManager
  unfolding open_each
  open_all_sstables paths m =
      let (readers, max_id) = open_each paths 0 in
      (readers, record m { next_sstable_id = (max_id + 1) % 2 ^ 64 })
