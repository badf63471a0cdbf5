-- ===== src/Engine/Compaction/Merge.antt =====
-- The merge of `compact` (src/engine/compaction.rs).
use lo_ra_db.Prelude.{
  ◌+◌, ◌<◌, ◌%◌, ◌^◌, ◌≡◌, refl, sym, subst, ◌∙◌, ap, Bool, true, false, Option, some, List, [],
  ◌∷◌, ◌++◌, map, filter, length, All, arith, ok, if◌then◌else◌, Ordering,
}
use lo_ra_db.Prelude.Int.{ℤ}
use lo_ra_db.Prelude.Assoc
use lo_ra_db.Model.Frames.{Frame}
use lo_ra_db.Engine.Codec.{Formats, FormatLaws}
use lo_ra_db.Engine.Bytes.{Bytes}
use lo_ra_db.Engine.Memtable.Keys.{MemtableKey, key_ord, InI64, cmp_key}
use lo_ra_db.Engine.SsTable.{SsTableMetadata, SsTableWriter}
use lo_ra_db.Engine.SsTable.Reader.{iter_all}
use lo_ra_db.Engine.SsTable.Written.{Writable}
use lo_ra_db.Engine.SsTable.Table.{Reads, KeyFits, reads-add_all}
use lo_ra_db.Engine.Compaction.{
  CompactionManager, Table, merge_key, merge_frames, merge_tables, write_merged, compact,
  allocate_sstable_id,
}

unfoldable pub is_key : MemtableKey → MemtableKey → Bool
is_key j k = elim (cmp_key j k) [ Ordering.eq ↦ true | _ ↦ false ]

-- The last of the frames, or else the given one.
abbrev pub last_or : Option Frame → List Frame → Option Frame
last_or before [] = before
last_or before (f ∷ frames) = last_or (some f) frames

-- Merging keeps the map ascending.
pub merge_frames-IsSorted :
    (frames : List Frame) (merged : List (MemtableKey × Frame))
    → Assoc.IsSorted merged
    → Assoc.IsSorted (merge_frames frames merged)
unfolding merge_frames
merge_frames-IsSorted [] merged s = s
merge_frames-IsSorted (f ∷ frames) merged s =
    merge_frames-IsSorted frames (Assoc.insert (merge_key f) f merged)
      (Assoc.insert-IsSorted (merge_key f) f merged s)

get-insert_if :
    (k : MemtableKey) (f : Frame) (merged : List (MemtableKey × Frame)) (frames : List Frame)
    → Assoc.IsSorted merged
    → last_or (Assoc.get k (Assoc.insert (merge_key f) f merged)) frames
      ≡ last_or (Assoc.get k merged) (if is_key k (merge_key f) then f ∷ frames else frames)
unfolding is_key
get-insert_if k f merged frames s = ground (
  arith,
  key_ord.eq_of_cmp k (merge_key f),
  key_ord.cmp_refl k,
  Assoc.get-insert_self (merge_key f) f merged,
  Assoc.get-insert_ne (merge_key f) k f merged s,
)

-- Under each key the merged map has the last of the frames with that key, and the old frame where
-- there is none.
pub get-merge_frames :
    (k : MemtableKey) (frames : List Frame) (merged : List (MemtableKey × Frame))
    → Assoc.IsSorted merged
    → Assoc.get k (merge_frames frames merged)
      ≡ last_or (Assoc.get k merged) (filter (λ f. is_key k (merge_key f)) frames)
unfolding merge_frames
get-merge_frames k [] merged s = refl
get-merge_frames k (f ∷ frames) merged s =
    get-merge_frames k frames (Assoc.insert (merge_key f) f merged)
      (Assoc.insert-IsSorted (merge_key f) f merged s)
    ∙ get-insert_if k f merged (filter (λ f. is_key k (merge_key f)) frames) s

module _ (x : Formats) where
  -- What the tables hold, one behind the other.
  pub data Hold : List Table → List Frame → Type 0 where
    nothing : Hold [] []
    table :
        {t : Table} {tables : List Table} (frames rest : List Frame)
        → iter_all x t.file t.reader ≡ ok frames
        → Hold tables rest
        → Hold (t ∷ tables) (frames ++ rest)

  merge_frames-append :
      (frames rest : List Frame) (merged : List (MemtableKey × Frame))
      → merge_frames (frames ++ rest) merged ≡ merge_frames rest (merge_frames frames merged)
  unfolding merge_frames
  merge_frames-append [] rest merged = refl
  merge_frames-append (f ∷ frames) rest merged =
      merge_frames-append frames rest (Assoc.insert (merge_key f) f merged)

  merge_tables-Hold :
      {tables : List Table} {frames : List Frame} (merged : List (MemtableKey × Frame))
      → Hold tables frames
      → merge_tables x tables merged ≡ ok (merge_frames frames merged)
  unfolding merge_tables merge_frames
  merge_tables-Hold merged nothing = refl
  merge_tables-Hold merged (table frames rest e h) = rw e (
      merge_tables-Hold (merge_frames frames merged) h
      ∙ ap ok (sym (merge_frames-append frames rest merged)))

  compact-merged :
      (now : ℤ) (t : Table) (tables : List Table) (merged : List (MemtableKey × Frame))
      (m : CompactionManager) (written : Bytes × SsTableMetadata)
      → merge_tables x (t ∷ tables) [] ≡ ok merged
      → write_merged x m.next_sstable_id now merged ≡ ok written
      → compact x now (t ∷ tables) m ≡ (
        ok (written, map (λ t. t.path) (t ∷ tables)),
        record m { next_sstable_id = (m.next_sstable_id + 1) % 2 ^ 64 },
      )
  unfolding compact allocate_sstable_id
  compact-merged now t tables merged m written h e = rw (h, compact, e) refl

  -- Compacting tables, at least one, that hold frames gives a table under the next id, and the names
  -- of the old files, and the next id is used up: the new table's file opens, `iter_all` of it gives
  -- the merged frames in the order of their keys, and `scan` those of a device in a window of times.
  -- The merged map is not empty, has fewer than 2^31 entries, and fits the formats and the fields of
  -- the file, and its frames read back as they were serialised.
  pub compact-reads :
      (law : FormatLaws x) (now : ℤ) (t : Table) (tables : List Table) (frames : List Frame)
      (k : MemtableKey) (f : Frame) (entries : List (MemtableKey × Frame)) (m : CompactionManager)
      → Hold (t ∷ tables) frames
      → merge_frames frames [] ≡ (k, f) ∷ entries
      → All (λ e. Writable x law e.0 e.1) ((k, f) ∷ entries)
      → All KeyFits ((k, f) ∷ entries)
      → length ((k, f) ∷ entries) < 2 ^ 31
      → m.next_sstable_id < 2 ^ 64
      → InI64 now
      → (w : SsTableWriter) × (r : Reads x law w now ((k, f) ∷ entries)) × (compact x now
            (t ∷ tables)
            m
          ≡ (
            ok ((r.file, r.metadata), map (λ t. t.path) (t ∷ tables)),
            record m { next_sstable_id = (m.next_sstable_id + 1) % 2 ^ 64 },
          ))
        × (r.reader.id ≡ m.next_sstable_id)
  unfolding write_merged
  compact-reads law now t tables frames k f entries m h e some_w fit few low i =
      let sorted : Assoc.IsSorted ((k, f) ∷ entries) =
        subst Assoc.IsSorted e (merge_frames-IsSorted frames [] tt) in
      let (w, w', made, added, r, named) =
        reads-add_all x law m.next_sstable_id now k f entries sorted some_w fit few low i in
      (
        w',
        r,
        compact-merged now t tables ((k, f) ∷ entries) m (r.file, r.metadata)
            (merge_tables-Hold [] h ∙ ap ok e) (rw (made, added, r.finishes) refl),
        r.same_id ∙ named,
      )
