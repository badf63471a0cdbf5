-- ===== src/Engine/Compaction/Ids.antt =====
-- The ids of `open_all_sstables` (src/engine/compaction.rs).
use lo_ra_db.Prelude.{
  ℕ, ◌<◌, ◌≤◌, ◌^◌, List, [], ◌∷◌, All, All-map, arith, ltb, if◌then◌else◌, Result-cases, inl, inr,
  ◌-◌,
}
use lo_ra_db.Model.Text.{Text}
use lo_ra_db.Engine.Codec.{Formats}
use lo_ra_db.Engine.Bytes.{Bytes}
use lo_ra_db.Engine.SsTable.Reader.{open_sstable}
use lo_ra_db.Engine.Compaction.{CompactionManager, open_each, open_all_sstables}

module _ (x : Formats) where
  -- The maximum is at least the first one and the id of each table.
  open_each_bound :
      (paths : List (Text × Bytes)) (first : ℕ)
      → (first ≤ (open_each x paths first).1)
        × All (λ t. t.reader.id ≤ (open_each x paths first).1) (open_each x paths first).0
  unfolding open_each
  open_each_bound [] first = (omega arith, tt)
  open_each_bound ((path, file) ∷ paths) first = elim (Result-cases (open_sstable x file)) [
    | inl (e, p) ↦ rw (p, open_each) (open_each_bound paths first)
    | inr (r, p) ↦
        let n = if ltb first r.id then r.id else first in
        let (low, all) = open_each_bound paths n in
        let from : first ≤ n = ground arith in
        let own : r.id ≤ n = ground arith in
        rw (p, open_each) (omega (arith, low, from), (omega (arith, low, own), all))
  ]

  -- After the tables are opened the next id is above the id of each of them, where the largest id
  -- has a successor in 64 bits.
  pub open_all_sstables-fresh :
      (paths : List (Text × Bytes)) (m : CompactionManager)
      → (open_each x paths 0).1 < 2 ^ 64 - 1
      → All
          (λ t. t.reader.id < (open_all_sstables x paths m).1.next_sstable_id)
          (open_all_sstables x paths m).0
  unfolding open_all_sstables
  open_all_sstables-fresh paths m h =
      All-map (λ t p. omega (arith, h, p)) (open_each x paths 0).0 (open_each_bound paths 0).1
