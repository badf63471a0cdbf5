-- ===== src/Storage/Query.antt =====
-- `query` of src/storage/mod.rs: its order, and its parts.
use mathlib.Core.List.{append_assoc}
use lo_ra_db.Prelude.{
  ◌≡◌, ◌≢◌, refl, sym, ap, Bool, true, false, Option, List, [], ◌∷◌, ◌++◌, ok, ◌>>=◌, All, All-map,
  arith, Bool-cases, Result-cases, inl, inr,
}
use lo_ra_db.Prelude.Assoc
use lo_ra_db.Prelude.Int.{int_ord}
use lo_ra_db.Prelude.Order.{le}
use lo_ra_db.Model.Text.{Text, text_ord}
use lo_ra_db.Model.Lorawan.{DevEui}
use lo_ra_db.Model.Frames.{Frame, DateTime, timestamp}
use lo_ra_db.Engine.Codec.{Formats}
use lo_ra_db.Engine.Bytes.{Bytes}
use lo_ra_db.Engine.Memtable
use lo_ra_db.Engine.SsTable.Reader.{scan}
use lo_ra_db.Engine.Compaction.{Table}
use lo_ra_db.Storage.{StorageEngine, file_of, sort_one, sort_by_timestamp, scan_tables, query}

-- `f` is not later than `g`.
abbrev pub not_after : Frame → Frame → Bool
not_after f g = le (timestamp f).nanos (timestamp g).nanos

-- No frame stands behind a later one.
abbrev pub Ordered : List Frame → Type 0
Ordered [] = Unit
Ordered (f ∷ l) = All (λ g. not_after f g ≡ true) l × Ordered l

not_after_trans :
    (f g h : Frame) → not_after f g ≡ true → not_after g h ≡ true → not_after f h ≡ true
not_after_trans f g h p q = ground (
  arith,
  int_ord.cmp_trans (timestamp f).nanos (timestamp g).nanos (timestamp h).nanos,
  int_ord.eq_of_cmp (timestamp f).nanos (timestamp g).nanos,
  int_ord.eq_of_cmp (timestamp g).nanos (timestamp h).nanos,
)

not_after_total : (f g : Frame) → not_after f g ≡ false → not_after g f ≡ true
not_after_total f g p = ground (arith, int_ord.cmp-reverse (timestamp f).nanos (timestamp g).nanos)

All-sort_one :
    (e f : Frame) (l : List Frame)
    → not_after e f ≡ true
    → All (λ g. not_after e g ≡ true) l
    → All (λ g. not_after e g ≡ true) (sort_one f l)
unfolding sort_one
All-sort_one e f [] p h = (p, tt)
All-sort_one e f (g ∷ l) p h = elim (Bool-cases (not_after f g)) [
  | inl q ↦ rw (q, sort_one) (p, h)
  | inr q ↦ rw (q, sort_one) (h.0, All-sort_one e f l p h.1)
]

sort_one-Ordered : (f : Frame) (l : List Frame) → Ordered l → Ordered (sort_one f l)
unfolding sort_one
sort_one-Ordered f [] h = (tt, tt)
sort_one-Ordered f (g ∷ l) h = elim (Bool-cases (not_after f g)) [
  | inl q ↦ rw (q, sort_one) ((q, All-map (λ i r. not_after_trans f g i q r) l h.0), h)
  | inr q ↦
      rw (q, sort_one) (All-sort_one g f l (not_after_total f g q) h.0, sort_one-Ordered f l h.1)
]

pub sort_by_timestamp-Ordered : (l : List Frame) → Ordered (sort_by_timestamp l)
unfolding sort_by_timestamp
sort_by_timestamp-Ordered [] = tt
sort_by_timestamp-Ordered (f ∷ l) =
    sort_one-Ordered f (sort_by_timestamp l) (sort_by_timestamp-Ordered l)

module _ (x : Formats) where
  -- A table behind the others adds its frames behind theirs.
  scan_tables-append :
      (files : List (Text × Bytes)) (tables : List Table) (t : Table) (eui : DevEui)
      (s e : Option DateTime) (more : List Frame)
      → scan x (file_of files t.path) t.reader eui s e ≡ ok more
      → scan_tables x files (tables ++ t ∷ []) eui s e
        ≡ (scan_tables x files tables eui s e >>= λ found. ok (found ++ more))
  unfolding scan_tables
  scan_tables-append files [] t eui s e more p =
      rw p (ap (λ (l : List Frame). ok l) (mathlib.Core.List.append-nil more))
  scan_tables-append files (u ∷ tables) t eui s e more p =
      rw (scan_tables-append files tables t eui s e more p)
        (elim (Result-cases (scan x (file_of files u.path) u.reader eui s e)) [
          | inl (w, q) ↦ rw q refl
          | inr (frames, q) ↦ elim (Result-cases (scan_tables x files tables eui s e)) [
            | inl (w, r) ↦ rw (q, r) refl
            | inr (found, r) ↦
                rw (q, r) (ap (λ (l : List Frame). ok l) (sym (append_assoc frames found more)))
          ]
        ])

  -- A new file under another path changes nothing in the tables.
  scan_tables-insert :
      (files : List (Text × Bytes)) (path : Text) (file : Bytes) (tables : List Table)
      (eui : DevEui) (s e : Option DateTime)
      → Assoc.IsSorted files
      → All (λ t. path ≢ t.path) tables
      → scan_tables x (Assoc.insert path file files) tables eui s e
        ≡ scan_tables x files tables eui s e
  unfolding scan_tables file_of
  scan_tables-insert files path file [] eui s e sorted h = refl
  scan_tables-insert files path file (t ∷ tables) eui s e sorted h =
      rw
        (
          Assoc.get-insert_ne path t.path file files sorted h.0,
          scan_tables-insert files path file tables eui s e sorted h.1,
        )
        refl

  -- The tables with a new one behind them, whose file is under a new path.
  pub scan_tables-new :
      (files : List (Text × Bytes)) (tables : List Table) (t : Table) (eui : DevEui)
      (s e : Option DateTime) (found more : List Frame)
      → Assoc.IsSorted files
      → All (λ u. t.path ≢ u.path) tables
      → scan_tables x files tables eui s e ≡ ok found
      → scan x t.file t.reader eui s e ≡ ok more
      → scan_tables x (Assoc.insert t.path t.file files) (tables ++ t ∷ []) eui s e
        ≡ ok (found ++ more)
  unfolding file_of
  scan_tables-new files tables t eui s e found more sorted apart h p =
      let new = Assoc.insert t.path t.file files in
      let reads : scan x (file_of new t.path) t.reader eui s e ≡ ok more =
        rw (Assoc.get-insert_self t.path t.file files) p in
      rw
        (
          scan_tables-append new tables t eui s e more reads,
          scan_tables-insert files t.path t.file tables eui s e sorted apart,
          h,
        )
        refl

  -- Where the tables can be read, a query succeeds, and what it returns is in the order of the times,
  -- the oldest first.
  pub query-Ordered :
      (e : StorageEngine) (eui : DevEui) (start_time end_time : Option DateTime)
      (found : List Frame)
      → scan_tables x e.files e.sstables eui start_time end_time ≡ ok found
      → (frames : List Frame) × (query x e eui start_time end_time ≡ ok frames) × Ordered frames
  unfolding query
  query-Ordered e eui start_time end_time found h =
      let frames = Memtable.scan_device_range e.memtable eui start_time end_time ++ found in
      (sort_by_timestamp frames, rw h refl, sort_by_timestamp-Ordered frames)
