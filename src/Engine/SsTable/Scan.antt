-- ===== src/Engine/SsTable/Scan.antt =====
-- `iter_all` and `scan` of src/engine/sstable.rs on a table whose file holds its frames.
use lo_ra_db.Prelude.{
  ℕ, ◌≡◌, refl, ◌∙◌, ap, true, false, Option, List, [], ◌∷◌, map, All, arith, ok, inl, inr,
  Bool-cases, ◌<◌, ◌^◌,
}
use lo_ra_db.Prelude.Order.{le}
use lo_ra_db.Prelude.Assoc
use lo_ra_db.Model.Lorawan.{DevEui}
use lo_ra_db.Model.Frames.{Frame, DateTime}
use lo_ra_db.Engine.Codec.{Formats, FormatLaws}
use lo_ra_db.Engine.Bytes.{Bytes}
use lo_ra_db.Engine.Bloom
use lo_ra_db.Engine.Memtable.Keys.{
  MemtableKey, key_ord, InI64, in_window-device, range_test, range_start, range_end,
}
use lo_ra_db.Engine.SsTable.{IndexEntry, SsTableReader}
use lo_ra_db.Engine.SsTable.Reader.{lower_bound, scan_from, scan, might_contain}
use lo_ra_db.Engine.SsTable.Stored.{Stored, read_frame-Stored}
use lo_ra_db.Engine.SsTable.Written.{content}

range-Above :
    (k lo hi : MemtableKey) (l : List (MemtableKey × Frame))
    → le k hi ≡ false
    → Assoc.Above k l
    → Assoc.range lo hi l ≡ []
range-Above k lo hi [] h a = refl
range-Above k lo hi ((j, f) ∷ l) h a =
    ground
      (arith, key_ord.cmp_trans k j hi a.0, key_ord.eq_of_cmp j hi, range-Above k lo hi l h a.1)

module _ (x : Formats) (law : FormatLaws x) where
  scan_from-range :
      (from : ℕ) (file : Bytes) (lo hi : MemtableKey) (slots : List (IndexEntry × Frame))
      → All (λ s. Stored x law from file s.0 s.1) slots
      → Assoc.IsSorted (content x law slots)
      → scan_from x file lo hi (map (λ s. s.0) slots)
        ≡ ok (map (λ e. e.1) (Assoc.range lo hi (content x law slots)))
  unfolding scan_from
  scan_from-range from file lo hi [] h s = refl
  scan_from-range from file lo hi ((e, f) ∷ slots) h s = elim (Bool-cases (le e.key hi)) [
    | inl p ↦ elim (Bool-cases (le lo e.key)) [
      | inl q ↦
          rw
            (
              p,
              q,
              read_frame-Stored x law from file e f h.0,
              scan_from-range from file lo hi slots h.1 s.1,
            )
            refl
      | inr q ↦ rw (p, q, scan_from-range from file lo hi slots h.1 s.1) refl
    ]
    | inr p ↦ elim (Bool-cases (le lo e.key)) [
      | inl q ↦ rw (p, q, range-Above e.key lo hi (content x law slots) p s.0) refl
      | inr q ↦ rw (p, q, range-Above e.key lo hi (content x law slots) p s.0) refl
    ]
  ]

  lower_bound-range :
      (from : ℕ) (file : Bytes) (lo hi : MemtableKey) (slots : List (IndexEntry × Frame))
      → All (λ s. Stored x law from file s.0 s.1) slots
      → Assoc.IsSorted (content x law slots)
      → scan_from x file lo hi (lower_bound x lo (map (λ s. s.0) slots))
        ≡ ok (map (λ e. e.1) (Assoc.range lo hi (content x law slots)))
  unfolding lower_bound
  lower_bound-range from file lo hi [] h s = scan_from-range from file lo hi [] h s
  lower_bound-range from file lo hi ((e, f) ∷ slots) h s = elim (Bool-cases (le lo e.key)) [
    | inl q ↦
        let here : lower_bound x lo (e ∷ map (λ s. s.0) slots) ≡ e ∷ map (λ s. s.0) slots =
          rw q refl in
        ap (scan_from x file lo hi) here ∙ scan_from-range from file lo hi ((e, f) ∷ slots) h s
    | inr q ↦ rw (q, lower_bound) (lower_bound-range from file lo hi slots h.1 s.1)
  ]

  -- Every key of the table is a key of `MemtableKey::new`.
  abbrev pub KeysFit : List (IndexEntry × Frame) → Type 0
  KeysFit = All (λ s. InI64 s.0.key.timestamp × (s.0.key.sequence < 2 ^ 64))

  -- Where the filter has no key of the device, no key is in its range.
  range_absent :
      (t : SsTableReader) (eui : DevEui) (start_time end_time : Option DateTime)
      (slots : List (IndexEntry × Frame))
      → might_contain x t eui ≡ false
      → All (λ s. Bloom.contains x.hash s.0.key.dev_eui t.metadata.bloom_filter ≡ true) slots
      → KeysFit slots
      → Assoc.range (range_start eui start_time) (range_end eui end_time) (content x law slots) ≡ []
  unfolding might_contain
  range_absent t eui start_time end_time [] h m k = refl
  range_absent t eui start_time end_time ((e, f) ∷ slots) h m k = ground (
    arith,
    range_test eui start_time end_time e.key k.0.0 k.0.1,
    in_window-device eui start_time end_time e.key.dev_eui e.key.timestamp,
    ap (λ d. Bloom.contains x.hash d t.metadata.bloom_filter),
    m.0,
    range_absent t eui start_time end_time slots h m.1 k.1,
  )

  -- `scan` reads the frames whose keys are in the range of the device and the times.
  pub scan-range :
      (from : ℕ) (file : Bytes) (t : SsTableReader) (slots : List (IndexEntry × Frame))
      (eui : DevEui) (start_time end_time : Option DateTime)
      → t.index ≡ map (λ s. s.0) slots
      → All (λ s. Stored x law from file s.0 s.1) slots
      → Assoc.IsSorted (content x law slots)
      → All (λ s. Bloom.contains x.hash s.0.key.dev_eui t.metadata.bloom_filter ≡ true) slots
      → KeysFit slots
      → scan x file t eui start_time end_time
        ≡ ok (
            map
              (λ e. e.1)
              (Assoc.range
                (range_start eui start_time)
                (range_end eui end_time)
                (content x law slots)))
  unfolding scan
  scan-range from file t slots eui start_time end_time i h s m k =
      elim (Bool-cases (might_contain x t eui)) [
        | inl p ↦
            rw (p, i)
              (lower_bound-range from file (range_start eui start_time) (range_end eui end_time)
                slots h s)
        | inr p ↦ rw (p, range_absent t eui start_time end_time slots p m k) refl
      ]
