-- ===== src/Engine/Memtable/History.antt =====
-- What the lookups of a memtable return, as functions of the frames that were inserted.
use lo_ra_db.Prelude.{
  ℕ, ◌^◌, ◌<◌, ◌≡◌, refl, sym, ◌∙◌, ap, subst, Bool, true, Option, none, some, List, [], ◌∷◌, map,
  length, last?, filter, All, arith, ◌&&◌, Bool-cases, inl, inr,
}
use lo_ra_db.Prelude.Int.{ℤ, int_ord}
use lo_ra_db.Prelude.Order.{le, ◌≺◌}
use lo_ra_db.Prelude.Assoc
use lo_ra_db.Model.Text.{Text, text_ord}
use lo_ra_db.Model.Lorawan.{DevEui, normalized}
use lo_ra_db.Model.Frames.{Frame, DateTime}
use lo_ra_db.Engine.Bincode.{Bincode}
use lo_ra_db.Engine.Memtable.{Memtable, new, scan_device_range, get_latest}
use lo_ra_db.Engine.Memtable.Keys.{
  MemtableKey, key_ord, cmp_key, range_start, range_end, range_test, in_window-device,
}
use lo_ra_db.Engine.Memtable.Scan.{
  micros, Representable, matches, IsValid, IsEntry, frames, stable_sort, insert_all,
  insert_all-IsValid, new-IsValid, scan-filter,
}

-- From an empty memtable, fewer than 2^64 insertions of frames whose microseconds fit an `i64`
-- leave a memtable whose scan is exactly the stable sort of the history by device and
-- microsecond, cut down to the frames of the device with a time in the window.
pub scan-insert_all :
    (bincode : Bincode) (fs : List Frame) (eui : DevEui) (s e : Option DateTime)
    → All Representable fs
    → length fs < 2 ^ 64
    → scan_device_range (insert_all bincode new fs) eui s e
      ≡ filter (matches eui s e) (stable_sort fs [])
unfolding new frames
scan-insert_all bincode fs eui s e r room =
    let (valid, sorted) =
      insert_all-IsValid bincode fs new new-IsValid r (unfold new in omega arith) in
    scan-filter (insert_all bincode new fs) eui s e valid ∙ ap (filter (matches eui s e)) sorted

last?-map {ℓ κ} :
    {A : Type ℓ} {B : Type κ} (f : A → B) (l : List A)
    → mathlib.Core.Option.map f (last? l) ≡ last? (map f l)
last?-map f [] = refl
last?-map f (x ∷ []) = refl
last?-map f (x ∷ y ∷ l) = last?-map f (y ∷ l)

get_latest-last :
    (m : Memtable) (eui : DevEui) → get_latest m eui ≡ last? (scan_device_range m eui none none)
unfolding get_latest scan_device_range
get_latest-last m eui =
    last?-map {A = MemtableKey × Frame} (λ e. e.1)
      (Assoc.range (range_start eui none) (range_end eui none) m.entries)

-- Times do not fall along the list.
abbrev pub Ascending : List Frame → Type 0
Ascending [] = Unit
Ascending (f ∷ l) = All (λ g. le (micros f) (micros g) ≡ true) l × Ascending l

time_le : (j k : MemtableKey) → j.dev_eui ≡ k.dev_eui → j ≺ k → le j.timestamp k.timestamp ≡ true
unfolding cmp_key
time_le j k same h = ground (arith, text_ord.cmp_refl k.dev_eui)

Ascending-entries :
    (d : Text) (l : List (MemtableKey × Frame))
    → Assoc.IsSorted l
    → All (λ e. (e.0.dev_eui ≡ d) × (e.0.timestamp ≡ micros e.1)) l
    → Ascending (map (λ e. e.1) l)
Ascending-entries d [] s h = tt
Ascending-entries d ((k, f) ∷ l) s h = (below l s.0 h.1, Ascending-entries d l s.1 h.1)
  where
    below :
        (l : List (MemtableKey × Frame))
        → Assoc.Above k l
        → All (λ e. (e.0.dev_eui ≡ d) × (e.0.timestamp ≡ micros e.1)) l
        → All (λ g. le (micros f) (micros g) ≡ true) (map (λ e. e.1) l)
    below [] a h' = tt
    below ((j, g) ∷ l) a h' =
        (rw (← h.0.1, ← h'.0.1) (time_le k j (rw (h.0.0, h'.0.0) refl) a.0), below l a.1 h'.1)

range-of_device :
    (eui : DevEui) (s e : Option DateTime) (n : ℕ) (l : List (MemtableKey × Frame))
    → n < 2 ^ 64
    → All (IsEntry n) l
    → All
        (λ x. (x.0.dev_eui ≡ normalized eui) × (x.0.timestamp ≡ micros x.1))
        (Assoc.range (range_start eui s) (range_end eui e) l)
range-of_device eui s e n [] room h = tt
range-of_device eui s e n ((k, f) ∷ l) room h =
    elim (Bool-cases (le (range_start eui s) k && le k (range_end eui e))) [
      | inl p ↦ rw p ((of_test k f h.0 p, h.0.at_time), range-of_device eui s e n l room h.1)
      | inr p ↦ rw p (range-of_device eui s e n l room h.1)
    ]
  where
    of_test :
        (k : MemtableKey) (f : Frame)
        → IsEntry n (k, f)
        → (le (range_start eui s) k && le k (range_end eui e)) ≡ true
        → k.dev_eui ≡ normalized eui
    of_test k f i p = sym (
        in_window-device eui s e k.dev_eui k.timestamp
          (sym (range_test eui s e k i.representable (omega (arith, i.numbered))) ∙ p))

-- The frames of a scan stand in the order of their times.
pub scan-Ascending :
    (m : Memtable) (eui : DevEui) (s e : Option DateTime)
    → IsValid m
    → Ascending (scan_device_range m eui s e)
unfolding scan_device_range
scan-Ascending m eui s e v =
    Ascending-entries (normalized eui) (Assoc.range (range_start eui s) (range_end eui e) m.entries)
      (Assoc.filter-IsSorted _ m.entries v.sorted)
      (range-of_device eui s e m.sequence m.entries v.room v.keyed)

int_le_refl : (t : ℤ) → le t t ≡ true
int_le_refl t = ground (arith, int_ord.cmp_refl t)

int_le_trans : (s t u : ℤ) → le s t ≡ true → le t u ≡ true → le s u ≡ true
int_le_trans s t u p q = ground arith

All-filter_self {ℓ} : {A : Type ℓ} (p : A → Bool) (l : List A) → All (λ x. p x ≡ true) (filter p l)
All-filter_self p [] = tt
All-filter_self p (x ∷ l) = elim (Bool-cases (p x)) [
  | inl e ↦ rw e (e, All-filter_self p l)
  | inr e ↦ rw e (All-filter_self p l)
]

last?-All {ℓ κ} :
    {A : Type ℓ} (P : A → Type κ) (l : List A) → All P l → (f : A) → last? l ≡ some f → P f
last?-All P [] h f e = cc
last?-All P (x ∷ []) h f e = let q : x ≡ f = cc in subst P q h.0
last?-All P (x ∷ y ∷ l) h f e = last?-All P (y ∷ l) h.1 f e

last?-newest :
    (l : List Frame) (f : Frame)
    → Ascending l
    → last? l ≡ some f
    → All (λ g. le (micros g) (micros f) ≡ true) l
last?-newest [] f a h = tt
last?-newest (g ∷ []) f a h = (ground (arith, int_le_refl (micros g)), tt)
last?-newest (g ∷ g' ∷ l) f a h =
    let rest = last?-newest (g' ∷ l) f a.1 h in
    (int_le_trans (micros g) (micros g') (micros f) a.0.0 rest.0, rest)

last?-filter {ℓ} :
    {A : Type ℓ} (p : A → Bool) (l : List A) (f : A) → last? (filter p l) ≡ some f → p f ≡ true
last?-filter p l f h = last?-All (λ x. p x ≡ true) (filter p l) (All-filter_self p l) f h

-- On a valid memtable, `get_latest` is the last of the device's frames in key order.
pub get_latest-eq :
    (m : Memtable) (eui : DevEui)
    → IsValid m
    → get_latest m eui ≡ last? (filter (matches eui none none) (frames m))
get_latest-eq m eui v = get_latest-last m eui ∙ ap last? (scan-filter m eui none none v)

-- On a valid memtable, a frame that `get_latest` returns belongs to the device, and none of the
-- device's frames in the memtable has a later microsecond.
pub get_latest-newest :
    (m : Memtable) (eui : DevEui) (f : Frame)
    → IsValid m
    → get_latest m eui ≡ some f
    → (matches eui none none f ≡ true)
      × All (λ g. le (micros g) (micros f) ≡ true) (filter (matches eui none none) (frames m))
get_latest-newest m eui f v h = (
  last?-filter (matches eui none none) (frames m) f (sym (get_latest-eq m eui v) ∙ h),
  rw (← scan-filter m eui none none v) (
      last?-newest (scan_device_range m eui none none) f (scan-Ascending m eui none none v)
        (sym (get_latest-last m eui) ∙ h)),
)
