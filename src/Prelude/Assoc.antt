-- ===== src/Prelude/Assoc.antt =====
-- Ordered maps (`BTreeMap`, `SkipMap`) as association lists that ascend by key.
use Prim.Native.Nat.Ordering.{lt, eq, gt}
use mathlib.Core.Path.{◌≡◌, refl, sym, ◌∙◌}
use mathlib.Core.Bool.{Bool, ◌&&◌}
use mathlib.Core.Option.{Option, none, some, some-injective}
use mathlib.Core.List.{List, [], ◌∷◌, map}
use native.Mathlib.Omega.{arith}
use mathlib.Core.Logic.{◌≢◌, inl, inr}
use lo_ra_db.Prelude.Tests.{Bool-cases}
use lo_ra_db.Prelude.Lists.{All, All-filter, filter}
use lo_ra_db.Prelude.Order.{Ord, le, ◌≺◌, lt_of_gt, gt_of_lt, Ordering-cases}

module _ {ℓ κ} {K : Type ℓ} {V : Type κ} ⦃o : Ord K⦄ where
  -- A value already under the key is replaced.
  unfoldable pub insert : K → V → List (K × V) → List (K × V)
  insert k v [] = (k, v) ∷ []
  insert k v ((j, w) ∷ l) = elim (o.cmp k j) [
    | lt ↦ (k, v) ∷ (j, w) ∷ l
    | eq ↦ (k, v) ∷ l
    | gt ↦ (j, w) ∷ insert k v l
  ]

  unfoldable pub remove : K → List (K × V) → List (K × V)
  remove k [] = []
  remove k ((j, w) ∷ l) = elim (o.cmp k j) [ lt ↦ (j, w) ∷ l | eq ↦ l | gt ↦ (j, w) ∷ remove k l ]

  unfoldable pub get : K → List (K × V) → Option V
  get k [] = none
  get k ((j, w) ∷ l) = elim (o.cmp k j) [ lt ↦ none | eq ↦ some w | gt ↦ get k l ]

  -- `range(lo..=hi)`
  abbrev pub range : K → K → List (K × V) → List (K × V)
  range lo hi = filter (λ e. le lo e.0 && le e.0 hi)

  -- Every key of the map is above `k`.
  abbrev pub Above : K → List (K × V) → Type 0
  Above k = All (λ e. k ≺ e.0)

  abbrev pub IsSorted : List (K × V) → Type 0
  IsSorted [] = Unit
  IsSorted (e ∷ l) = Above e.0 l × IsSorted l

  pub Above-trans : (j k : K) → j ≺ k → (l : List (K × V)) → Above k l → Above j l
  Above-trans j k p [] h = tt
  Above-trans j k p ((i, v) ∷ l) h = (o.cmp_trans j k i p h.0, Above-trans j k p l h.1)

  Above-insert : (j k : K) (v : V) (l : List (K × V)) → j ≺ k → Above j l → Above j (insert k v l)
  unfolding insert
  Above-insert j k v [] p h = (p, tt)
  Above-insert j k v ((i, w) ∷ l) p h = ground (arith, Above-insert j k v l p h.1)

  pub insert-IsSorted : (k : K) (v : V) (l : List (K × V)) → IsSorted l → IsSorted (insert k v l)
  unfolding insert
  insert-IsSorted k v [] h = (tt, tt)
  insert-IsSorted k v ((j, w) ∷ l) h = elim (Ordering-cases (o.cmp k j)) [
    | inl p ↦ rw (p, insert) ((p, Above-trans k j p l h.0), h)
    | inr (inl p) ↦ rw (p, insert) (rw (o.eq_of_cmp k j p) h)
    | inr (inr p) ↦
        rw (p, insert) (Above-insert j k v l (lt_of_gt j k p) h.0, insert-IsSorted k v l h.1)
  ]

  pub Above-filter :
      (k : K) (p : K × V → Bool) (l : List (K × V)) → Above k l → Above k (filter p l)
  Above-filter k = All-filter (λ e. k ≺ e.0)

  pub filter-IsSorted : (p : K × V → Bool) (l : List (K × V)) → IsSorted l → IsSorted (filter p l)
  filter-IsSorted p [] h = tt
  filter-IsSorted p (e ∷ l) h = elim (Bool-cases (p e)) [
    | inl q ↦ rw q (Above-filter e.0 p l h.0, filter-IsSorted p l h.1)
    | inr q ↦ rw q (filter-IsSorted p l h.1)
  ]

  -- What holds of the old entries and of the new one holds of all.
  pub All-insert {μ} :
      (P : K × V → Type μ) (k : K) (v : V) (l : List (K × V))
      → P (k, v)
      → All P l
      → All P (insert k v l)
  unfolding insert
  All-insert P k v [] p h = (p, tt)
  All-insert P k v ((j, w) ∷ l) p h = elim (Ordering-cases (o.cmp k j)) [
    | inl q ↦ rw (q, insert) (p, h)
    | inr (inl q) ↦ rw (q, insert) (p, h.1)
    | inr (inr q) ↦ rw (q, insert) (h.0, All-insert P k v l p h.1)
  ]

  pub All-get {μ} :
      (P : K × V → Type μ) (k : K) (v : V) (l : List (K × V))
      → get k l ≡ some v
      → All P l
      → P (k, v)
  unfolding get
  All-get P k v [] e h = cc
  All-get P k v ((j, w) ∷ l) e h = elim (Ordering-cases (o.cmp k j)) [
    | inl q ↦ let below : get k ((j, w) ∷ l) ≡ none = rw (q, get) refl in cc (e, below)
    | inr (inl q) ↦
        let same : get k ((j, w) ∷ l) ≡ some w = rw (q, get) refl in
        rw (o.eq_of_cmp k j q, some-injective _ _ (sym e ∙ same)) h.0
    | inr (inr q) ↦
        let past : get k ((j, w) ∷ l) ≡ get k l = rw (q, get) refl in
        All-get P k v l (sym past ∙ e) h.1
  ]

  -- A value that is not at the first key is behind it.
  pub get_behind :
      (k j : K) (v w : V) (l : List (K × V))
      → k ≢ j
      → get k ((j, w) ∷ l) ≡ some v
      → get k l ≡ some v
  unfolding get
  get_behind k j v w l h e = ground (arith, o.eq_of_cmp k j)

  get_of_Above : (k : K) (l : List (K × V)) → Above k l → get k l ≡ none
  unfolding get
  get_of_Above k [] h = refl
  get_of_Above k ((j, w) ∷ l) h = rw (h.0, get)

  get_below : (j i : K) (l : List (K × V)) → Above i l → j ≺ i → get j l ≡ none
  get_below j i l h p = get_of_Above j l (Above-trans j i p l h)

  pub get-insert_self : (k : K) (v : V) (l : List (K × V)) → get k (insert k v l) ≡ some v
  unfolding get insert
  get-insert_self k v [] = ground (arith, o.cmp_refl k)
  get-insert_self k v ((j, w) ∷ l) = ground (arith, o.cmp_refl k, get-insert_self k v l)

  pub get-insert_ne :
      (k j : K) (v : V) (l : List (K × V)) → IsSorted l → k ≢ j → get j (insert k v l) ≡ get j l
  unfolding get insert
  get-insert_ne k j v [] s h = ground (arith, o.eq_of_cmp j k)
  get-insert_ne k j v ((i, w) ∷ l) s h =
      ground
        (arith, o.eq_of_cmp j k, o.eq_of_cmp k i, o.cmp_trans j k i, get-insert_ne k j v l s.1 h)

  pub Above-remove : (j k : K) (l : List (K × V)) → Above j l → Above j (remove k l)
  unfolding remove
  Above-remove j k [] h = tt
  Above-remove j k ((i, w) ∷ l) h = ground (arith, Above-remove j k l h.1)

  pub remove-IsSorted : (k : K) (l : List (K × V)) → IsSorted l → IsSorted (remove k l)
  unfolding remove
  remove-IsSorted k [] h = tt
  remove-IsSorted k ((j, w) ∷ l) h = ground (arith, remove-IsSorted k l h.1, Above-remove j k l h.0)

  pub get-remove_self : (k : K) (l : List (K × V)) → IsSorted l → get k (remove k l) ≡ none
  unfolding get remove
  get-remove_self k [] s = refl
  get-remove_self k ((j, w) ∷ l) s =
      ground (arith, o.eq_of_cmp k j, get_of_Above k l, get-remove_self k l s.1)

  pub get-remove_ne :
      (k j : K) (l : List (K × V)) → IsSorted l → k ≢ j → get j (remove k l) ≡ get j l
  unfolding get remove
  get-remove_ne k j [] s h = refl
  get-remove_ne k j ((i, w) ∷ l) s h =
      ground
        (arith, o.eq_of_cmp k i, o.eq_of_cmp j i, get_below j i l s.0, get-remove_ne k j l s.1 h)

  -- An entry below the key is passed over, and the first entry is found under its own key.
  pub get_past : (j k : K) (w : V) (l : List (K × V)) → k ≺ j → get j ((k, w) ∷ l) ≡ get j l
  unfolding get
  get_past j k w l h = ground (arith, gt_of_lt k j)

  pub remove_past :
      (j k : K) (w : V) (l : List (K × V)) → k ≺ j → remove j ((k, w) ∷ l) ≡ (k, w) ∷ remove j l
  unfolding remove
  remove_past j k w l h = ground (arith, gt_of_lt k j)

  pub get_head : (k : K) (w : V) (l : List (K × V)) → get k ((k, w) ∷ l) ≡ some w
  unfolding get
  get_head k w l = ground (arith, o.cmp_refl k)

  pub remove_head : (k : K) (w : V) (l : List (K × V)) → remove k ((k, w) ∷ l) ≡ l
  unfolding remove
  remove_head k w l = ground (arith, o.cmp_refl k)

  pub All-keys : (k : K) (l : List (K × V)) → Above k l → All (λ j. k ≺ j) (map (λ e. e.0) l)
  All-keys k [] h = tt
  All-keys k (e ∷ l) h = (h.0, All-keys k l h.1)
