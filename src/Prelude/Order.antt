-- ===== src/Prelude/Order.antt =====
-- The trait `Ord`: a comparison with the laws that a total order asks of it.
use Prim.Native.Nat.{ℕ, compare, Ordering}
use Prim.Native.Nat.Ordering.{lt, eq, gt}
use mathlib.Core.Path.{◌≡◌, refl, ap}
use mathlib.Core.Logic.{◌⊎◌, inl, inr}
use mathlib.Core.Bool.{Bool, true, false}
use mathlib.Core.List.{List, [], ◌∷◌}
use native.Mathlib.Omega.{arith}

-- `Ordering::reverse`
abbrev pub reverse : Ordering → Ordering
reverse lt = gt
reverse eq = eq
reverse gt = lt

-- `Ordering::then`
abbrev pub then_with : Ordering → Ordering → Ordering
then_with eq o = o
then_with lt o = lt
then_with gt o = gt

pub record Ord {ℓ} (K : Type ℓ) : Type ℓ where
  pub cmp : K → K → Ordering
  pub cmp_refl : (a : K) → cmp a a ≡ eq
  pub eq_of_cmp : (a b : K) → cmp a b ≡ eq → a ≡ b
  pub cmp-reverse : (a b : K) → cmp b a ≡ reverse (cmp a b)
  pub cmp_trans : (a b c : K) → cmp a b ≡ lt → cmp b c ≡ lt → cmp a c ≡ lt

module _ {ℓ} {K : Type ℓ} ⦃o : Ord K⦄ where
  -- `a <= b`
  abbrev pub le : K → K → Bool
  le a b = elim (o.cmp a b) [ gt ↦ false | _ ↦ true ]

  infix 50 ◌≺◌
  abbrev pub ◌≺◌ : K → K → Type 0
  a ≺ b = o.cmp a b ≡ lt

module _ {ℓ} {K : Type ℓ} ⦃o : Ord K⦄ where
  pub lt_of_gt : (j k : K) → o.cmp k j ≡ gt → j ≺ k
  lt_of_gt j k h = cc (o.cmp-reverse k j, ap reverse h)

  pub gt_of_lt : (j k : K) → j ≺ k → o.cmp k j ≡ gt
  gt_of_lt j k h = cc (o.cmp-reverse j k, ap reverse h)

pub Ordering-cases : (c : Ordering) → (c ≡ lt) ⊎ (c ≡ eq) ⊎ (c ≡ gt)
Ordering-cases lt = inl refl
Ordering-cases eq = inr (inl refl)
Ordering-cases gt = inr (inr refl)

pub compare-reverse : (a b : ℕ) → compare b a ≡ reverse (compare a b)
compare-reverse a b = ground arith

pub compare_refl : (a : ℕ) → compare a a ≡ eq
compare_refl a = ground arith

pub eq_of_compare : (a b : ℕ) → compare a b ≡ eq → a ≡ b
eq_of_compare a b h = ground arith

pub compare_trans : (a b c : ℕ) → compare a b ≡ lt → compare b c ≡ lt → compare a c ≡ lt
compare_trans a b c p q = ground arith

instance abbrev pub nat_ord : Ord ℕ
nat_ord = record {
  cmp = compare;
  cmp_refl = compare_refl;
  eq_of_cmp = eq_of_compare;
  cmp-reverse = compare-reverse;
  cmp_trans = compare_trans;
}

-- Sequences compare by their first difference, and a prefix comes first.
module _ {ℓ} {K : Type ℓ} ⦃o : Ord K⦄ where
  unfoldable pub cmp_list : List K → List K → Ordering
  cmp_list [] [] = eq
  cmp_list [] (y ∷ ys) = lt
  cmp_list (x ∷ xs) [] = gt
  cmp_list (x ∷ xs) (y ∷ ys) = then_with (o.cmp x y) (cmp_list xs ys)

  pub cmp_list_refl : (xs : List K) → cmp_list xs xs ≡ eq
  unfolding cmp_list
  cmp_list_refl [] = refl
  cmp_list_refl (x ∷ xs) = ground (arith, o.cmp_refl x, cmp_list_refl xs)

  pub eq_of_cmp_list : (xs ys : List K) → cmp_list xs ys ≡ eq → xs ≡ ys
  unfolding cmp_list
  eq_of_cmp_list [] [] h = refl
  eq_of_cmp_list [] (y ∷ ys) h = cc
  eq_of_cmp_list (x ∷ xs) [] h = cc
  eq_of_cmp_list (x ∷ xs) (y ∷ ys) h = ground (arith, o.eq_of_cmp x y, eq_of_cmp_list xs ys)

  pub cmp_list-reverse : (xs ys : List K) → cmp_list ys xs ≡ reverse (cmp_list xs ys)
  unfolding cmp_list
  cmp_list-reverse [] [] = refl
  cmp_list-reverse [] (y ∷ ys) = refl
  cmp_list-reverse (x ∷ xs) [] = refl
  cmp_list-reverse (x ∷ xs) (y ∷ ys) = ground (arith, o.cmp-reverse x y, cmp_list-reverse xs ys)

  pub cmp_list_trans :
      (xs ys zs : List K) → cmp_list xs ys ≡ lt → cmp_list ys zs ≡ lt → cmp_list xs zs ≡ lt
  unfolding cmp_list
  cmp_list_trans [] [] zs p q = cc
  cmp_list_trans [] (y ∷ ys) [] p q = cc
  cmp_list_trans [] (y ∷ ys) (z ∷ zs) p q = refl
  cmp_list_trans (x ∷ xs) [] zs p q = cc
  cmp_list_trans (x ∷ xs) (y ∷ ys) [] p q = cc
  cmp_list_trans (x ∷ xs) (y ∷ ys) (z ∷ zs) p q = ground (
    arith,
    o.eq_of_cmp x y,
    o.eq_of_cmp y z,
    o.cmp_refl x,
    o.cmp_trans x y z,
    cmp_list_trans xs ys zs,
  )

  instance abbrev pub list_ord : Ord (List K)
  list_ord = record {
    cmp = cmp_list;
    cmp_refl = cmp_list_refl;
    eq_of_cmp = eq_of_cmp_list;
    cmp-reverse = cmp_list-reverse;
    cmp_trans = cmp_list_trans;
  }
