-- ===== src/Prelude/Lists.antt =====
-- Lists measured by native numbers, and selected by Boolean tests.
use Prim.Native.Nat.{ℕ, zero, suc, ◌+◌, ◌-◌, ◌≤◌, ◌<◌}
use mathlib.Core.Path.{◌≡◌, refl, sym, ap, ◌∙◌}
use mathlib.Core.Logic.{◌⊎◌, inl, inr}
use mathlib.Core.Bool.{Bool, true, ◌&&◌}
use mathlib.Core.List.{List, [], ◌∷◌, ◌++◌}
use mathlib.Core.Option.{Option, none, some}
use native.Mathlib.Omega.{arith}
use lo_ra_db.Prelude.Tests.{if◌then◌else◌, Bool-cases}

module _ {ℓ} {A : Type ℓ} where
  abbrev pub length : List A → ℕ
  length [] = 0
  length (x ∷ xs) = suc (length xs)

  abbrev pub take : ℕ → List A → List A
  take zero xs = []
  take (suc n) [] = []
  take (suc n) (x ∷ xs) = x ∷ take n xs

  abbrev pub drop : ℕ → List A → List A
  drop zero xs = xs
  drop (suc n) [] = []
  drop (suc n) (x ∷ xs) = drop n xs

  abbrev pub replicate : ℕ → A → List A
  replicate zero a = []
  replicate (suc n) a = a ∷ replicate n a

  pub length-append : (xs ys : List A) → length (xs ++ ys) ≡ length xs + length ys
  length-append [] ys = omega arith
  length-append (x ∷ xs) ys = omega (arith, length-append xs ys)

  abbrev pub last? : List A → Option A
  last? [] = none
  last? (x ∷ []) = some x
  last? (x ∷ y ∷ l) = last? (y ∷ l)

  abbrev pub get_elem? : List A → ℕ → Option A
  get_elem? [] i = none
  get_elem? (x ∷ xs) zero = some x
  get_elem? (x ∷ xs) (suc i) = get_elem? xs i

  -- A write out of bounds changes nothing.
  abbrev pub set : List A → ℕ → A → List A
  set [] i v = []
  set (x ∷ xs) zero v = v ∷ xs
  set (x ∷ xs) (suc i) v = x ∷ set xs i v

  pub last?-snoc : (l : List A) (x : A) → last? (l ++ x ∷ []) ≡ some x
  last?-snoc [] x = refl
  last?-snoc (y ∷ []) x = refl
  last?-snoc (y ∷ z ∷ l) x = last?-snoc (z ∷ l) x

  -- `iter().filter(p).collect()`
  abbrev pub filter : (A → Bool) → List A → List A
  filter p [] = []
  filter p (x ∷ xs) = if p x then x ∷ filter p xs else filter p xs

  abbrev pub all : (A → Bool) → List A → Bool
  all p [] = true
  all p (x ∷ xs) = p x && all p xs

  -- Every element satisfies `P`; it computes to a tuple.
  abbrev pub All {κ} : (A → Type κ) → List A → Type κ
  All P [] = Unit
  All P (x ∷ xs) = P x × All P xs

  pub filter-append :
      (p : A → Bool) (xs ys : List A) → filter p (xs ++ ys) ≡ filter p xs ++ filter p ys
  filter-append p [] ys = refl
  filter-append p (x ∷ xs) ys = ground (arith, filter-append p xs ys)

  pub length-filter-le : (p : A → Bool) (xs : List A) → length (filter p xs) ≤ length xs
  length-filter-le p [] = omega arith
  length-filter-le p (x ∷ xs) = ground (arith, length-filter-le p xs)

  pub take-append : (xs ys : List A) → take (length xs) (xs ++ ys) ≡ xs
  take-append [] ys = refl
  take-append (x ∷ xs) ys = ap (◌∷◌ x) (take-append xs ys)

  pub drop-append : (xs ys : List A) → drop (length xs) (xs ++ ys) ≡ ys
  drop-append [] ys = refl
  drop-append (x ∷ xs) ys = drop-append xs ys

module _ {ℓ} {A : Type ℓ} where
  -- A prefix of a concatenation ends in its first part, or goes through it.
  pub take-append_within : (n : ℕ) (xs ys : List A) → n < length xs → length (take n (xs ++ ys)) ≡ n
  take-append_within zero xs ys h = refl
  take-append_within (suc n) [] ys h = absurd (omega arith)
  take-append_within (suc n) (x ∷ xs) ys h = ap suc (take-append_within n xs ys (omega arith))

  pub take-append_through :
      (n : ℕ) (xs ys : List A) → length xs ≤ n → take n (xs ++ ys) ≡ xs ++ take (n - length xs) ys
  take-append_through n [] ys h = ap (λ k. take k ys) (omega arith)
  take-append_through zero (x ∷ xs) ys h = absurd (omega arith)
  take-append_through (suc n) (x ∷ xs) ys h =
      ap (◌∷◌ x)
        (take-append_through n xs ys (omega arith) ∙ ap (λ k. xs ++ take k ys) (omega arith))

  pub length-take-le : (n : ℕ) (xs : List A) → length (take n xs) ≤ n
  length-take-le zero xs = omega arith
  length-take-le (suc n) [] = omega arith
  length-take-le (suc n) (x ∷ xs) = omega (arith, length-take-le n xs)

  pub length-drop : (n : ℕ) (xs : List A) → length (drop n xs) ≡ length xs - n
  length-drop zero xs = omega arith
  length-drop (suc n) [] = omega arith
  length-drop (suc n) (x ∷ xs) = omega (arith, length-drop n xs)

module _ {ℓ} {A : Type ℓ} where
  pub drop-append_within :
      (n : ℕ) (xs ys : List A) → n ≤ length xs → drop n (xs ++ ys) ≡ drop n xs ++ ys
  drop-append_within zero xs ys h = refl
  drop-append_within (suc n) [] ys h = absurd (omega arith)
  drop-append_within (suc n) (x ∷ xs) ys h = drop-append_within n xs ys (omega arith)

  drop_nil : (n : ℕ) → drop {A = A} n [] ≡ []
  drop_nil zero = refl
  drop_nil (suc n) = refl

  -- Overwriting the start of a list changes nothing behind it.
  pub drop-overwrite :
      (n : ℕ) (xs ys : List A) → length xs ≤ n → drop n (xs ++ drop (length xs) ys) ≡ drop n ys
  drop-overwrite n [] ys h = refl
  drop-overwrite zero (x ∷ xs) ys h = absurd (omega arith)
  drop-overwrite (suc n) (x ∷ xs) [] h =
      ap (λ z. drop n (xs ++ z)) (sym (drop_nil (length xs)))
      ∙ drop-overwrite n xs [] (omega arith)
      ∙ drop_nil n
  drop-overwrite (suc n) (x ∷ xs) (y ∷ ys) h = drop-overwrite n xs ys (omega arith)

module _ {ℓ κ} {A : Type ℓ} {P Q : A → Type κ} where
  pub All-map : ((a : A) → P a → Q a) → (xs : List A) → All P xs → All Q xs
  All-map f [] h = tt
  All-map f (x ∷ xs) h = (f x h.0, All-map f xs h.1)

module _ {ℓ κ} {A : Type ℓ} (P : A → Type κ) where
  pub All-append : (xs ys : List A) → All P xs → All P ys → All P (xs ++ ys)
  All-append [] ys hx hy = hy
  All-append (x ∷ xs) ys hx hy = (hx.0, All-append xs ys hx.1 hy)

  pub All-filter : (p : A → Bool) (xs : List A) → All P xs → All P (filter p xs)
  All-filter p [] h = tt
  All-filter p (x ∷ xs) h = elim (Bool-cases (p x)) [
    | inl e ↦ rw e (h.0, All-filter p xs h.1)
    | inr e ↦ rw e (All-filter p xs h.1)
  ]

module _ {ℓ} {A : Type ℓ} where
  pub length-set : (xs : List A) (i : ℕ) (v : A) → length (set xs i v) ≡ length xs
  length-set [] i v = refl
  length-set (x ∷ xs) zero v = refl
  length-set (x ∷ xs) (suc i) v = ap suc (length-set xs i v)

  pub get_elem?-set_self :
      (xs : List A) (i : ℕ) (v : A) → i < length xs → get_elem? (set xs i v) i ≡ some v
  get_elem?-set_self [] i v h = elim h [ ]
  get_elem?-set_self (x ∷ xs) zero v h = refl
  get_elem?-set_self (x ∷ xs) (suc i) v h = get_elem?-set_self xs i v (omega arith)

  -- Writing a value keeps the places that hold it.
  pub get_elem?-set_keeps :
      (xs : List A) (i j : ℕ) (v : A) → get_elem? xs j ≡ some v → get_elem? (set xs i v) j ≡ some v
  get_elem?-set_keeps [] i j v h = h
  get_elem?-set_keeps (x ∷ xs) zero zero v h = refl
  get_elem?-set_keeps (x ∷ xs) zero (suc j) v h = h
  get_elem?-set_keeps (x ∷ xs) (suc i) zero v h = h
  get_elem?-set_keeps (x ∷ xs) (suc i) (suc j) v h = get_elem?-set_keeps xs i j v h

  pub length-replicate : (n : ℕ) (a : A) → length (replicate n a) ≡ n
  length-replicate zero a = refl
  length-replicate (suc n) a = ap suc (length-replicate n a)

pub List-cases {ℓ} :
    {A : Type ℓ} (l : List A) → (l ≡ []) ⊎ ((a : A) × (rest : List A) × (l ≡ a ∷ rest))
List-cases [] = inl refl
List-cases (a ∷ rest) = inr (a, rest, refl)
