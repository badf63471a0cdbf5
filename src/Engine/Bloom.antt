-- ===== src/Engine/Bloom.antt =====
-- src/util/bloom.rs. The hash of an item under a seed (the `DefaultHasher`
-- of std) is a parameter, and so are the numbers of bits
-- and of hash functions, which the source computes in floating point.
use native.Mathlib.Nat.{mod-lt}
use lo_ra_db.Prelude.{
  ℕ, zero, suc, ◌%◌, ◌<◌, ◌≡◌, refl, ◌∙◌, Bool, true, false, none, some, List, [], ◌∷◌, arith, All,
  length, set, get_elem?, replicate, get_elem?-set_self, get_elem?-set_keeps, length-set,
  length-replicate, if◌then◌else◌,
}

pub record BloomFilter : Type 0 where
  pub bits : List Bool
  pub num_hash_functions : ℕ
  pub num_bits : ℕ

unfoldable pub new : ℕ → ℕ → BloomFilter
new num_bits num_hash_functions = record {
  bits = replicate num_bits false;
  num_hash_functions = num_hash_functions;
  num_bits = num_bits;
}

module _ {ℓ} {T : Type ℓ} (hash : T → ℕ → ℕ) where
  -- The loop `for i in seed..seed + rounds`.
  unfoldable pub insert_from : T → ℕ → ℕ → ℕ → List Bool → List Bool
  insert_from item num_bits seed zero bits = bits
  insert_from item num_bits seed (suc rounds) bits =
      insert_from item num_bits (suc seed) rounds (set bits (hash item seed % num_bits) true)

  unfoldable pub insert : T → BloomFilter → BloomFilter
  unfolding insert_from
  insert item filter = record filter {
    bits = insert_from item filter.num_bits 0 filter.num_hash_functions filter.bits;
  }

  -- Reading past the bits, which the source would panic on, finds no bit.
  unfoldable pub contains_from : T → ℕ → ℕ → ℕ → List Bool → Bool
  contains_from item num_bits seed zero bits = true
  contains_from item num_bits seed (suc rounds) bits =
      let rest = contains_from item num_bits (suc seed) rounds bits in
      elim (get_elem? bits (hash item seed % num_bits)) [
        | none ↦ false
        | some bit ↦ if bit then rest else false
      ]

  unfoldable pub contains : T → BloomFilter → Bool
  unfolding contains_from
  contains item filter = contains_from item filter.num_bits 0 filter.num_hash_functions filter.bits

  -- A bit that is set stays set.
  insert_from-keeps :
      (item : T) (n seed rounds : ℕ) (bits : List Bool) (i : ℕ)
      → get_elem? bits i ≡ some true
      → get_elem? (insert_from item n seed rounds bits) i ≡ some true
  unfolding insert_from
  insert_from-keeps item n seed zero bits i h = h
  insert_from-keeps item n seed (suc rounds) bits i h =
      insert_from-keeps item n (suc seed) rounds (set bits (hash item seed % n) true) i
        (get_elem?-set_keeps bits (hash item seed % n) i true h)

  contains_from_mono :
      (item other : T) (n seed rounds : ℕ) (bits : List Bool) (from more : ℕ)
      → contains_from item n seed rounds bits ≡ true
      → contains_from item n seed rounds (insert_from other n from more bits) ≡ true
  unfolding contains_from
  contains_from_mono item other n seed zero bits from more h = refl
  contains_from_mono item other n seed (suc rounds) bits from more h = ground (
    arith,
    insert_from-keeps other n from more bits (hash item seed % n),
    contains_from_mono item other n (suc seed) rounds bits from more,
  )

  length-insert_from :
      (item : T) (n seed rounds : ℕ) (bits : List Bool)
      → length (insert_from item n seed rounds bits) ≡ length bits
  unfolding insert_from
  length-insert_from item n seed zero bits = refl
  length-insert_from item n seed (suc rounds) bits =
      length-insert_from item n (suc seed) rounds (set bits (hash item seed % n) true)
      ∙ length-set bits (hash item seed % n) true

  contains_from-suc :
      (item : T) (n seed rounds : ℕ) (bits : List Bool)
      → get_elem? bits (hash item seed % n) ≡ some true
      → contains_from item n (suc seed) rounds bits ≡ true
      → contains_from item n seed (suc rounds) bits ≡ true
  unfolding contains_from
  contains_from-suc item n seed rounds bits h rest = ground arith

  contains_from-insert_from :
      (item : T) (n seed rounds : ℕ) (bits : List Bool)
      → 0 < n
      → length bits ≡ n
      → contains_from item n seed rounds (insert_from item n seed rounds bits) ≡ true
  unfolding insert_from contains_from
  contains_from-insert_from item n seed zero bits p q = refl
  contains_from-insert_from item n seed (suc rounds) bits p q =
      let i = hash item seed % n in
      let bits' = set bits i true in
      contains_from-suc item n seed rounds (insert_from item n (suc seed) rounds bits')
        (insert_from-keeps item n (suc seed) rounds bits' i
          (get_elem?-set_self bits i true (rw q (mod-lt (hash item seed) p))))
        (contains_from-insert_from item n (suc seed) rounds bits' p (length-set bits i true ∙ q))

  -- A filter that `new` can make and `insert` keeps: its bits are as many as it says, and some.
  pub record IsValid (f : BloomFilter) : Type 0 where
    pub sized : length f.bits ≡ f.num_bits
    pub positive : 0 < f.num_bits

  pub new-IsValid : (n k : ℕ) → 0 < n → IsValid (new n k)
  unfolding new
  new-IsValid n k h = record { sized = length-replicate n false; positive = h }

  pub insert-IsValid : (item : T) (f : BloomFilter) → IsValid f → IsValid (insert item f)
  unfolding insert
  insert-IsValid item f v = record {
    sized = length-insert_from item f.num_bits 0 f.num_hash_functions f.bits ∙ v.sized;
    positive = v.positive;
  }

  pub length-insert : (item : T) (f : BloomFilter) → length (insert item f).bits ≡ length f.bits
  unfolding insert
  length-insert item f = length-insert_from item f.num_bits 0 f.num_hash_functions f.bits

  pub contains-insert_self :
      (item : T) (f : BloomFilter) → IsValid f → contains item (insert item f) ≡ true
  unfolding insert contains
  contains-insert_self item f v =
      contains_from-insert_from item f.num_bits 0 f.num_hash_functions f.bits v.positive v.sized

  pub contains-insert_keeps :
      (item other : T) (f : BloomFilter)
      → contains item f ≡ true
      → contains item (insert other f) ≡ true
  unfolding insert contains
  contains-insert_keeps item other f h =
      contains_from_mono item other f.num_bits 0 f.num_hash_functions f.bits 0 f.num_hash_functions
        h

  unfoldable pub insert_all : List T → BloomFilter → BloomFilter
  insert_all [] f = f
  insert_all (x ∷ xs) f = insert_all xs (insert x f)

  insert_all-keeps :
      (xs : List T) (item : T) (f : BloomFilter)
      → contains item f ≡ true
      → contains item (insert_all xs f) ≡ true
  unfolding insert_all
  insert_all-keeps [] item f h = h
  insert_all-keeps (x ∷ xs) item f h =
      insert_all-keeps xs item (insert x f) (contains-insert_keeps item x f h)

  -- No false negatives: a filter with at least one bit contains every item that was inserted,
  -- whatever was inserted before and after it and whatever the hash.
  pub no_false_negatives :
      (xs : List T) (f : BloomFilter)
      → IsValid f
      → All (λ x. contains x (insert_all xs f) ≡ true) xs × IsValid (insert_all xs f)
  unfolding insert_all
  no_false_negatives [] f v = (tt, v)
  no_false_negatives (x ∷ xs) f v =
      let (all, valid) = no_false_negatives xs (insert x f) (insert-IsValid x f v) in
      ((insert_all-keeps xs x (insert x f) (contains-insert_self x f v), all), valid)
