-- ===== src/Engine/Bytes.antt =====
-- Little-endian numbers and exact reads, as the file formats of the engine use them.
use native.Mathlib.Nat.{pow-suc}
use lo_ra_db.Prelude.Int.{ℤ, pos, negsuc}
use lo_ra_db.Model.Lorawan.{LoraDbError}
use lo_ra_db.Prelude.{
  ltb, Result, ok, err, ◌>>=◌, ◌-◌, ℕ, zero, suc, ◌+◌, ◌*◌, ◌/◌, ◌%◌, ◌^◌, ◌<◌, ◌≡◌, refl, ap,
  Option, none, some, List, [], ◌∷◌, ◌++◌, arith, length, take, drop, leb, if◌then◌else◌,
  length-append, take-append, drop-append, length-drop,
}

abbrev pub Bytes : Type 0
Bytes = List ℕ

-- `n.to_le_bytes()` for a word of `k` bytes.
unfoldable pub to_le_bytes : ℕ → ℕ → Bytes
to_le_bytes zero n = []
to_le_bytes (suc k) n = (n % 256) ∷ to_le_bytes k (n / 256)

unfoldable pub from_le_bytes : Bytes → ℕ
from_le_bytes [] = 0
from_le_bytes (b ∷ bs) = b + 256 * from_le_bytes bs

-- `read_exact` into a buffer of `n` bytes: the bytes and what follows, or the end of the file.
unfoldable pub read_exact : ℕ → Bytes → Option (Bytes × Bytes)
read_exact n bytes = if leb n (length bytes) then some (take n bytes, drop n bytes) else none

pub length-to_le_bytes : (k n : ℕ) → length (to_le_bytes k n) ≡ k
unfolding to_le_bytes
length-to_le_bytes zero n = refl
length-to_le_bytes (suc k) n = ap suc (length-to_le_bytes k (n / 256))

pub from_le_bytes-to_le_bytes : (k n : ℕ) → n < 256 ^ k → from_le_bytes (to_le_bytes k n) ≡ n
unfolding from_le_bytes to_le_bytes
from_le_bytes-to_le_bytes zero n h = omega arith
from_le_bytes-to_le_bytes (suc k) n h =
    let smaller : n / 256 < 256 ^ k = omega (arith, pow-suc 256 k) in
    omega (arith, from_le_bytes-to_le_bytes k (n / 256) smaller)

-- Reading back what was written, whatever follows it.
pub read_exact-append :
    (n : ℕ) (xs ys : Bytes) → length xs ≡ n → read_exact n (xs ++ ys) ≡ some (xs, ys)
unfolding read_exact
read_exact-append n xs ys h =
    rw (← h) (ground (arith, length-append xs ys, take-append xs ys, drop-append xs ys))

pub read_exact_short : (n : ℕ) (xs : Bytes) → length xs < n → read_exact n xs ≡ none
unfolding read_exact
read_exact_short n xs h = ground arith

pub length-read_exact :
    (n : ℕ) (bytes xs rest : Bytes)
    → read_exact n bytes ≡ some (xs, rest)
    → length rest + n ≡ length bytes
unfolding read_exact
length-read_exact n bytes xs rest h = ground (arith, length-drop n bytes)

-- The bit pattern of an `i64`, and back.
abbrev pub of_i64 : ℤ → ℕ
of_i64 (pos n) = n
of_i64 (negsuc n) = 2 ^ 64 - 1 - n

abbrev pub to_i64 : ℕ → ℤ
to_i64 n = if ltb n (2 ^ 63) then pos n else negsuc (2 ^ 64 - 1 - n)

-- `read_exact` where the end of the file is an error, and a word read by it.
unfoldable pub read : ℕ → Bytes → Result LoraDbError (Bytes × Bytes)
unfolding read_exact
read n bytes = elim (read_exact n bytes) [ none ↦ err LoraDbError.io_error | some r ↦ ok r ]

unfoldable pub read_word : ℕ → Bytes → Result LoraDbError (ℕ × Bytes)
unfolding read
read_word n bytes = do (word, rest) ← read n bytes; ok (from_le_bytes word, rest)

pub read-append : (n : ℕ) (xs ys : Bytes) → length xs ≡ n → read n (xs ++ ys) ≡ ok (xs, ys)
unfolding read
read-append n xs ys h = rw (read_exact-append n xs ys h, read)

pub read_word-append :
    (k n : ℕ) (ys : Bytes) → n < 256 ^ k → read_word k (to_le_bytes k n ++ ys) ≡ ok (n, ys)
unfolding read_word
read_word-append k n ys h =
    rw
      (read-append k (to_le_bytes k n) ys (length-to_le_bytes k n), from_le_bytes-to_le_bytes k n h)
