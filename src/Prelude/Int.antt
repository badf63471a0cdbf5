-- ===== src/Prelude/Int.antt =====
-- Signed numbers: `i64`, and the instants and durations of the time library.
use Prim.Native.Nat.{ℕ, suc, ◌+◌, ◌-◌, ◌/◌, compare, Ordering}
use Prim.Native.Nat.Ordering.{lt, eq, gt}
use mathlib.Core.Path.{◌≡◌}
use native.Mathlib.Omega.{arith}
use lo_ra_db.Prelude.Tests.{leb, if◌then◌else◌}
use lo_ra_db.Prelude.Order.{Ord, reverse}

-- `negsuc n` is -(n + 1).
pub data ℤ : Type 0 where
  pos : ℕ → ℤ
  negsuc : ℕ → ℤ

abbrev pub pos_part : ℤ → ℕ
pos_part (pos n) = n
pos_part (negsuc n) = 0

abbrev pub neg_part : ℤ → ℕ
neg_part (pos n) = 0
neg_part (negsuc n) = suc n

-- a - b, as an integer.
abbrev pub sub_ℕ : ℕ → ℕ → ℤ
sub_ℕ a b = if leb b a then pos (a - b) else negsuc (b - a - 1)

infixl 65 ◌-ℤ◌
unfoldable pub ◌-ℤ◌ : ℤ → ℤ → ℤ
a -ℤ b = sub_ℕ (pos_part a + neg_part b) (neg_part a + pos_part b)

abbrev pub cmp_ℤ : ℤ → ℤ → Ordering
cmp_ℤ (pos a) (pos b) = compare a b
cmp_ℤ (pos a) (negsuc b) = gt
cmp_ℤ (negsuc a) (pos b) = lt
cmp_ℤ (negsuc a) (negsuc b) = compare b a

-- The quotient rounded down, as `div_euclid` by a positive number.
abbrev pub div_floor : ℤ → ℕ → ℤ
div_floor (pos n) d = pos (n / d)
div_floor (negsuc n) d = negsuc (n / d)

pub cmp_ℤ_refl : (a : ℤ) → cmp_ℤ a a ≡ eq
cmp_ℤ_refl (pos a) = ground arith
cmp_ℤ_refl (negsuc a) = ground arith

pub eq_of_cmp_ℤ : (a b : ℤ) → cmp_ℤ a b ≡ eq → a ≡ b
eq_of_cmp_ℤ a b h = ground arith

pub cmp_ℤ-reverse : (a b : ℤ) → cmp_ℤ b a ≡ reverse (cmp_ℤ a b)
cmp_ℤ-reverse a b = ground arith

pub cmp_ℤ_trans : (a b c : ℤ) → cmp_ℤ a b ≡ lt → cmp_ℤ b c ≡ lt → cmp_ℤ a c ≡ lt
cmp_ℤ_trans a b c p q = ground arith

instance abbrev pub int_ord : Ord ℤ
int_ord = record {
  cmp = cmp_ℤ;
  cmp_refl = cmp_ℤ_refl;
  eq_of_cmp = eq_of_cmp_ℤ;
  cmp-reverse = cmp_ℤ-reverse;
  cmp_trans = cmp_ℤ_trans;
}
