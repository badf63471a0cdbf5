-- ===== src/Query/Parser/Durations.antt =====
-- `parse_duration` of src/query/parser.rs reads a printed number of milliseconds.
use lo_ra_db.Prelude.{
  ℕ, ◌*◌, ◌^◌, ◌<◌, ◌≡◌, refl, Bool, true, false, [], ◌∷◌, ◌++◌, some, Option, ok, length, arith,
  all, not, lt→ltb, ◌==◌,
}
use lo_ra_db.Prelude.Int.{ℤ, pos}
use lo_ra_db.Model.Text.{Text}
use lo_ra_db.Query.Lexer.{CharClasses, AsciiLaws, is_digit, parse_digits}
use lo_ra_db.Query.Parser.{
  Chrono, parse_i64, split_last, trim_start, trim_end, duration, parse_duration,
}

-- Milliseconds that an `i64` holds are within the bounds of the time library's durations.
pub record MillisLaw (t : Chrono) : Type 0 where
  pub milliseconds : (n : ℕ) → n < 2 ^ 63 → t.milliseconds (pos n) ≡ some (pos (n * 1000000))

trim_end_id : (p : ℕ → Bool) (s : Text) → all (λ c. not (p c)) s ≡ true → trim_end p s ≡ s
trim_end_id p [] h = refl
trim_end_id p (c ∷ []) h = ground arith
trim_end_id p (c ∷ d ∷ s) h = rw (trim_end_id p (d ∷ s) (ground arith)) refl

trim_start_id : (p : ℕ → Bool) (s : Text) → all (λ c. not (p c)) s ≡ true → trim_start p s ≡ s
trim_start_id p [] h = refl
trim_start_id p (c ∷ s) h = ground arith

split_last-snoc : (c : ℕ) (s : Text) (x : ℕ) → split_last c (s ++ x ∷ []) ≡ (c ∷ s, x)
split_last-snoc c [] x = refl
split_last-snoc c (d ∷ s) x = rw (split_last-snoc d s x) refl

split_last-two :
    (c : ℕ) (s : Text) (x y : ℕ) → split_last c (s ++ x ∷ y ∷ []) ≡ (c ∷ (s ++ x ∷ []), y)
split_last-two c [] x y = refl
split_last-two c (d ∷ s) x y = rw (split_last-two d s x y) refl

not_minus : (c : ℕ) → is_digit c ≡ true → (c == b'-') ≡ false
not_minus c h = ground arith

not_plus : (c : ℕ) → is_digit c ≡ true → (c == b'+') ≡ false
not_plus c h = ground arith

parse_i64_digits :
    (c : ℕ) (s : Text) (n : ℕ)
    → is_digit c ≡ true
    → parse_digits 0 (c ∷ s) ≡ some n
    → n < 2 ^ 63
    → parse_i64 (c ∷ s) ≡ some (pos n)
unfolding parse_i64
parse_i64_digits c s n d e l =
    rw (not_minus c d, not_plus c d, e, lt→ltb n (2 ^ 63) l, parse_i64) refl

duration_of :
    (unit : ℤ → Option ℤ) (s : Text) (k d : ℤ)
    → parse_i64 s ≡ some k
    → unit k ≡ some d
    → duration unit s ≡ ok d
duration_of unit s k d e f = rw (e, f, duration) refl

module _ (u : CharClasses) (law : AsciiLaws u) (t : Chrono) (time : MillisLaw t) where
  no_blanks :
      (s : Text)
      → all is_digit s ≡ true
      → all (λ c. not (u.is_whitespace c)) (s ++ b'm' ∷ b's' ∷ []) ≡ true
  no_blanks [] h = ground (
    arith,
    law.whitespace b'm' (omega arith) (omega arith),
    law.whitespace b's' (omega arith) (omega arith),
  )
  no_blanks (c ∷ s) h = ground (arith, law.whitespace c, no_blanks s)

  pub parse_duration_millis :
      (s : Text) (n : ℕ)
      → all is_digit s ≡ true
      → 0 < length s
      → parse_digits 0 s ≡ some n
      → n < 2 ^ 63
      → parse_duration u t (s ++ b'm' ∷ b's' ∷ []) ≡ ok (pos (n * 1000000))
  unfolding parse_duration
  parse_duration_millis [] n a l e b = absurd (omega arith)
  parse_duration_millis (c ∷ s) n a l e b =
      let full = c ∷ (s ++ b'm' ∷ b's' ∷ []) in
      rw
        (
          trim_end_id u.is_whitespace full (no_blanks (c ∷ s) a),
          trim_start_id u.is_whitespace full (no_blanks (c ∷ s) a),
          parse_duration,
          split_last-two c s b'm' b's',
          split_last-snoc c s b'm',
          split_last-two c s b'm' b's',
        )
        (duration_of t.milliseconds (c ∷ s) (pos n) _
          (parse_i64_digits c s n (ground (arith, a)) e b) (time.milliseconds n b))
