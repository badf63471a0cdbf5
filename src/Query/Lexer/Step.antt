-- ===== src/Query/Lexer/Step.antt =====
-- One round of the tokenizer of src/query/parser.rs, for each piece that a line can begin with.
use lo_ra_db.Prelude.{
  ℕ, zero, suc, Bool-cases, inl, inr, ◌+◌, ◌*◌, ◌/◌, ◌%◌, ◌<◌, ◌≤◌, ◌≡◌, refl, Bool, true, false,
  some, List, [], ◌∷◌, ◌++◌, ok, length, arith, tests, all, ◌==◌, some-injective, sym, ◌∙◌, ap, ltb,
  not,
}
use lo_ra_db.Model.Text.{Text}
use lo_ra_db.Storage.{digits}
use lo_ra_db.Query.Lexer.{
  Token, identifier, string, integer, asterisk, comma, CharClasses, blank, star, separator, quote,
  digit, word, span, take_string, push, is_word, kind_of, tokenize_from, parse_usize, parse_digits,
  is_digit, tokenize,
}
use lo_ra_db.Query.Lexer.Tokens.{
  tokenize_total, length-span_first, length-take_string-le, digit-numeric, word-is_word,
}

pub span-append :
    (p : ℕ → Bool) (w : Text) (c : ℕ) (rest : Text)
    → all p w ≡ true
    → p c ≡ false
    → span p (w ++ c ∷ rest) ≡ (w, c ∷ rest)
span-append p [] c rest h stop = rw stop refl
span-append p (a ∷ w) c rest h stop = ground (arith, span-append p w c rest)

pub take_string-append :
    (q : ℕ) (s rest : Text)
    → all (λ c. not (c == q)) s ≡ true
    → take_string q (s ++ q ∷ rest) ≡ (s, rest)
unfolding take_string
take_string-append q [] rest h = ground arith
take_string-append q (a ∷ s) rest h = ground (arith, take_string-append q s rest)

ten_le : (n : ℕ) → ltb n 10 ≡ false → 10 ≤ n
ten_le n h = ground arith

is_digit_below : (d : ℕ) → d < 10 → is_digit (48 + d) ≡ true
is_digit_below d h = ground arith

parse_digits_digit :
    (m d k : ℕ) (acc : Text)
    → d < 10
    → m * 10 + d ≡ k
    → parse_digits m ((48 + d) ∷ acc) ≡ parse_digits k acc
unfolding parse_digits
parse_digits_digit m d k acc h e =
    rw (is_digit_below d h) (ap (λ j. parse_digits j acc) (omega arith))

-- The decimal digits of a number are read as the number.
pub parse_digits-digits :
    (fuel n : ℕ) (acc : Text) → n < fuel → parse_digits 0 (digits fuel n acc) ≡ parse_digits n acc
unfolding parse_digits digits
parse_digits-digits zero n acc h = elim h [ ]
parse_digits-digits (suc fuel) n acc h = elim (Bool-cases (ltb n 10)) [
  | inl small ↦ rw small (parse_digits_digit 0 (n % 10) n acc (omega arith) (omega (arith, tests)))
  | inr big ↦ rw big (
      parse_digits-digits fuel (n / 10) _ (omega (arith, ten_le n big))
      ∙ parse_digits_digit (n / 10) (n % 10) n acc (omega arith) (omega arith))
]

pub all-digits :
    (fuel n : ℕ) (acc : Text) → all is_digit acc ≡ true → all is_digit (digits fuel n acc) ≡ true
unfolding digits
all-digits zero n acc h = h
all-digits (suc fuel) n acc h = ground (arith, all-digits fuel (n / 10) ((48 + n % 10) ∷ acc))

module _ (u : CharClasses) where
  pub tokenize-blank : (c : ℕ) (s : Text) → kind_of u c ≡ blank → tokenize u (c ∷ s) ≡ tokenize u s
  unfolding tokenize_from
  tokenize-blank c s e = some-injective _ _ (
      sym (tokenize_total u (suc (suc (length s))) (c ∷ s) (omega arith))
      ∙ rw (e, tokenize_from) (tokenize_total u (suc (length s)) s (omega arith)))

  module _ (c : ℕ) (s : Text) (ts : List Token) where
    tokenize-first :
        (t : Token) (s' : Text)
        → tokenize_from u (suc (suc (length s))) (c ∷ s)
          ≡ push t (tokenize_from u (suc (length s)) s')
        → length s' < suc (length s)
        → tokenize u s' ≡ ok ts
        → tokenize u (c ∷ s) ≡ ok (t ∷ ts)
    tokenize-first t s' round l h = some-injective _ _ (
        sym (tokenize_total u (suc (suc (length s))) (c ∷ s) (omega arith))
        ∙ round
        ∙ ap (push t) (tokenize_total u (suc (length s)) s' l ∙ ap (λ r. some r) h))

    pub tokenize-star :
        kind_of u c ≡ star → tokenize u s ≡ ok ts → tokenize u (c ∷ s) ≡ ok (asterisk ∷ ts)
    unfolding tokenize_from
    tokenize-star e h = tokenize-first asterisk s (rw (e, tokenize_from) refl) (omega arith) h

    pub tokenize-separator :
        kind_of u c ≡ separator → tokenize u s ≡ ok ts → tokenize u (c ∷ s) ≡ ok (comma ∷ ts)
    unfolding tokenize_from
    tokenize-separator e h = tokenize-first comma s (rw (e, tokenize_from) refl) (omega arith) h

    pub tokenize-quote :
        (body rest : Text)
        → kind_of u c ≡ quote
        → take_string c s ≡ (body, rest)
        → tokenize u rest ≡ ok ts
        → tokenize u (c ∷ s) ≡ ok (string body ∷ ts)
    unfolding tokenize_from
    tokenize-quote body rest e body_is h =
        tokenize-first (string body) rest (rw (e, tokenize_from, body_is) refl)
          (omega (arith, length-take_string-le c s, ap (λ p. length p.1) body_is)) h

    pub tokenize-word :
        (w rest : Text)
        → kind_of u c ≡ word
        → span (is_word u) (c ∷ s) ≡ (w, rest)
        → tokenize u rest ≡ ok ts
        → tokenize u (c ∷ s) ≡ ok (identifier w ∷ ts)
    unfolding tokenize_from
    tokenize-word w rest e w_is h =
        tokenize-first (identifier w) rest
          (rw (e, tokenize_from)
            (ap (λ p. push (identifier p.0) (tokenize_from u (suc (length s)) p.1)) w_is))
          (omega (
            arith,
            length-span_first (is_word u) c s (word-is_word u c e),
            ap (λ p. length p.1) w_is,
          ))
          h

    pub tokenize-digit :
        (d rest : Text) (n : ℕ)
        → kind_of u c ≡ digit
        → span u.is_numeric (c ∷ s) ≡ (d, rest)
        → parse_usize d ≡ some n
        → tokenize u rest ≡ ok ts
        → tokenize u (c ∷ s) ≡ ok (integer n ∷ ts)
    unfolding tokenize_from
    tokenize-digit d rest n e d_is n_is h =
        tokenize-first (integer n) rest
          (rw (e, tokenize_from, ap (λ p. parse_usize p.0) d_is ∙ n_is)
            (ap (λ p. push (integer n) (tokenize_from u (suc (length s)) p.1)) d_is))
          (omega (
            arith,
            length-span_first u.is_numeric c s (digit-numeric u c e),
            ap (λ p. length p.1) d_is,
          ))
          h
