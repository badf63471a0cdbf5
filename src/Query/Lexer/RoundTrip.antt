-- ===== src/Query/Lexer/RoundTrip.antt =====
-- The tokenizer of src/query/parser.rs reads back the tokens of a printed line.
use lo_ra_db.Prelude.{
  ℕ, zero, suc, ◌+◌, ◌^◌, ◌<◌, ◌≡◌, refl, Bool, true, false, ◌&&◌, ◌||◌, ◌/◌, ◌%◌, ltb→lt, lt→ltb,
  List, [], ◌∷◌, ◌++◌, some, ok, length, arith, all, ◌==◌, ltb, not, ◌∙◌,
}
use lo_ra_db.Model.Text.{Text}
use lo_ra_db.Storage.{digits}
use lo_ra_db.Query.Lexer.{
  Token, identifier, string, integer, asterisk, comma, CharClasses, AsciiLaws, digit, word, is_word,
  kind_of, parse_usize, parse_digits, is_digit, is_letter, tokenize, tokenize_from,
}
use lo_ra_db.Query.Lexer.Step.{
  span-append, take_string-append, parse_digits-digits, all-digits, tokenize-blank, tokenize-star,
  tokenize-separator, tokenize-quote, tokenize-word, tokenize-digit,
}

-- A token, with a blank behind it, in front of a text.
unfoldable pub print_token : Token → Text → Text
print_token (identifier w) rest = w ++ 32 ∷ rest
print_token (string s) rest = 39 ∷ (s ++ 39 ∷ 32 ∷ rest)
print_token (integer n) rest = digits (suc n) n [] ++ 32 ∷ rest
print_token asterisk rest = 42 ∷ 32 ∷ rest
print_token comma rest = 44 ∷ 32 ∷ rest

unfoldable pub print_tokens : List Token → Text
unfolding print_token
print_tokens [] = []
print_tokens (t ∷ ts) = print_token t (print_tokens ts)

-- An ASCII word that starts with a letter.
abbrev pub is_name_char : ℕ → Bool
is_name_char c = is_letter c || is_digit c || c == b'_' || c == b'.'

unfoldable pub is_name : Text → Bool
is_name [] = false
is_name (c ∷ s) = is_letter c && all is_name_char s

-- The tokens whose print is read back: names, strings without the quote, 64-bit numbers.
unfoldable pub is_printable : Token → Bool
unfolding is_name
is_printable (identifier w) = is_name w
is_printable (string s) = all (λ c. not (c == 39)) s
is_printable (integer n) = ltb n (2 ^ 64)
is_printable asterisk = true
is_printable comma = true

pub all-implied :
    (p q : ℕ → Bool) (s : Text)
    → ((c : ℕ) → p c ≡ true → q c ≡ true)
    → all p s ≡ true
    → all q s ≡ true
all-implied p q [] f h = refl
all-implied p q (c ∷ s) f h = ground (arith, f c, all-implied p q s f)

ascii_name : (c : ℕ) → is_name_char c ≡ true → c < 128
ascii_name c h = ground arith

ascii_letter : (c : ℕ) → is_letter c ≡ true → c < 128
ascii_letter c h = ground arith

ascii_digit : (c : ℕ) → is_digit c ≡ true → c < 128
ascii_digit c h = ground arith

pub length-digits : (fuel n : ℕ) (acc : Text) → length acc < length (digits (suc fuel) n acc)
unfolding digits
length-digits zero n acc = ground arith
length-digits (suc fuel) n acc = ground (arith, length-digits fuel (n / 10) ((48 + n % 10) ∷ acc))

pub parse_digits-all_digits : (n : ℕ) → parse_digits 0 (digits (suc n) n []) ≡ some n
unfolding parse_digits
parse_digits-all_digits n = parse_digits-digits (suc n) n [] (omega arith)

parse_usize-digits : (n : ℕ) → n < 2 ^ 64 → parse_usize (digits (suc n) n []) ≡ some n
unfolding parse_usize
parse_usize-digits n h = rw (parse_digits-all_digits n, parse_usize, lt→ltb n (2 ^ 64) h) refl

module _ (u : CharClasses) (law : AsciiLaws u) where
  numeric_of_digit : (c : ℕ) → is_digit c ≡ true → u.is_numeric c ≡ true
  numeric_of_digit c h = law.numeric c (ascii_digit c h) ∙ h

  kind_of-letter : (c : ℕ) → is_letter c ≡ true → kind_of u c ≡ word
  unfolding kind_of
  kind_of-letter c h =
      ground (arith, law.numeric c (ascii_letter c h), law.alphanumeric c (ascii_letter c h))

  kind_of-digit : (c : ℕ) → is_digit c ≡ true → kind_of u c ≡ digit
  unfolding kind_of
  kind_of-digit c h = ground (arith, law.numeric c (ascii_digit c h))

  is_word-name : (c : ℕ) → is_name_char c ≡ true → is_word u c ≡ true
  unfolding is_word
  is_word-name c h = ground (arith, law.alphanumeric c (ascii_name c h))

  module _ (rest : Text) (ts : List Token) (h : tokenize u rest ≡ ok ts) where
    after_blank : tokenize u (32 ∷ rest) ≡ ok ts
    after_blank = tokenize-blank u 32 rest (unfold kind_of in refl) ∙ h

    tokenize-digits_text :
        (d : Text) (n : ℕ)
        → all is_digit d ≡ true
        → 0 < length d
        → parse_usize d ≡ some n
        → tokenize u (d ++ 32 ∷ rest) ≡ ok (integer n ∷ ts)
    tokenize-digits_text [] n a l e = absurd (omega arith)
    tokenize-digits_text (c ∷ d) n a l e =
        tokenize-digit u c (d ++ 32 ∷ rest) ts (c ∷ d) (32 ∷ rest) n
          (kind_of-digit c (ground (arith, a)))
          (span-append u.is_numeric (c ∷ d) 32 rest
            (all-implied is_digit u.is_numeric (c ∷ d) numeric_of_digit a)
            (law.numeric 32 (omega arith)))
          e after_blank

    tokenize-name :
        (w : Text) → is_name w ≡ true → tokenize u (w ++ 32 ∷ rest) ≡ ok (identifier w ∷ ts)
    unfolding is_name is_word
    tokenize-name [] a = cc
    tokenize-name (c ∷ w) a =
        tokenize-word u c (w ++ 32 ∷ rest) ts (c ∷ w) (32 ∷ rest)
          (kind_of-letter c (ground (arith, a)))
          (span-append (is_word u) (c ∷ w) 32 rest
            (all-implied is_name_char (is_word u) (c ∷ w) is_word-name (ground (arith, a)))
            (ground (arith, law.alphanumeric 32 (omega arith))))
          after_blank

    tokenize-print_token :
        (t : Token) → is_printable t ≡ true → tokenize u (print_token t rest) ≡ ok (t ∷ ts)
    unfolding print_token is_printable kind_of
    tokenize-print_token asterisk p = tokenize-star u 42 (32 ∷ rest) ts refl after_blank
    tokenize-print_token comma p = tokenize-separator u 44 (32 ∷ rest) ts refl after_blank
    tokenize-print_token (string s) p =
        tokenize-quote u 39 (s ++ 39 ∷ 32 ∷ rest) ts s (32 ∷ rest) refl
          (take_string-append 39 s (32 ∷ rest) p) after_blank
    tokenize-print_token (integer n) p =
        tokenize-digits_text (digits (suc n) n []) n (all-digits (suc n) n [] refl)
          (length-digits n n []) (parse_usize-digits n (ltb→lt n (2 ^ 64) p))
    tokenize-print_token (identifier w) p = tokenize-name w p

  -- The print of tokens that can be printed, names without a space in them, strings without the
  -- quote and numbers of 64 bits, is tokenized to the same tokens.
  pub tokenize-print_tokens :
      (ts : List Token) → all is_printable ts ≡ true → tokenize u (print_tokens ts) ≡ ok ts
  unfolding print_tokens
  tokenize-print_tokens [] p = unfold tokenize in unfold tokenize_from in refl
  tokenize-print_tokens (t ∷ ts) p =
      tokenize-print_token (print_tokens ts) ts (tokenize-print_tokens ts (ground (arith, p))) t
        (ground (arith, p))
