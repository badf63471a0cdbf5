-- ===== src/Query/Lexer.antt =====
-- The tokenizer of src/query/parser.rs. The classes of characters beyond ASCII are those of the
-- standard library's Unicode tables, a parameter. A step that would abort the program is `panic`.
pub mod Tokens
pub mod Step
pub mod RoundTrip
use lo_ra_db.Prelude.{
  ℕ, zero, suc, ◌+◌, ◌*◌, ◌-◌, ◌^◌, ◌<◌, ◌≡◌, Bool, true, false, ◌||◌, ◌&&◌, Option, none, some,
  List, [], ◌∷◌, ltb, leb, ◌==◌, if◌then◌else◌, Result, ok, err, ◌>>=◌, unwrap_or, length,
}
use lo_ra_db.Model.Text.{Text}
use lo_ra_db.Model.Lorawan.{LoraDbError}
pub use lo_ra_db.Model.Lorawan.{Failure, error, panic}

-- `return Err(LoraDbError::QueryParseError(..))`
abbrev pub rejected {ℓ} : {A : Type ℓ} → Result Failure A
rejected = err (error LoraDbError.query_parse_error)

pub data Token : Type 0 where
  identifier : Text → Token
  string : Text → Token
  integer : ℕ → Token
  asterisk comma : Token

-- `char::is_numeric`, `char::is_alphanumeric` and `char::is_whitespace`.
pub record CharClasses : Type 0 where
  pub is_numeric : ℕ → Bool
  pub is_alphanumeric : ℕ → Bool
  pub is_whitespace : ℕ → Bool

abbrev pub is_digit : ℕ → Bool
is_digit c = leb b'0' c && leb c b'9'

abbrev pub is_letter : ℕ → Bool
is_letter c = (leb b'a' c && leb c b'z') || (leb b'A' c && leb c b'Z')

-- The classes of the ASCII characters.
pub record AsciiLaws (u : CharClasses) : Type 0 where
  pub numeric : (c : ℕ) → c < 128 → u.is_numeric c ≡ is_digit c
  pub alphanumeric : (c : ℕ) → c < 128 → u.is_alphanumeric c ≡ (is_letter c || is_digit c)
  pub whitespace : (c : ℕ) → 32 < c → c < 127 → u.is_whitespace c ≡ false

-- The arms of the loop's `match`.
pub data Kind : Type 0 where
  blank star separator quote digit word other : Kind

-- The longest prefix of characters in a class, and the rest.
abbrev pub span : (ℕ → Bool) → Text → Text × Text
span p [] = ([], [])
span p (c ∷ s) = if p c then (c ∷ (span p s).0, (span p s).1) else ([], c ∷ s)

-- The text up to the closing quote, or up to the end of the input, and the rest behind the quote.
unfoldable pub take_string : ℕ → Text → Text × Text
take_string q [] = ([], [])
take_string q (c ∷ s) =
    let rest = take_string q s in if c == q then ([], s) else (c ∷ rest.0, rest.1)

-- The value of a text of ASCII digits behind those that were read.
unfoldable pub parse_digits : ℕ → Text → Option ℕ
parse_digits n [] = some n
parse_digits n (c ∷ s) =
    let rest = parse_digits (n * 10 + (c - b'0')) s in if is_digit c then rest else none

-- `number.parse::<usize>()`, of a text that is not empty and has no sign.
unfoldable pub parse_usize : Text → Option ℕ
parse_usize s = elim (parse_digits 0 s) [
  | none ↦ none
  | some n ↦ if ltb n (2 ^ 64) then some n else none
]

-- A token in front of the others.
abbrev pub push :
    Token → Option (Result Failure (List Token)) → Option (Result Failure (List Token))
push t none = none
push t (some (err e)) = some (err e)
push t (some (ok ts)) = some (ok (t ∷ ts))

module _ (u : CharClasses) where
  unfoldable pub is_word : ℕ → Bool
  is_word c = u.is_alphanumeric c || c == b'_' || c == b'.'

  unfoldable pub kind_of : ℕ → Kind
  kind_of c =
      if c == b' ' || c == b'\t' || c == b'\n' || c == b'\r'
      then blank
      else if c == b'*'
      then star
      else if c == b','
      then separator
      else if c == b'\'' || c == b'"'
      then quote
      else if u.is_numeric c
      then digit
      else if u.is_alphanumeric c || c == b'_'
      then word
      else other

  -- The loop, on fuel; each round reads at least one character.
  unfoldable pub tokenize_from : ℕ → Text → Option (Result Failure (List Token))
  tokenize_from zero s = none
  tokenize_from (suc fuel) [] = some (ok [])
  tokenize_from (suc fuel) (c ∷ s) = elim (kind_of c) [
    | blank ↦ tokenize_from fuel s
    | star ↦ push asterisk (tokenize_from fuel s)
    | separator ↦ push comma (tokenize_from fuel s)
    | quote ↦ push (string (take_string c s).0) (tokenize_from fuel (take_string c s).1)
    | digit ↦ elim (parse_usize (span u.is_numeric (c ∷ s)).0) [
      | none ↦ some rejected
      | some n ↦ push (integer n) (tokenize_from fuel (span u.is_numeric (c ∷ s)).1)
    ]
    | word ↦
        push (identifier (span is_word (c ∷ s)).0) (tokenize_from fuel (span is_word (c ∷ s)).1)
    | other ↦ some rejected
  ]

  unfoldable pub tokenize : Text → Result Failure (List Token)
  unfolding tokenize_from
  tokenize s = unwrap_or (tokenize_from (suc (length s)) s) (err panic)
