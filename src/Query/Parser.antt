-- ===== src/Query/Parser.antt =====
-- The parser of src/query/parser.rs on the tokens. The vector of tokens that the source shortens at
-- its front is an argument and a part of the result. Reading of RFC 3339 times and the durations of
-- the time library are parameters; a duration is its number of nanoseconds.
pub mod Durations
pub mod Printer
pub mod RoundTrip
pub mod Bounds
use lo_ra_db.Prelude.{
  ℕ, zero, suc, ◌+◌, ◌*◌, ◌-◌, ◌^◌, ◌<◌, ◌≤◌, ◌≡◌, Bool, true, false, ◌||◌, ◌&&◌, Option, none,
  some, List, [], ◌∷◌, ltb, leb, ◌==◌, if◌then◌else◌, Result, ok, err, ◌>>=◌, length, and_then,
}
use lo_ra_db.Prelude.Int.{ℤ, pos, negsuc}
use lo_ra_db.Model.Text.{Text, text, eq_ignore_ascii_case}
use lo_ra_db.Model.Frames.{DateTime}
use lo_ra_db.Query.Dsl.{SelectClause, FilterClause, Query}
use lo_ra_db.Query.Lexer.{
  Failure, panic, rejected, Token, identifier, string, integer, asterisk, comma, CharClasses,
  parse_digits, tokenize,
}

-- What the parser uses of the time library: `none` of a duration is its panic out of bounds.
pub record Chrono : Type 0 where
  pub parse_from_rfc3339 : Text → Option DateTime
  pub milliseconds : ℤ → Option ℤ
  pub seconds : ℤ → Option ℤ
  pub minutes : ℤ → Option ℤ
  pub hours : ℤ → Option ℤ
  pub days : ℤ → Option ℤ
  pub weeks : ℤ → Option ℤ

abbrev pub max_select_fields : ℕ
max_select_fields = 100

unfoldable pub expect_keyword : Text → List Token → Result Failure (List Token)
expect_keyword keyword (identifier s ∷ ts) =
    if eq_ignore_ascii_case s keyword then ok ts else rejected
expect_keyword keyword _ = rejected

unfoldable pub peek_keyword : Text → List Token → Bool
peek_keyword keyword (identifier s ∷ ts) = eq_ignore_ascii_case s keyword
peek_keyword keyword _ = false

-- The loop over `, field`.
unfoldable pub parse_fields : List Token → Result Failure (List Text × List Token)
parse_fields (comma ∷ identifier field ∷ ts) = do
  (fields, rest) ← parse_fields ts
  ok (field ∷ fields, rest)
parse_fields (comma ∷ ts) = rejected
parse_fields ts = ok ([], ts)

-- The arm for a list of fields.
unfoldable pub parse_field_list : Text → List Token → Result Failure (SelectClause × List Token)
unfolding parse_fields
parse_field_list field ts = do
  (fields, rest) ← parse_fields ts
  if ltb max_select_fields (suc (length fields))
      then rejected
      else ok (SelectClause.fields (field ∷ fields), rest)

unfoldable pub parse_select : List Token → Result Failure (SelectClause × List Token)
parse_select (asterisk ∷ ts) = ok (SelectClause.all, ts)
parse_select (identifier s ∷ ts) =
    if eq_ignore_ascii_case s (text "uplink")
    then ok (SelectClause.uplink, ts)
    else if eq_ignore_ascii_case s (text "downlink")
    then ok (SelectClause.downlink, ts)
    else if eq_ignore_ascii_case s (text "join")
    then ok (SelectClause.join, ts)
    else if eq_ignore_ascii_case s (text "status")
    then ok (SelectClause.status, ts)
    else parse_field_list s ts
parse_select _ = rejected

unfoldable pub parse_from : List Token → Result Failure (Text × List Token)
unfolding expect_keyword
parse_from ts = do
  rest ← expect_keyword (text "device") ts
  elim rest [ string dev_eui ∷ rest' ↦ ok (dev_eui, rest') | _ ↦ rejected ]

unfoldable pub parse_limit : List Token → Result Failure (ℕ × List Token)
parse_limit (integer limit ∷ ts) = if limit == 0 then rejected else ok (limit, ts)
parse_limit _ = rejected

-- The value of digits, at least one.
abbrev pub parse_unsigned : Text → Option ℕ
parse_unsigned [] = none
parse_unsigned (d ∷ ds) = parse_digits 0 (d ∷ ds)

-- Minus the number, where it is an `i64`.
abbrev pub negative_i64 : ℕ → Option ℤ
negative_i64 zero = some (pos 0)
negative_i64 (suc m) = if ltb m (2 ^ 63) then some (negsuc m) else none

-- `str.parse::<i64>()`
unfoldable pub parse_i64 : Text → Option ℤ
parse_i64 [] = none
parse_i64 (c ∷ r) =
    if c == b'-'
    then and_then (parse_unsigned r) negative_i64
    else and_then (parse_unsigned (if c == b'+' then r else c ∷ r))
        (λ n. if ltb n (2 ^ 63) then some (pos n) else none)

-- The text without its last character, and the character.
abbrev pub split_last : ℕ → Text → Text × ℕ
split_last c [] = ([], c)
split_last c (d ∷ s) = (c ∷ (split_last d s).0, (split_last d s).1)

-- `str::trim`
abbrev pub trim_start : (ℕ → Bool) → Text → Text
trim_start p [] = []
trim_start p (c ∷ s) = let rest = trim_start p s in if p c then rest else c ∷ s

abbrev pub trim_end : (ℕ → Bool) → Text → Text
trim_end p [] = []
trim_end p (c ∷ s) = elim (trim_end p s) [ [] ↦ if p c then [] else c ∷ [] | d ∷ r ↦ c ∷ d ∷ r ]

-- A number of a unit, or a panic of the time library out of bounds.
abbrev pub duration : (ℤ → Option ℤ) → Text → Result Failure ℤ
duration unit num_str = elim (parse_i64 num_str) [
  | none ↦ rejected
  | some num ↦ elim (unit num) [ none ↦ err panic | some d ↦ ok d ]
]

module _ (u : CharClasses) (t : Chrono) where
  -- The slice before the last byte panics where the last character has more than one.
  unfoldable pub parse_duration : Text → Result Failure ℤ
  parse_duration s = elim (trim_start u.is_whitespace (trim_end u.is_whitespace s)) [
    | [] ↦ rejected
    | c ∷ r ↦
        let (init, last) = split_last c r in
        let seconds = duration t.seconds init in
        let minutes = duration t.minutes init in
        let hours = duration t.hours init in
        let days = duration t.days init in
        let weeks = duration t.weeks init in
        let short =
          if leb 128 last
          then err panic
          else if last == b's'
          then seconds
          else if last == b'm'
          then minutes
          else if last == b'h'
          then hours
          else if last == b'd'
          then days
          else if last == b'w'
          then weeks
          else rejected in
        elim init [
          | [] ↦ short
          | i ∷ is ↦
              let (num_str, m) = split_last i is in
              let millis = duration t.milliseconds num_str in
              if m == b'm' && last == b's' then millis else short
        ]
  ]

  unfoldable pub expect_timestamp : List Token → Result Failure (DateTime × List Token)
  expect_timestamp (string ts_str ∷ ts) = elim (t.parse_from_rfc3339 ts_str) [
    | none ↦ rejected
    | some dt ↦ ok (dt, ts)
  ]
  expect_timestamp _ = rejected

  unfoldable pub expect_duration : List Token → Result Failure (ℤ × List Token)
  unfolding parse_duration
  expect_duration (string dur_str ∷ ts) = do d ← parse_duration dur_str; ok (d, ts)
  expect_duration _ = rejected

  unfoldable pub parse_between : List Token → Result Failure (FilterClause × List Token)
  unfolding expect_timestamp expect_keyword
  parse_between ts = do
    (start, r) ← expect_timestamp ts
    r' ← expect_keyword (text "AND") r
    (stop, rest) ← expect_timestamp r'
    ok (FilterClause.between start stop, rest)

  unfoldable pub parse_since : List Token → Result Failure (FilterClause × List Token)
  unfolding expect_timestamp
  parse_since ts = do (start, rest) ← expect_timestamp ts; ok (FilterClause.since start, rest)

  unfoldable pub parse_last : List Token → Result Failure (FilterClause × List Token)
  unfolding expect_duration
  parse_last ts = do (d, rest) ← expect_duration ts; ok (FilterClause.last d, rest)

  unfoldable pub parse_filter : List Token → Result Failure (FilterClause × List Token)
  parse_filter (identifier s ∷ ts) =
      if eq_ignore_ascii_case s (text "BETWEEN")
      then parse_between ts
      else if eq_ignore_ascii_case s (text "SINCE")
      then parse_since ts
      else if eq_ignore_ascii_case s (text "LAST")
      then parse_last ts
      else rejected
  parse_filter _ = rejected

  -- The two optional clauses.
  unfoldable pub parse_where : List Token → Result Failure (Option FilterClause × List Token)
  parse_where ts =
      if peek_keyword (text "WHERE") ts
      then (do r ← expect_keyword (text "WHERE") ts; (f, rest) ← parse_filter r; ok (some f, rest))
      else ok (none, ts)

  unfoldable pub parse_limit_clause : List Token → Result Failure (Option ℕ × List Token)
  parse_limit_clause ts =
      if peek_keyword (text "LIMIT") ts
      then (do r ← expect_keyword (text "LIMIT") ts; (n, rest) ← parse_limit r; ok (some n, rest))
      else ok (none, ts)

  -- `parse` behind the tokenizer.
  unfoldable pub parse_tokens : List Token → Result Failure Query
  parse_tokens tokens = do
    r0 ← expect_keyword (text "SELECT") tokens
    (select, r1) ← parse_select r0
    r2 ← expect_keyword (text "FROM") r1
    (dev_eui, r3) ← parse_from r2
    (filter_clause, r4) ← parse_where r3
    (limit, r5) ← parse_limit_clause r4
    elim r5 [
      | [] ↦ ok (record {
        select = select;
        from_dev_eui = dev_eui;
        filter_clause = filter_clause;
        limit = limit;
      })
      | extra ∷ more ↦ rejected
    ]

  unfoldable pub parse : Text → Result Failure Query
  parse input = do tokens ← tokenize u input; parse_tokens tokens
