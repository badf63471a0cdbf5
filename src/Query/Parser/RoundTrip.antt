-- ===== src/Query/Parser/RoundTrip.antt =====
-- The parser of src/query/parser.rs reads back a printed query.
use lo_ra_db.Prelude.{
  ℕ, zero, suc, ◌*◌, ◌/◌, ◌%◌, ◌^◌, ◌≡◌, refl, Bool, true, false, List, [], ◌∷◌, ◌++◌, some, none,
  Option, ok, length, arith, all, not, leb, ltb→lt, ==→≡, ◌∙◌, ap, ◌==◌,
}
use lo_ra_db.Prelude.Int.{ℤ, pos, negsuc}
use lo_ra_db.Model.Text.{Text, text, eq_ignore_ascii_case}
use lo_ra_db.Model.Frames.{DateTime}
use lo_ra_db.Storage.{digits}
use lo_ra_db.Query.Dsl.{SelectClause, FilterClause, Query}
use lo_ra_db.Query.Lexer.{Token, identifier, string, CharClasses, AsciiLaws, is_digit}
use lo_ra_db.Query.Lexer.RoundTrip.{
  tokenize-print_tokens, all-implied, is_printable, is_name, length-digits, parse_digits-all_digits,
}
use lo_ra_db.Query.Lexer.Step.{all-digits}
use lo_ra_db.Query.Parser.{
  Chrono, max_select_fields, parse_fields, parse_field_list, parse_select, parse_where,
  parse_limit_clause, parse_tokens, parse, parse_filter, parse_duration, peek_keyword,
  expect_keyword, parse_limit, expect_timestamp, expect_duration, parse_from, parse_between,
  parse_since, parse_last,
}
use lo_ra_db.Query.Parser.Durations.{parse_duration_millis}
use lo_ra_db.Query.Parser.Printer.{
  field_tokens, select_tokens, print_duration, filter_tokens, limit_tokens, query_tokens,
  print_query, is_printable_select, is_printable_filter, is_printable_limit, is_printable_query,
  TimeLaws,
}

parse_fields-field_tokens :
    (fs : List Text) (s : Text) (rest : List Token)
    → parse_fields (field_tokens fs ++ identifier s ∷ rest) ≡ ok (fs, identifier s ∷ rest)
unfolding parse_fields field_tokens
parse_fields-field_tokens [] s rest = refl
parse_fields-field_tokens (f ∷ fs) s rest = rw (parse_fields-field_tokens fs s rest) refl

parse_field_list-field_tokens :
    (f : Text) (fs : List Text) (s : Text) (rest : List Token)
    → leb (suc (length fs)) max_select_fields ≡ true
    → parse_field_list f (field_tokens fs ++ identifier s ∷ rest)
      ≡ ok (SelectClause.fields (f ∷ fs), identifier s ∷ rest)
unfolding parse_field_list
parse_field_list-field_tokens f fs s rest h =
    rw (parse_fields-field_tokens fs s rest) (ground arith)

parse_select-select_tokens :
    (c : SelectClause) (s : Text) (rest : List Token)
    → is_printable_select c ≡ true
    → parse_select (select_tokens c ++ identifier s ∷ rest) ≡ ok (c, identifier s ∷ rest)
unfolding parse_select select_tokens is_printable_select eq_ignore_ascii_case
parse_select-select_tokens SelectClause.all s rest h = refl
parse_select-select_tokens SelectClause.uplink s rest h = refl
parse_select-select_tokens SelectClause.downlink s rest h = refl
parse_select-select_tokens SelectClause.join s rest h = refl
parse_select-select_tokens SelectClause.status s rest h = refl
parse_select-select_tokens (SelectClause.fields []) s rest h = cc
parse_select-select_tokens (SelectClause.fields (f ∷ fs)) s rest h =
    ground (arith, parse_field_list-field_tokens f fs s rest)

module _ (u : CharClasses) (law : AsciiLaws u) (t : Chrono) (to_rfc3339 : DateTime → Text)
    (time : TimeLaws t to_rfc3339) where
  parse_limit_clause-limit_tokens :
      (l : Option ℕ)
      → is_printable_limit l ≡ true
      → parse_limit_clause u t (limit_tokens l) ≡ ok (l, [])
  unfolding parse_limit_clause limit_tokens is_printable_limit eq_ignore_ascii_case peek_keyword
      expect_keyword parse_limit
  parse_limit_clause-limit_tokens none h = refl
  parse_limit_clause-limit_tokens (some zero) h = cc
  parse_limit_clause-limit_tokens (some (suc n)) h = ground arith

  peek_limit_tokens : (l : Option ℕ) → peek_keyword (text "WHERE") (limit_tokens l) ≡ false
  unfolding limit_tokens eq_ignore_ascii_case peek_keyword
  peek_limit_tokens none = refl
  peek_limit_tokens (some n) = refl

  parse_duration-print_duration :
      (n : ℕ)
      → is_printable_filter (some (FilterClause.last (pos n))) ≡ true
      → parse_duration u t (print_duration (pos n)) ≡ ok (pos n)
  unfolding print_duration is_printable_filter
  parse_duration-print_duration n h =
      let k = n / 1000000 in
      let whole : k * 1000000 ≡ n = omega (arith, ==→≡ (n % 1000000) 0 (ground (arith, h))) in
      parse_duration_millis u law t time.millis (digits (suc k) k []) k
        (all-digits (suc k) k [] refl) (length-digits k k []) (parse_digits-all_digits k)
        (ltb→lt k (2 ^ 63) (ground (arith, h)))
      ∙ ap (λ j. ok (pos j)) whole

  parse_where-filter_tokens :
      (f : Option FilterClause) (l : Option ℕ)
      → is_printable_filter f ≡ true
      → parse_where u t (filter_tokens to_rfc3339 f ++ limit_tokens l) ≡ ok (f, limit_tokens l)
  unfolding parse_where filter_tokens peek_keyword eq_ignore_ascii_case expect_keyword parse_filter
      expect_timestamp is_printable_filter parse_between parse_since parse_last limit_tokens
  parse_where-filter_tokens none l h = rw (peek_limit_tokens l) refl
  parse_where-filter_tokens (some (FilterClause.between start stop)) l h =
      rw
        (
          time.read_back start (ground (arith, h)),
          time.read_back stop (ground (arith, h)),
          parse_between,
          expect_timestamp,
        )
        refl
  parse_where-filter_tokens (some (FilterClause.since start)) l h =
      rw (time.read_back start (ground (arith, h)), parse_since, expect_timestamp) refl
  parse_where-filter_tokens (some (FilterClause.last (pos n))) l h =
      rw (parse_duration-print_duration n h, parse_last, expect_duration) refl
  parse_where-filter_tokens (some (FilterClause.last (negsuc n))) l h = cc

  pub parse_tokens-query_tokens :
      (q : Query)
      → is_printable_query q ≡ true
      → parse_tokens u t (query_tokens to_rfc3339 q) ≡ ok q
  unfolding parse_tokens query_tokens is_printable_query expect_keyword eq_ignore_ascii_case
      parse_from
  parse_tokens-query_tokens q h =
      rw
        (
          parse_select-select_tokens q.select (text "FROM")
              (identifier (text "device")
                ∷ string q.from_dev_eui
                ∷ (filter_tokens to_rfc3339 q.filter_clause ++ limit_tokens q.limit))
              (ground (arith, h)),
          parse_where-filter_tokens q.filter_clause q.limit (ground (arith, h)),
          parse_limit_clause-limit_tokens q.limit (ground (arith, h)),
        )
        refl

field_tokens-printable :
    (fs : List Text) → all is_name fs ≡ true → all is_printable (field_tokens fs) ≡ true
unfolding field_tokens is_printable
field_tokens-printable [] h = refl
field_tokens-printable (f ∷ fs) h = ground (arith, field_tokens-printable fs)

all-append {ℓ} :
    {A : Type ℓ} (p : A → Bool) (xs ys : List A)
    → all p xs ≡ true
    → all p ys ≡ true
    → all p (xs ++ ys) ≡ true
all-append p [] ys h k = k
all-append p (x ∷ xs) ys h k = ground (arith, all-append p xs ys)

select_tokens-printable :
    (c : SelectClause) → is_printable_select c ≡ true → all is_printable (select_tokens c) ≡ true
unfolding select_tokens is_printable_select is_printable is_name
select_tokens-printable SelectClause.all h = refl
select_tokens-printable SelectClause.uplink h = refl
select_tokens-printable SelectClause.downlink h = refl
select_tokens-printable SelectClause.join h = refl
select_tokens-printable SelectClause.status h = refl
select_tokens-printable (SelectClause.fields []) h = refl
select_tokens-printable (SelectClause.fields (f ∷ fs)) h = ground (arith, field_tokens-printable fs)

limit_tokens-printable :
    (l : Option ℕ) → is_printable_limit l ≡ true → all is_printable (limit_tokens l) ≡ true
unfolding limit_tokens is_printable_limit is_printable is_name
limit_tokens-printable none h = refl
limit_tokens-printable (some n) h = ground arith

digit_not_quote : (c : ℕ) → is_digit c ≡ true → not (c == 39) ≡ true
digit_not_quote c h = ground arith

print_duration-printable : (d : ℤ) → all (λ c. not (c == 39)) (print_duration d) ≡ true
unfolding print_duration
print_duration-printable (pos n) =
    let k = n / 1000000 in
    all-append (λ c. not (c == 39)) (digits (suc k) k []) (text "ms")
      (all-implied is_digit (λ c. not (c == 39)) (digits (suc k) k []) digit_not_quote
        (all-digits (suc k) k [] refl))
      refl
print_duration-printable (negsuc n) = refl

module _ (u : CharClasses) (law : AsciiLaws u) (t : Chrono) (to_rfc3339 : DateTime → Text)
    (time : TimeLaws t to_rfc3339) where
  filter_tokens-printable :
      (f : Option FilterClause) → all is_printable (filter_tokens to_rfc3339 f) ≡ true
  unfolding filter_tokens is_printable is_name
  filter_tokens-printable none = refl
  filter_tokens-printable (some (FilterClause.between start stop)) =
      ground (arith, time.no_quote start, time.no_quote stop)
  filter_tokens-printable (some (FilterClause.since start)) = ground (arith, time.no_quote start)
  filter_tokens-printable (some (FilterClause.last d)) = ground (arith, print_duration-printable d)

  query_tokens-printable :
      (q : Query)
      → is_printable_query q ≡ true
      → all is_printable (query_tokens to_rfc3339 q) ≡ true
  unfolding query_tokens is_printable_query is_printable is_name
  query_tokens-printable q h =
      all-append is_printable (select_tokens q.select) _
        (select_tokens-printable q.select (ground (arith, h)))
        (ground (
          arith,
          h,
          all-append is_printable (filter_tokens to_rfc3339 q.filter_clause) (limit_tokens q.limit)
              (filter_tokens-printable q.filter_clause)
              (limit_tokens-printable q.limit (ground (arith, h))),
        ))

  pub parse-print_query :
      (q : Query) → is_printable_query q ≡ true → parse u t (print_query to_rfc3339 q) ≡ ok q
  unfolding parse print_query
  parse-print_query q h =
      rw (tokenize-print_tokens u law (query_tokens to_rfc3339 q) (query_tokens-printable q h))
        (parse_tokens-query_tokens u law t to_rfc3339 time q h)
