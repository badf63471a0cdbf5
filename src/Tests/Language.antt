-- ===== src/Tests/Language.antt =====
-- Runs of the tokenizer and the parser.
use lo_ra_db.Prelude.{
  ℕ, ◌+◌, ◌-◌, ◌*◌, ◌<◌, ◌≡◌, refl, ap, true, false, ◌||◌, Option, none, some, [], ◌∷◌, ok, arith,
  all, not, ◌==◌, if◌then◌else◌,
}
use lo_ra_db.Prelude.Int.{ℤ, pos, negsuc}
use lo_ra_db.Model.Text.{Text, text, eq_ignore_ascii_case}
use lo_ra_db.Model.Frames.{DateTime}
use lo_ra_db.Query.Dsl.{SelectClause, FilterClause, Query}
use lo_ra_db.Query.Lexer.{CharClasses, AsciiLaws, is_digit, is_letter, tokenize, tokenize_from}
use lo_ra_db.Query.Lexer.Tokens.{tokenize_total}
use lo_ra_db.Query.Lexer.RoundTrip.{is_name}
use lo_ra_db.Query.Parser.{Chrono, parse}
use lo_ra_db.Query.Parser.Printer.{TimeLaws, print_query, is_printable_query}
use lo_ra_db.Query.Parser.RoundTrip.{parse-print_query}
use lo_ra_db.Query.Parser.Bounds.{is_bounded_select, is_bounded_limit, parse-bounded}

abbrev pub ascii : CharClasses
ascii = record {
  is_numeric = is_digit;
  is_alphanumeric = λ c. is_letter c || is_digit c;
  is_whitespace = λ c. c == 32;
}

above_blank : (c : ℕ) → 32 < c → (c == 32) ≡ false
above_blank c h = ground arith

pub ascii-laws : AsciiLaws ascii
ascii-laws = record {
  numeric = λ c h. refl;
  alphanumeric = λ c h. refl;
  whitespace = λ c h k. above_blank c h;
}

abbrev seconds_of : ℕ → ℤ → Option ℤ
seconds_of k (pos n) = some (pos (n * (k * 1000000)))
seconds_of k (negsuc n) = none

-- An instant as its sign and its nanoseconds, both shifted past the quote.
abbrev pub print_time : DateTime → Text
print_time t = elim t.nanos [ pos n ↦ 40 ∷ (n + 40) ∷ [] | negsuc n ↦ 41 ∷ (n + 40) ∷ [] ]

abbrev read_time : Text → Option DateTime
read_time (s ∷ n ∷ []) =
    if s == 40
    then some (record { nanos = pos (n - 40) })
    else some (record { nanos = negsuc (n - 40) })
read_time _ = none

abbrev pub chrono : Chrono
chrono = record {
  parse_from_rfc3339 = read_time;
  milliseconds = seconds_of 1;
  seconds = seconds_of 1000;
  minutes = seconds_of 60000;
  hours = seconds_of 3600000;
  days = seconds_of 86400000;
  weeks = seconds_of 604800000;
}

pub read_time-print_time : (d : DateTime) → read_time (print_time d) ≡ some d
read_time-print_time d = go d.nanos
  where
    go : (n : ℤ) → read_time (print_time (record { nanos = n })) ≡ some (record { nanos = n })
    go (pos n) = ap (λ k. some (record { nanos = pos k })) (omega arith)
    go (negsuc n) = ap (λ k. some (record { nanos = negsuc k })) (omega arith)

print_time-no_quote : (d : DateTime) → all (λ c. not (c == 39)) (print_time d) ≡ true
print_time-no_quote d = go d.nanos
  where
    go : (n : ℤ) → all (λ c. not (c == 39)) (print_time (record { nanos = n })) ≡ true
    go (pos n) = ground arith
    go (negsuc n) = ground arith

pub time-laws : TimeLaws chrono print_time
time-laws = record {
  millis = record { milliseconds = λ n h. refl };
  read_back = λ d h. read_time-print_time d;
  no_quote = print_time-no_quote;
}

abbrev pub last_hour : Query
last_hour = record {
  select = SelectClause.fields (text "received_at" ∷ text "decoded.temp" ∷ []);
  from_dev_eui = text "0123456789abcdef";
  filter_clause = some (FilterClause.last (pos 3600000000000));
  limit = some 5;
}

pub last_hour-printable : is_printable_query last_hour ≡ true
unfolding is_printable_query eq_ignore_ascii_case is_name
last_hour-printable = refl

tokenize_total_example :
    tokenize_from ascii 9 (text "LIMIT 5") ≡ some (tokenize ascii (text "LIMIT 5"))
tokenize_total_example = tokenize_total ascii 9 (text "LIMIT 5") (omega arith)

parse-print_query_example : parse ascii chrono (print_query print_time last_hour) ≡ ok last_hour
parse-print_query_example =
    parse-print_query ascii ascii-laws chrono print_time time-laws last_hour last_hour-printable

parse-bounded_example :
    (is_bounded_select last_hour.select ≡ true) × (is_bounded_limit last_hour.limit ≡ true)
parse-bounded_example =
    parse-bounded ascii chrono (print_query print_time last_hour) last_hour
      (parse-print_query ascii ascii-laws chrono print_time time-laws last_hour last_hour-printable)
