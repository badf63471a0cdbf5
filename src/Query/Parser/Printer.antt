-- ===== src/Query/Parser/Printer.antt =====
-- The queries that the language of src/query/parser.rs can express, and how they are printed.
use lo_ra_db.Prelude.{
  ℕ, suc, ◌*◌, ◌/◌, ◌%◌, ◌^◌, ◌≡◌, Bool, true, false, ◌&&◌, List, [], ◌∷◌, ◌++◌, some, none, Option,
  length, all, not, ltb, leb, ◌==◌, ◌||◌,
}
use lo_ra_db.Prelude.Int.{ℤ, pos, negsuc}
use lo_ra_db.Model.Text.{Text, text, eq_ignore_ascii_case}
use lo_ra_db.Model.Frames.{DateTime}
use lo_ra_db.Storage.{digits}
use lo_ra_db.Query.Dsl.{SelectClause, FilterClause, Query}
use lo_ra_db.Query.Lexer.{Token, identifier, string, integer, asterisk, comma}
use lo_ra_db.Query.Lexer.RoundTrip.{print_tokens, is_name}
use lo_ra_db.Query.Parser.{Chrono, max_select_fields}
use lo_ra_db.Query.Parser.Durations.{MillisLaw}

-- The years 0 to 9999, which RFC 3339 can express.
unfoldable pub in_rfc3339_range : DateTime → Bool
in_rfc3339_range t = elim t.nanos [
  | pos n ↦ ltb n (253402300800 * 10 ^ 9)
  | negsuc n ↦ ltb n (62167219200 * 10 ^ 9)
]

-- What is printed of an instant in the range is read back, and has no quote in it.
pub record TimeLaws (t : Chrono) (to_rfc3339 : DateTime → Text) : Type 0 where
  pub millis : MillisLaw t
  pub read_back :
      (d : DateTime) → in_rfc3339_range d ≡ true → t.parse_from_rfc3339 (to_rfc3339 d) ≡ some d
  pub no_quote : (d : DateTime) → all (λ c. not (c == 39)) (to_rfc3339 d) ≡ true

unfoldable pub field_tokens : List Text → List Token
field_tokens [] = []
field_tokens (f ∷ fs) = comma ∷ identifier f ∷ field_tokens fs

unfoldable pub select_tokens : SelectClause → List Token
unfolding field_tokens
select_tokens SelectClause.all = asterisk ∷ []
select_tokens SelectClause.uplink = identifier (text "uplink") ∷ []
select_tokens SelectClause.downlink = identifier (text "downlink") ∷ []
select_tokens SelectClause.join = identifier (text "join") ∷ []
select_tokens SelectClause.status = identifier (text "status") ∷ []
select_tokens (SelectClause.fields []) = []
select_tokens (SelectClause.fields (f ∷ fs)) = identifier f ∷ field_tokens fs

-- A duration is printed in milliseconds.
unfoldable pub print_duration : ℤ → Text
print_duration (pos n) = digits (suc (n / 1000000)) (n / 1000000) [] ++ text "ms"
print_duration (negsuc n) = []

unfoldable pub filter_tokens : (DateTime → Text) → Option FilterClause → List Token
unfolding print_duration
filter_tokens to_rfc3339 none = []
filter_tokens to_rfc3339 (some (FilterClause.between start stop)) =
    identifier (text "WHERE")
    ∷ identifier (text "BETWEEN")
    ∷ string (to_rfc3339 start)
    ∷ identifier (text "AND")
    ∷ string (to_rfc3339 stop)
    ∷ []
filter_tokens to_rfc3339 (some (FilterClause.since start)) =
    identifier (text "WHERE") ∷ identifier (text "SINCE") ∷ string (to_rfc3339 start) ∷ []
filter_tokens to_rfc3339 (some (FilterClause.last d)) =
    identifier (text "WHERE") ∷ identifier (text "LAST") ∷ string (print_duration d) ∷ []

unfoldable pub limit_tokens : Option ℕ → List Token
limit_tokens none = []
limit_tokens (some n) = identifier (text "LIMIT") ∷ integer n ∷ []

unfoldable pub query_tokens : (DateTime → Text) → Query → List Token
unfolding select_tokens filter_tokens limit_tokens
query_tokens to_rfc3339 q =
    identifier (text "SELECT")
    ∷ (select_tokens q.select
        ++ (identifier (text "FROM")
            ∷ identifier (text "device")
            ∷ string q.from_dev_eui
            ∷ (filter_tokens to_rfc3339 q.filter_clause ++ limit_tokens q.limit)))

unfoldable pub print_query : (DateTime → Text) → Query → Text
unfolding query_tokens
print_query to_rfc3339 q = print_tokens (query_tokens to_rfc3339 q)

abbrev pub is_select_keyword : Text → Bool
is_select_keyword s =
    eq_ignore_ascii_case s (text "uplink")
    || eq_ignore_ascii_case s (text "downlink")
    || eq_ignore_ascii_case s (text "join")
    || eq_ignore_ascii_case s (text "status")

unfoldable pub is_printable_select : SelectClause → Bool
is_printable_select (SelectClause.fields []) = false
is_printable_select (SelectClause.fields (f ∷ fs)) =
    not (is_select_keyword f) && all is_name (f ∷ fs) && leb (suc (length fs)) max_select_fields
is_printable_select _ = true

unfoldable pub is_printable_filter : Option FilterClause → Bool
unfolding in_rfc3339_range
is_printable_filter none = true
is_printable_filter (some (FilterClause.between start stop)) =
    in_rfc3339_range start && in_rfc3339_range stop
is_printable_filter (some (FilterClause.since start)) = in_rfc3339_range start
is_printable_filter (some (FilterClause.last (pos n))) =
    n % 1000000 == 0 && ltb (n / 1000000) (2 ^ 63)
is_printable_filter (some (FilterClause.last (negsuc n))) = false

unfoldable pub is_printable_limit : Option ℕ → Bool
is_printable_limit none = true
is_printable_limit (some n) = ltb 0 n && ltb n (2 ^ 64)

-- The queries that the language can express, in whole milliseconds.
unfoldable pub is_printable_query : Query → Bool
unfolding is_printable_select is_printable_filter is_printable_limit
is_printable_query q =
    is_printable_select q.select
    && all (λ c. not (c == 39)) q.from_dev_eui
    && is_printable_filter q.filter_clause
    && is_printable_limit q.limit
