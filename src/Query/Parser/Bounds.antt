-- ===== src/Query/Parser/Bounds.antt =====
-- The bounds that the parser of src/query/parser.rs puts on a query.
use lo_ra_db.Prelude.{
  ℕ, suc, ◌≡◌, refl, Bool, true, false, ◌&&◌, List, [], ◌∷◌, some, none, Option, Result, ok, err,
  length, arith, leb, ltb, Bool-cases, inl, inr, ◌>>=◌, if◌then◌else◌, subst,
}
use lo_ra_db.Model.Text.{Text, text, eq_ignore_ascii_case}
use lo_ra_db.Query.Dsl.{SelectClause, Query}
use lo_ra_db.Query.Lexer.{
  Failure, Token, identifier, asterisk, string, integer, comma, CharClasses, rejected, tokenize,
}
use lo_ra_db.Query.Parser.{
  Chrono, expect_keyword, peek_keyword, parse_select, parse_fields, max_select_fields, parse_from,
  parse_field_list, parse_where, parse_limit, parse_limit_clause, parse_tokens, parse,
}

-- A list of fields has 1 to 100 names.
unfoldable pub is_bounded_select : SelectClause → Bool
is_bounded_select (SelectClause.fields fs) = leb 1 (length fs) && leb (length fs) 100
is_bounded_select _ = true

-- A limit is positive.
unfoldable pub is_bounded_limit : Option ℕ → Bool
is_bounded_limit none = true
is_bounded_limit (some n) = ltb 0 n

-- What a result holds satisfies a test.
abbrev Holds {ℓ} : {A : Type ℓ} → (A → Bool) → Result Failure A → Type 0
Holds p (ok a) = p a ≡ true
Holds p (err e) = Unit

Holds-bind {ℓ κ} :
    {A : Type ℓ} {B : Type κ} (p : A → Bool) (q : B → Bool) (r : Result Failure A)
    (f : A → Result Failure B)
    → Holds p r
    → ((a : A) → p a ≡ true → Holds q (f a))
    → Holds q (r >>= f)
Holds-bind p q (ok a) f h k = k a h
Holds-bind p q (err e) f h k = tt

Holds-any {ℓ} : {A : Type ℓ} (r : Result Failure A) → Holds (λ _. true) r
Holds-any (ok a) = refl
Holds-any (err e) = tt

Holds-if {ℓ} :
    {A : Type ℓ} (p : A → Bool) (b : Bool) (x y : Result Failure A)
    → Holds p x
    → Holds p y
    → Holds p (if b then x else y)
Holds-if p true x y h k = h
Holds-if p false x y h k = k

Holds-end {ℓ} :
    {A : Type ℓ} (p : A → Bool) (a : A) (ts : List Token)
    → p a ≡ true
    → Holds p (elim ts [ [] ↦ ok a | extra ∷ more ↦ rejected ])
Holds-end p a [] h = h
Holds-end p a (t ∷ ts) h = tt

parse_field_list-Holds :
    (f : Text) (ts : List Token) → Holds (λ r. is_bounded_select r.0) (parse_field_list f ts)
unfolding parse_field_list is_bounded_select
parse_field_list-Holds f ts =
    Holds-bind (λ _. true) _ (parse_fields ts) _ (Holds-any (parse_fields ts))
      (λ r _. elim (Bool-cases (ltb max_select_fields (suc (length r.0)))) [
        | inl e ↦ rw e tt
        | inr e ↦ rw e (ground arith)
      ])

parse_select-Holds : (ts : List Token) → Holds (λ r. is_bounded_select r.0) (parse_select ts)
unfolding parse_select is_bounded_select
parse_select-Holds [] = tt
parse_select-Holds (asterisk ∷ ts) = refl
parse_select-Holds (comma ∷ ts) = tt
parse_select-Holds (string s ∷ ts) = tt
parse_select-Holds (integer n ∷ ts) = tt
parse_select-Holds (identifier s ∷ ts) =
    Holds-if _ (eq_ignore_ascii_case s (text "uplink")) _ _ refl (
      Holds-if _ (eq_ignore_ascii_case s (text "downlink")) _ _ refl (
        Holds-if _ (eq_ignore_ascii_case s (text "join")) _ _ refl (
          Holds-if _ (eq_ignore_ascii_case s (text "status")) _ _ refl
            (parse_field_list-Holds s ts))))

parse_limit-Holds : (ts : List Token) → Holds (λ r. ltb 0 r.0) (parse_limit ts)
unfolding parse_limit
parse_limit-Holds (integer n ∷ ts) = ground arith
parse_limit-Holds [] = tt
parse_limit-Holds (asterisk ∷ ts) = tt
parse_limit-Holds (comma ∷ ts) = tt
parse_limit-Holds (string s ∷ ts) = tt
parse_limit-Holds (identifier s ∷ ts) = tt

module _ (u : CharClasses) (t : Chrono) where
  parse_limit_clause-Holds :
      (ts : List Token) → Holds (λ r. is_bounded_limit r.0) (parse_limit_clause u t ts)
  unfolding parse_limit_clause is_bounded_limit
  parse_limit_clause-Holds ts =
      Holds-if _ (peek_keyword (text "LIMIT") ts) _ _
        (Holds-bind (λ _. true) _ (expect_keyword (text "LIMIT") ts) _ (Holds-any _)
          (λ r _. Holds-bind _ _ (parse_limit r) _ (parse_limit-Holds r) (λ a h. h)))
        refl

  parse_tokens-Holds :
      (ts : List Token)
      → Holds (λ q. is_bounded_select q.select && is_bounded_limit q.limit) (parse_tokens u t ts)
  unfolding parse_tokens
  parse_tokens-Holds ts =
      Holds-bind (λ _. true) _ (expect_keyword (text "SELECT") ts) _ (Holds-any _)
        (λ r0 _.
          Holds-bind (λ r. is_bounded_select r.0) _ (parse_select r0) _ (parse_select-Holds r0)
            (λ r1 hs.
              Holds-bind (λ _. true) _ (expect_keyword (text "FROM") r1.1) _ (Holds-any _)
                (λ r2 _.
                  Holds-bind (λ _. true) _ (parse_from r2) _ (Holds-any _)
                    (λ r3 _.
                      Holds-bind (λ _. true) _ (parse_where u t r3.1) _ (Holds-any _)
                        (λ r4 _.
                          Holds-bind (λ r. is_bounded_limit r.0) _ (parse_limit_clause u t r4.1) _
                            (parse_limit_clause-Holds r4.1)
                            (λ r5 hl. Holds-end _ _ r5.1 (ground (arith, hs, hl))))))))

  -- A query that the parser returns has a positive limit, if it has one, and, if it selects by name,
  -- at least one and at most 100 names.
  pub parse-bounded :
      (input : Text) (q : Query)
      → parse u t input ≡ ok q
      → (is_bounded_select q.select ≡ true) × (is_bounded_limit q.limit ≡ true)
  unfolding parse
  parse-bounded input q h =
      let held =
        Holds-bind (λ _. true) (λ q. is_bounded_select q.select && is_bounded_limit q.limit)
          (tokenize u input) (parse_tokens u t) (Holds-any _) (λ ts _. parse_tokens-Holds ts) in
      let both =
        subst (Holds (λ q. is_bounded_select q.select && is_bounded_limit q.limit)) h held in
      (ground (arith, both), ground (arith, both))
