-- ===== src/Api/Middleware/Headers.antt =====
-- The headers that src/api/middleware.rs puts on a response.
use lo_ra_db.Prelude.{
  ◌≡◌, ◌≢◌, refl, Option, none, some, List, [], ◌∷◌, All, ◌∙◌, ap, sym, Bool-cases, inl, inr,
}
use lo_ra_db.Prelude.Assoc
use lo_ra_db.Prelude.Order.{list_ord, nat_ord, cmp_list}
use lo_ra_db.Model.Text.{Text, text, text_ord, eq_text, eq_text_self, eq_of_eq_text}
use lo_ra_db.Api.Middleware.{HeaderMap, security_headers}

-- The first of two values that is there.
abbrev pub or_else : Option Text → Option Text → Option Text
or_else none b = b
or_else (some a) b = some a

insert_each : List (Text × Text) → HeaderMap → HeaderMap
insert_each [] headers = headers
insert_each (e ∷ l) headers = Assoc.insert e.0 e.1 (insert_each l headers)

insert_each-IsSorted :
    (l : List (Text × Text)) (headers : HeaderMap)
    → Assoc.IsSorted headers
    → Assoc.IsSorted (insert_each l headers)
unfolding insert_each
insert_each-IsSorted [] headers h = h
insert_each-IsSorted (e ∷ l) headers h =
    Assoc.insert-IsSorted e.0 e.1 (insert_each l headers) (insert_each-IsSorted l headers h)

get-insert_each :
    (name : Text) (l : List (Text × Text)) (headers : HeaderMap)
    → Assoc.IsSorted headers
    → Assoc.get name (insert_each l headers)
      ≡ or_else (Assoc.get name (insert_each l [])) (Assoc.get name headers)
unfolding insert_each
get-insert_each name [] headers h = unfold Assoc.get in refl
get-insert_each name ((k, v) ∷ l) headers h = elim (Bool-cases (eq_text k name)) [
  | inl e ↦
      let same : k ≡ name = eq_of_eq_text k name e in
      rw (← same) (
        Assoc.get-insert_self k v (insert_each l headers)
        ∙ ap (λ o. or_else o (Assoc.get k headers))
            (sym (Assoc.get-insert_self k v (insert_each l []))))
  | inr e ↦
      let differ : k ≢ name = λ same. cc (e, ap (eq_text k) (sym same), eq_text_self k) in
      Assoc.get-insert_ne k name v (insert_each l headers) (insert_each-IsSorted l headers h) differ
      ∙ get-insert_each name l headers h
      ∙ ap (λ o. or_else o (Assoc.get name headers))
          (sym
            (Assoc.get-insert_ne k name v (insert_each l []) (insert_each-IsSorted l [] tt) differ))
]

-- The six headers and their values.
abbrev pub policy : List (Text × Text)
policy =
    (text "referrer-policy", text "no-referrer")
    ∷ (text "x-xss-protection", text "1; mode=block")
    ∷ (text "x-content-type-options", text "nosniff")
    ∷ (text "x-frame-options", text "DENY")
    ∷ (text "content-security-policy", text "default-src 'self'; frame-ancestors 'none'")
    ∷ (text "strict-transport-security", text "max-age=31536000; includeSubDomains")
    ∷ []

-- Whatever headers the handler set, the response has the six security headers with their own values,
-- and under any other name, one that the policy alone does not set, what the handler set.
pub get-security_headers :
    (name : Text) (headers : HeaderMap)
    → Assoc.IsSorted headers
    → All (λ e. Assoc.get e.0 (security_headers headers) ≡ some e.1) policy
      × (Assoc.get name (security_headers headers)
          ≡ or_else (Assoc.get name (security_headers [])) (Assoc.get name headers))
unfolding security_headers insert_each Assoc.get Assoc.insert cmp_list
get-security_headers name headers h = (
  (
    get-insert_each (text "referrer-policy") policy headers h,
    (
      get-insert_each (text "x-xss-protection") policy headers h,
      (
        get-insert_each (text "x-content-type-options") policy headers h,
        (
          get-insert_each (text "x-frame-options") policy headers h,
          (
            get-insert_each (text "content-security-policy") policy headers h,
            (get-insert_each (text "strict-transport-security") policy headers h, tt),
          ),
        ),
      ),
    ),
  ),
  get-insert_each name policy headers h,
)
