-- ===== src/Tests/Security.antt =====
-- Runs of the signed tokens and of the authentication.
use lo_ra_db.Prelude.{
  ℕ, zero, suc, ◌+◌, ◌*◌, ◌/◌, ◌^◌, ◌≡◌, ◌↔◌, refl, ap, ◌∙◌, true, Option, none, some, [], ◌∷◌,
  ◌++◌, length, take, drop, ok, err, arith, ltb, if◌then◌else◌, All, take-append, drop-append, sym,
  some-injective, ◌≤◌,
}
use lo_ra_db.Prelude.Int.{ℤ, pos, negsuc}
use lo_ra_db.Prelude.Assoc
use lo_ra_db.Model.Text.{Text, text, text_ord, starts_with}
use lo_ra_db.Model.Lorawan.{LoraDbError, error}
use lo_ra_db.Model.Frames.{DateTime}
use lo_ra_db.Security.ApiToken.{Tokens}
use lo_ra_db.Security.Jwt
use lo_ra_db.Security.Jwt.{Claims, JwtService, Signer, service_of, refresh_token}
use lo_ra_db.Security.Jwt.Refresh.{at, SignerLaws, refreshed, validate_token-refresh_token}
use lo_ra_db.Api.Middleware.{
  api_token, AuthMiddleware, unauthorized, jwt_auth, HeaderMap, security_headers,
}
use lo_ra_db.Api.Middleware.Authentication.{Vouched, jwt_auth-iff_Vouched, jwt_auth-revoked}
use lo_ra_db.Api.Middleware.Headers.{policy, or_else, get-security_headers}
use lo_ra_db.Tests.ApiTokens.{
  toy_services, token, stored, store, cleaned, after_revocation, stored-get, only_one,
}

-- Claims as a text: the two times with their signs, the role behind its length, and the subject.
abbrev encode_time : ℤ → Text → Text
encode_time (pos n) rest = 0 ∷ n ∷ rest
encode_time (negsuc n) rest = 1 ∷ n ∷ rest

abbrev encode_role : Option Text → Text → Text
encode_role none sub = 0 ∷ sub
encode_role (some r) sub = suc (length r) ∷ (r ++ sub)

abbrev encode_claims : Claims → Text
encode_claims c = encode_time c.exp (encode_time c.iat (encode_role c.role c.sub))

abbrev decode_sign : ℕ → ℕ → ℤ
decode_sign zero n = pos n
decode_sign (suc k) n = negsuc n

abbrev decode_role : ℤ → ℤ → Text → Option Claims
decode_role exp iat [] = none
decode_role exp iat (zero ∷ s) = some (record { sub = s; exp = exp; iat = iat; role = none })
decode_role exp iat (suc k ∷ s) =
    some (record { sub = drop k s; exp = exp; iat = iat; role = some (take k s) })

abbrev decode_claims : Text → Option Claims
decode_claims (a ∷ m ∷ b ∷ n ∷ s) = decode_role (decode_sign a m) (decode_sign b n) s
decode_claims _ = none

abbrev seconds_of : DateTime → ℕ
seconds_of t = elim t.nanos [ pos n ↦ n / 1000000000 | negsuc n ↦ 0 ]

abbrev unless_over : JwtService → ℕ → Option Claims → Option Claims
unless_over s now none = none
unless_over s now (some c) = elim c.exp [
  | pos exp ↦ if ltb (exp + s.leeway) now then none else some c
  | negsuc n ↦ none
]

abbrev toy_signer : Signer
toy_signer = record {
  encode = λ secret c. some (encode_claims c);
  decode = λ t s token. unless_over s (seconds_of t) (decode_claims token);
  decode_base64 = λ s. some s;
  as_bytes = λ s. s;
  add_hours = λ t h. elim t.nanos [ pos n ↦ some (at (n + 3600000000000)) | negsuc n ↦ none ];
  from_timestamp = λ s. none;
}

decode-encode_role :
    (exp iat : ℤ) (role : Option Text) (sub : Text)
    → decode_role exp iat (encode_role role sub)
      ≡ some (record { sub = sub; exp = exp; iat = iat; role = role })
decode-encode_role exp iat none sub = refl
decode-encode_role exp iat (some r) sub =
    ap
      (λ z.
        some (record { sub = z; exp = exp; iat = iat; role = some (take (length r) (r ++ sub)) }))
      (drop-append r sub)
    ∙ ap (λ z. some (record { sub = sub; exp = exp; iat = iat; role = some z })) (take-append r sub)

decode-encode_claims : (c : Claims) → decode_claims (encode_claims c) ≡ some c
decode-encode_claims c = go c.exp c.iat
  where
    go :
        (exp iat : ℤ)
        → decode_claims (encode_time exp (encode_time iat (encode_role c.role c.sub)))
          ≡ some (record c { exp = exp; iat = iat })
    go (pos m) (pos n) = decode-encode_role (pos m) (pos n) c.role c.sub
    go (pos m) (negsuc n) = decode-encode_role (pos m) (negsuc n) c.role c.sub
    go (negsuc m) (pos n) = decode-encode_role (negsuc m) (pos n) c.role c.sub
    go (negsuc m) (negsuc n) = decode-encode_role (negsuc m) (negsuc n) c.role c.sub

unless_over-some :
    (s : JwtService) (c : Claims) (exp now : ℕ)
    → c.exp ≡ pos exp
    → unless_over s now (some c) ≡ (if ltb (exp + s.leeway) now then none else some c)
unless_over-some s c exp now e =
    ap
      (λ z. elim z as (λ _. Option Claims) [
        | pos end ↦ if ltb (end + s.leeway) now then none else some c
        | negsuc n ↦ none
      ])
      e

decode-encode :
    (s : JwtService) (c : Claims) (token : Text) (exp now : ℕ)
    → s.validate_exp ≡ true
    → toy_signer.encode s.secret c ≡ some token
    → c.exp ≡ pos exp
    → s.leeway ≤ now / 1000000000
    → toy_signer.decode (at now) s token
      ≡ (if ltb (exp + s.leeway) (now / 1000000000) then none else some c)
decode-encode s c written exp now checks signed ends late =
    ap (λ t. unless_over s (now / 1000000000) (decode_claims t)) (sym (some-injective _ _ signed))
    ∙ ap (unless_over s (now / 1000000000)) (decode-encode_claims c)
    ∙ unless_over-some s c exp (now / 1000000000) ends

toy_signer_laws : SignerLaws toy_signer
toy_signer_laws = record {
  encodes = λ secret c. (encode_claims c, refl);
  decodes = decode-encode;
  adds_hour = λ now early. refl;
}

abbrev claims : Claims
claims = record { sub = text "ann"; exp = pos 4000; iat = pos 400; role = some (text "admin") }

abbrev noon : ℕ
noon = 3000 * 10 ^ 9

abbrev night : ℕ
night = 7000 * 10 ^ 9

claims-valid :
    Jwt.validate_token toy_signer (at noon) (service_of (text "key")) (encode_claims claims)
    ≡ ok claims
unfolding Jwt.validate_token
claims-valid = refl

validate_token-refresh_token_example :
    (new_token : Text) × (refresh_token toy_signer
        (at noon)
        (service_of (text "key"))
        (encode_claims claims)
      ≡ ok new_token)
    × (Jwt.validate_token toy_signer (at night) (service_of (text "key")) new_token ≡ (
        if ltb (noon / 1000000000 + 3660) (night / 1000000000)
        then err (error LoraDbError.auth_error)
        else ok (refreshed noon (text "ann"))))
validate_token-refresh_token_example =
    validate_token-refresh_token toy_signer toy_signer_laws (text "key") (encode_claims claims)
      claims noon night (omega arith) (omega arith) claims-valid

abbrev middleware : AuthMiddleware Tokens
middleware = record { jwt_service = service_of (text "key"); api_token_store = store }

jwt_auth-iff_Vouched_example :
    ((jwt_auth toy_services toy_signer (at 50) (some (text "Bearer ldb_a")) middleware).0
      ≡ ok (api_token (text "ann") (text "id")))
    ↔ ((token : Text) × (some (text "Bearer ldb_a") ≡ some (text "Bearer " ++ token))
        × Vouched toy_services toy_signer
            (at 50)
            middleware
            token
            (api_token (text "ann") (text "id")))
jwt_auth-iff_Vouched_example =
    jwt_auth-iff_Vouched toy_services toy_signer (at 50) (some (text "Bearer ldb_a")) middleware
      (api_token (text "ann") (text "id"))

token-prefixed : starts_with token (text "ldb_") ≡ true
unfolding starts_with
token-prefixed = refl

jwt_auth-revoked_example :
    (jwt_auth toy_services toy_signer
      (at 70)
      (some (text "Bearer " ++ token))
      (record middleware { api_token_store = cleaned })).0
    ≡ err unauthorized
jwt_auth-revoked_example =
    jwt_auth-revoked toy_services toy_signer token stored store
      (record middleware { api_token_store = cleaned }) (at 70) token-prefixed (tt, tt) stored-get
      only_one after_revocation

abbrev handler_headers : HeaderMap
handler_headers = (text "content-type", text "application/json") ∷ []

get-security_headers_example :
    All (λ e. Assoc.get e.0 (security_headers handler_headers) ≡ some e.1) policy
    × (Assoc.get (text "content-type") (security_headers handler_headers)
        ≡ or_else
            (Assoc.get (text "content-type") (security_headers []))
            (Assoc.get (text "content-type") handler_headers))
get-security_headers_example = get-security_headers (text "content-type") handler_headers (tt, tt)
