-- ===== src/Api/Middleware/Authentication.antt =====
-- What a request that src/api/middleware.rs lets through has shown.
use lo_ra_db.Prelude.{
  ◌≡◌, ◌↔◌, refl, true, false, Option, none, some, Result, ok, err, ◌++◌, drop, Bool-cases,
  Option-cases, inl, inr, ◌∙◌, ap, sym, subst, All, some-injective, Returns,
}
use lo_ra_db.Prelude.Assoc
use lo_ra_db.Model.Text.{Text, text, text_ord, starts_with, starts_with-append, drop-starts_with}
use lo_ra_db.Model.Lorawan.{LoraDbError}
use lo_ra_db.Model.Frames.{DateTime}
use lo_ra_db.Security.ApiToken
use lo_ra_db.Security.ApiToken.{ApiToken, ApiTokenStore, Services, is_valid, update_last_used}
use lo_ra_db.Security.ApiToken.Lifecycle.{verdict, validate_token-verdict}
use lo_ra_db.Security.ApiToken.Revocation.{Steps, revoke_token-refused}
use lo_ra_db.Security.Jwt
use lo_ra_db.Security.Jwt.{Claims, JwtService, Signer}
use lo_ra_db.Api.Middleware.{
  AuthContext, jwt, api_token, AuthMiddleware, unauthorized, bearer_token, with_api_token, with_jwt,
  jwt_auth,
}

-- The text behind `Bearer ` is the token.
bearer_token-bearer : (token : Text) → bearer_token (some (text "Bearer " ++ token)) ≡ some token
unfolding bearer_token
bearer_token-bearer token = rw (starts_with-append (text "Bearer ") token, bearer_token) refl

bearer_token-some :
    (header : Option Text) (token : Text)
    → bearer_token header ≡ some token
    → header ≡ some (text "Bearer " ++ token)
unfolding bearer_token
bearer_token-some none token h = cc
bearer_token-some (some s) token h = elim (Bool-cases (starts_with s (text "Bearer "))) [
  | inl e ↦
      let rest : bearer_token (some s) ≡ some (drop 7 s) = rw (e, bearer_token) refl in
      ap (λ z. some z)
        (drop-starts_with s (text "Bearer ") e
          ∙ ap (λ z. text "Bearer " ++ z) (some-injective _ _ (sym rest ∙ h)))
  | inr e ↦ let rest : bearer_token (some s) ≡ none = rw (e, bearer_token) refl in cc (rest, h)
]

module _ {F : Type 0} (x : Services F) (j : Signer) where
  -- What vouches for a context: a stored token that is active and not expired, of its user and id,
  -- where the file can be written, in which its use is noted, or claims that the signing library accepts for the text behind `Bearer `.
  pub data Vouched (now : DateTime) (auth : AuthMiddleware F) (token : Text)
      : AuthContext → Type 0 where
    by_token :
        (t : ApiToken)
        → starts_with token (text "ldb_") ≡ true
        → Assoc.get (x.hash_token token) auth.api_token_store.tokens ≡ some t
        → is_valid now t ≡ true
        → auth.api_token_store.is_writable ≡ true
        → Vouched now auth token (api_token t.created_by t.id)
    by_claims :
        (claims : Claims)
        → starts_with token (text "ldb_") ≡ false
        → j.decode now auth.jwt_service token ≡ some claims
        → Vouched now auth token (jwt claims)

  with_api_token-verdict :
      (now : DateTime) (token : Text) (auth : AuthMiddleware F) (r : Result LoraDbError ApiToken)
      → verdict auth.api_token_store.is_writable now
          (Assoc.get (x.hash_token token) auth.api_token_store.tokens)
        ≡ r
      → (with_api_token x now token auth).0
        ≡ elim r [ ok t ↦ ok (api_token t.created_by t.id) | err e ↦ err unauthorized ]
  unfolding with_api_token
  with_api_token-verdict now token auth (ok t) h =
      rw (validate_token-verdict x now token auth.api_token_store ∙ h, with_api_token) refl
  with_api_token-verdict now token auth (err e) h =
      rw (validate_token-verdict x now token auth.api_token_store ∙ h, with_api_token) refl

  Vouched-token :
      (now : DateTime) (token : Text) (auth : AuthMiddleware F)
      → starts_with token (text "ldb_") ≡ true
      → Returns (Vouched now auth token) (with_api_token x now token auth).0
  unfolding verdict update_last_used
  Vouched-token now token auth p =
      elim (Option-cases (Assoc.get (x.hash_token token) auth.api_token_store.tokens)) [
        | inl e ↦
            rw
              (
                with_api_token-verdict now token auth (err LoraDbError.auth_error) (rw e refl),
                Returns,
              )
              tt
        | inr (t, e) ↦ elim (Bool-cases (is_valid now t)) [
          | inl v ↦ elim (Bool-cases auth.api_token_store.is_writable) [
            | inl w ↦
                rw
                  (
                    with_api_token-verdict now token auth (ok (update_last_used now t))
                        (rw (e, v, w) refl),
                    Returns,
                  )
                  (by_token t p e v w)
            | inr w ↦
                rw
                  (
                    with_api_token-verdict now token auth (err LoraDbError.io_error)
                        (rw (e, v, w) refl),
                    Returns,
                  )
                  tt
          ]
          | inr v ↦
              rw
                (
                  with_api_token-verdict now token auth (err LoraDbError.auth_error)
                      (rw (e, v) refl),
                  Returns,
                )
                tt
        ]
      ]

  Vouched-claims :
      (now : DateTime) (token : Text) (auth : AuthMiddleware F)
      → starts_with token (text "ldb_") ≡ false
      → Returns (Vouched now auth token) (with_jwt x j now token auth)
  unfolding with_jwt Jwt.validate_token
  Vouched-claims now token auth p = elim (Option-cases (j.decode now auth.jwt_service token)) [
    | inl e ↦ rw (e, Returns, with_jwt, Jwt.validate_token) tt
    | inr (claims, e) ↦ rw (e, Returns, with_jwt, Jwt.validate_token) (by_claims claims p e)
  ]

  jwt_auth-Vouched :
      (now : DateTime) (token : Text) (auth : AuthMiddleware F) (header : Option Text)
      → bearer_token header ≡ some token
      → Returns (Vouched now auth token) (jwt_auth x j now header auth).0
  unfolding jwt_auth
  jwt_auth-Vouched now token auth header e = elim (Bool-cases (starts_with token (text "ldb_"))) [
    | inl p ↦ rw (e, jwt_auth, p) (Vouched-token now token auth p)
    | inr p ↦ rw (e, jwt_auth, p) (Vouched-claims now token auth p)
  ]

  jwt_auth_of_Vouched :
      (now : DateTime) (token : Text) (auth : AuthMiddleware F) (context : AuthContext)
      → Vouched now auth token context
      → (jwt_auth x j now (some (text "Bearer " ++ token)) auth).0 ≡ ok context
  unfolding jwt_auth verdict update_last_used with_jwt Jwt.validate_token
  jwt_auth_of_Vouched now token auth _ (by_token t p e v w) =
      rw (bearer_token-bearer token, jwt_auth, p)
        (with_api_token-verdict now token auth (ok (update_last_used now t)) (rw (e, v, w) refl))
  jwt_auth_of_Vouched now token auth _ (by_claims claims p e) =
      rw (bearer_token-bearer token, jwt_auth, p, e, with_jwt, Jwt.validate_token) refl

  -- A request goes on with a context exactly if its header is `Bearer ` and a token that vouches for
  -- the context.
  pub jwt_auth-iff_Vouched :
      (now : DateTime) (header : Option Text) (auth : AuthMiddleware F) (context : AuthContext)
      → ((jwt_auth x j now header auth).0 ≡ ok context) ↔ (
          (token : Text) × (header ≡ some (text "Bearer " ++ token))
          × Vouched now auth token context)
  unfolding jwt_auth
  jwt_auth-iff_Vouched now header auth context = (
    (λ h. elim (Option-cases (bearer_token header)) [
      | inl e ↦
          let no_token : (jwt_auth x j now header auth).0 ≡ err unauthorized =
            rw (e, jwt_auth) refl in
          cc (no_token, h)
      | inr (token, e) ↦ (
        token,
        bearer_token-some header token e,
        subst (Returns (Vouched now auth token)) h (jwt_auth-Vouched now token auth header e),
      )
    ]),
    (λ w.
        subst (λ z. (jwt_auth x j now z auth).0 ≡ ok context) (sym w.1)
          (jwt_auth_of_Vouched now w.0 auth context w.2)),
  )

  -- Where the token that a request shows is stored under its hash, as the only one with its id, and
  -- its creator has revoked it, the request is refused at every later time, whatever operations on the
  -- store came between, as long as none makes a token with that hash again.
  pub jwt_auth-revoked :
      (token : Text) (t : ApiToken) (s : ApiTokenStore F) (auth : AuthMiddleware F) (now : DateTime)
      → starts_with token (text "ldb_") ≡ true
      → Assoc.IsSorted s.tokens
      → Assoc.get (x.hash_token token) s.tokens ≡ some t
      → All (λ e. (e.0 ≡ x.hash_token token) ↔ (e.1.id ≡ t.id)) s.tokens
      → Steps x
          (x.hash_token token)
          (ApiToken.revoke_token x t.id t.created_by s).1
          auth.api_token_store
      → (jwt_auth x j now (some (text "Bearer " ++ token)) auth).0 ≡ err unauthorized
  unfolding jwt_auth with_api_token
  jwt_auth-revoked token t s auth now p sorted stored unique steps =
      let refused =
        revoke_token-refused x token t.created_by t s auth.api_token_store now sorted stored refl
          unique steps in
      rw (bearer_token-bearer token, jwt_auth, p, refused.1, with_api_token) refl
