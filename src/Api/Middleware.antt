-- ===== src/Api/Middleware.antt =====
-- src/api/middleware.rs: who a request comes from, and the headers of every response. The value of
-- the Authorization header, where it is visible ASCII, is an argument. A header map has its names in
-- lower case; here it ascends by name, with one value a name.
pub mod Authentication
pub mod Headers
use lo_ra_db.Prelude.{
  ℕ, ◌≡◌, Bool, true, false, not, Option, none, some, Result, ok, err, List, [], ◌∷◌, drop,
  if◌then◌else◌,
}
use lo_ra_db.Prelude.Assoc
use lo_ra_db.Model.Text.{Text, text, text_ord, starts_with}
use lo_ra_db.Model.Lorawan.{LoraDbError}
use lo_ra_db.Model.Frames.{DateTime}
use lo_ra_db.Security.ApiToken
use lo_ra_db.Security.ApiToken.{ApiToken, ApiTokenStore, Services}
use lo_ra_db.Security.Jwt
use lo_ra_db.Security.Jwt.{Claims, JwtService, Signer}

pub data AuthContext : Type 0 where
  jwt : Claims → AuthContext
  api_token : Text → Text → AuthContext

unfoldable pub user_id : AuthContext → Text
user_id (jwt claims) = claims.sub
user_id (api_token user token_id) = user

pub data StatusCode : Type 0 where
  unauthorized : StatusCode

pub record AuthMiddleware (F : Type 0) : Type 0 where
  pub jwt_service : JwtService
  pub api_token_store : ApiTokenStore F

-- The token of a header, behind `Bearer `.
unfoldable pub bearer_token : Option Text → Option Text
bearer_token none = none
bearer_token (some auth_header) =
    let token = drop 7 auth_header in
    if not (starts_with auth_header (text "Bearer ")) then none else some token

module _ {F : Type 0} (x : Services F) where
  -- The arm for a token of the store, with the store that is left.
  unfoldable pub with_api_token :
      DateTime → Text → AuthMiddleware F → Result StatusCode AuthContext × AuthMiddleware F
  with_api_token now token auth =
      let (validated, store) = ApiToken.validate_token x now token auth.api_token_store in
      elim validated [
        | ok t ↦ (ok (api_token t.created_by t.id), record auth { api_token_store = store })
        | err e ↦ (err unauthorized, record auth { api_token_store = store })
      ]

module _ {F : Type 0} (x : Services F) (j : Signer) where
  unfoldable pub with_jwt : DateTime → Text → AuthMiddleware F → Result StatusCode AuthContext
  with_jwt now token auth = elim (Jwt.validate_token j now auth.jwt_service token) [
    | ok claims ↦ ok (jwt claims)
    | err e ↦ err unauthorized
  ]

  -- The context that the request goes on with, or the status of the response.
  unfoldable pub jwt_auth :
      DateTime → Option Text → AuthMiddleware F → Result StatusCode AuthContext × AuthMiddleware F
  jwt_auth now auth_header auth = elim (bearer_token auth_header) [
    | none ↦ (err unauthorized, auth)
    | some token ↦
        let of_store = with_api_token x now token auth in
        if starts_with token (text "ldb_") then of_store else (with_jwt now token auth, auth)
  ]

abbrev pub HeaderMap : Type 0
HeaderMap = List (Text × Text)

-- On the response of the handler.
unfoldable pub security_headers : HeaderMap → HeaderMap
security_headers headers = Assoc.insert (text "referrer-policy") (text "no-referrer") (
    Assoc.insert (text "x-xss-protection") (text "1; mode=block") (
      Assoc.insert (text "x-content-type-options") (text "nosniff") (
        Assoc.insert (text "x-frame-options") (text "DENY") (
          Assoc.insert (text "content-security-policy")
            (text "default-src 'self'; frame-ancestors 'none'")
            (Assoc.insert (text "strict-transport-security")
              (text "max-age=31536000; includeSubDomains") headers)))))

unfoldable pub cors_headers : HeaderMap
cors_headers =
    Assoc.insert (text "access-control-allow-headers") (text "Content-Type, Authorization") (
      Assoc.insert (text "access-control-allow-methods") (text "GET, POST, OPTIONS")
        (Assoc.insert (text "access-control-allow-origin") (text "*") []))
