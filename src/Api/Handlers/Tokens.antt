-- ===== src/Api/Handlers/Tokens.antt =====
-- The handlers of src/api/handlers.rs for API tokens.
use lo_ra_db.Prelude.{ℕ, Bool, Option, List, map, Result, ok, err, length}
use lo_ra_db.Prelude.Int.{ℤ}
use lo_ra_db.Model.Text.{Text}
use lo_ra_db.Model.Lorawan.{LoraDbError, Failure, error}
use lo_ra_db.Model.Frames.{DateTime}
use lo_ra_db.Security.ApiToken
use lo_ra_db.Security.ApiToken.{ApiToken, ApiTokenStore, Services}
use lo_ra_db.Api.Middleware.{AuthContext, user_id}
use lo_ra_db.Api.Handlers.{
  max_token_name_length, max_token_id_length, validate_string_length, map_failure, map_error,
}

pub record TokenResponse : Type 0 where
  pub token : Text
  pub id : Text
  pub name : Text
  pub created_at : Text
  pub expires_at : Option Text

-- A token as it is listed, without its text and its hash.
pub record TokenInfo : Type 0 where
  pub id : Text
  pub name : Text
  pub created_by : Text
  pub created_at : Text
  pub last_used_at : Option Text
  pub expires_at : Option Text
  pub is_active : Bool

pub record TokenListResponse : Type 0 where
  pub total : ℕ
  pub tokens : List TokenInfo

module _ (to_rfc3339 : DateTime → Text) where
  unfoldable pub response_of : Text → ApiToken → TokenResponse
  response_of token t = record {
    token = token;
    id = t.id;
    name = t.name;
    created_at = to_rfc3339 t.created_at;
    expires_at = mathlib.Core.Option.map to_rfc3339 t.expires_at;
  }

  unfoldable pub token_info_of : ApiToken → TokenInfo
  token_info_of t = record {
    id = t.id;
    name = t.name;
    created_by = t.created_by;
    created_at = to_rfc3339 t.created_at;
    last_used_at = mathlib.Core.Option.map to_rfc3339 t.last_used_at;
    expires_at = mathlib.Core.Option.map to_rfc3339 t.expires_at;
    is_active = t.is_active;
  }

  unfoldable pub list_tokens : {F : Type 0} → AuthContext → ApiTokenStore F → TokenListResponse
  unfolding user_id token_info_of
  list_tokens context s =
      let token_infos = map token_info_of (ApiToken.list_tokens (user_id context) s) in
      record { total = length token_infos; tokens = token_infos }

  unfoldable pub create_token :
      {F : Type 0}
      → Services F
      → AuthContext
      → DateTime
      → Text
      → List ℕ
      → Text
      → Option ℤ
      → ApiTokenStore F
      → Result Failure TokenResponse × ApiTokenStore F
  create_token x context now id token_bytes name expires_in_days s =
      elim (validate_string_length name max_token_name_length) [
        | err e ↦ (err (error e), s)
        | ok _ ↦
            let (made, after) =
              ApiToken.create_token x now id token_bytes name (user_id context) expires_in_days s in
            elim (map_failure LoraDbError.storage_error made) [
              | err why ↦ (err why, after)
              | ok (token_string, api_token) ↦ (ok (response_of token_string api_token), after)
            ]
      ]

unfoldable pub revoke_token :
    {F : Type 0}
    → Services F
    → AuthContext
    → Text
    → ApiTokenStore F
    → Result LoraDbError (Unit {0}) × ApiTokenStore F
revoke_token x context token_id s = elim (validate_string_length token_id max_token_id_length) [
  | err e ↦ (err e, s)
  | ok _ ↦
      let (revoked, after) = ApiToken.revoke_token x token_id (user_id context) s in
      (map_error LoraDbError.auth_error revoked, after)
]
