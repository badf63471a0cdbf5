-- ===== src/Tests/ApiTokens.antt =====
-- Runs of the API tokens.
use lo_ra_db.Prelude.{
  ℕ, ◌≡◌, ◌↔◌, refl, true, Option, none, some, List, [], ◌∷◌, Result, ok, err, if◌then◌else◌, All,
}
use lo_ra_db.Prelude.Int.{ℤ, pos}
use lo_ra_db.Prelude.Order.{cmp_list}
use lo_ra_db.Prelude.Assoc
use lo_ra_db.Model.Text.{Text, text, text_ord}
use lo_ra_db.Model.Lorawan.{LoraDbError, Failure}
use lo_ra_db.Security.ApiToken
use lo_ra_db.Security.ApiToken.{
  ApiToken, ApiTokenStore, Tokens, Services, ServiceLaws, create_token, validate_token,
  revoke_token, delete_token, cleanup_expired, save, saved, generate_token, make_token, is_expired,
  update_last_used, open_store,
}
use lo_ra_db.Security.ApiToken.Lifecycle.{deadline, is_over, validate_token-create_token}
use lo_ra_db.Security.ApiToken.Revocation.{Step, Steps, revoke_token-refused}
use lo_ra_db.Security.ApiToken.Persistence.{IsSaved, open_store-operations}
use lo_ra_db.Security.Jwt.Refresh.{at}

abbrev pub toy_services : Services Tokens
toy_services = record {
  hash_token = λ s. s;
  to_json = λ tokens. tokens;
  from_json = λ tokens. some tokens;
  add_days = λ t d. some (record { nanos = pos 900 });
}

toy-ServiceLaws : ServiceLaws toy_services
toy-ServiceLaws = record { json_round_trip = λ tokens. refl }

abbrev pub token : Text
token = text "ldb_a"

abbrev pub stored : ApiToken
stored = record {
  id = text "id";
  token_hash = token;
  name = text "sensor";
  created_by = text "ann";
  created_at = at 5;
  last_used_at = none;
  expires_at = none;
  is_active = true;
}

abbrev pub store : ApiTokenStore Tokens
store = record {
  tokens = (token, stored) ∷ [];
  storage_file = some ((token, stored) ∷ []);
  is_writable = true;
}

pub stored-get : Assoc.get token store.tokens ≡ some stored
unfolding Assoc.get cmp_list
stored-get = refl

pub only_one : All (λ e. (e.0 ≡ token) ↔ (e.1.id ≡ stored.id)) store.tokens
only_one = (((λ _. refl), (λ _. refl)), tt)

abbrev fresh_store : ApiTokenStore Tokens
fresh_store = record { tokens = []; storage_file = none; is_writable = true }

abbrev creation : Result Failure (Text × ApiToken) × ApiTokenStore Tokens
creation =
    create_token toy_services (at 5) (text "id") (1 ∷ 2 ∷ []) (text "sensor") (text "ann")
      (some (pos 1)) fresh_store

abbrev made : ApiToken
made = record {
  id = text "id";
  token_hash = text "ldb_12";
  name = text "sensor";
  created_by = text "ann";
  created_at = at 5;
  last_used_at = none;
  expires_at = some (at 900);
  is_active = true;
}

abbrev made_store : ApiTokenStore Tokens
made_store = record {
  tokens = (text "ldb_12", made) ∷ [];
  storage_file = some ((text "ldb_12", made) ∷ []);
  is_writable = true;
}

creation-made : creation ≡ (ok (text "ldb_12", made), made_store)
unfolding create_token generate_token make_token ApiToken.with_expiration ApiToken.new saved save
    Assoc.insert
creation-made = refl

validate_token-create_token_example :
    (made.created_by ≡ text "ann")
    × (made.expires_at ≡ deadline toy_services (at 5) (some (pos 1)))
    × ((validate_token toy_services (at 901) (text "ldb_12") made_store).0 ≡ (
        if is_over toy_services (at 901) (deadline toy_services (at 5) (some (pos 1)))
        then err LoraDbError.auth_error
        else ok (record made { last_used_at = some (at 901) })))
validate_token-create_token_example =
    validate_token-create_token toy_services (at 5) (at 901) (text "id") (1 ∷ 2 ∷ [])
      (text "sensor") (text "ann") (some (pos 1)) fresh_store (text "ldb_12") made made_store
      creation-made

-- The token is used after its revocation, and then expired tokens are removed.
abbrev revoked : ApiTokenStore Tokens
revoked = (revoke_token toy_services stored.id (text "ann") store).1

abbrev used : ApiTokenStore Tokens
used = (validate_token toy_services (at 50) token revoked).1

abbrev pub cleaned : ApiTokenStore Tokens
cleaned = (cleanup_expired toy_services (at 60) used).1

abbrev pub after_revocation : Steps toy_services token revoked cleaned
after_revocation =
    Steps.next used cleaned (Steps.next revoked used Steps.none_yet (Step.validated (at 50) token))
      (Step.cleaned (at 60))

revoke_token-refused_example :
    ((revoke_token toy_services stored.id (text "ann") store).0
      ≡ (if store.is_writable then ok tt else err LoraDbError.io_error))
    × ((validate_token toy_services (at 70) token cleaned).0 ≡ err LoraDbError.auth_error)
revoke_token-refused_example =
    revoke_token-refused toy_services token (text "ann") stored store cleaned (at 70) (tt, tt)
      stored-get refl only_one after_revocation

store-IsSaved : IsSaved toy_services store
unfolding open_store
store-IsSaved = refl

open_store-operations_example :
    ((id : Text) (token_bytes : List ℕ) (name created_by : Text) (days : Option ℤ)
      → IsSaved toy_services
          (create_token toy_services (at 9) id token_bytes name created_by days store).1)
    × ((token : Text) → IsSaved toy_services (validate_token toy_services (at 9) token store).1)
    × ((token_id user_id : Text)
        → IsSaved toy_services (revoke_token toy_services token_id user_id store).1)
    × ((token_id : Text) → IsSaved toy_services (delete_token toy_services token_id store).1)
    × IsSaved toy_services (cleanup_expired toy_services (at 9) store).1
open_store-operations_example =
    open_store-operations toy_services toy-ServiceLaws (at 9) store refl store-IsSaved
