-- ===== src/Security/ApiToken.antt =====
-- src/security/api_token.rs: the tokens by the hash of their text. The map of the source has no
-- order; here it ascends by key. The clock, the random bytes and the new identifier are arguments;
-- the hash, the JSON of the file and the sum of a time and days are parameters. Whether the file can be
-- written is part of the state; a write that fails leaves the file as it was.
pub mod Lifecycle
pub mod Revocation
pub mod Persistence
use lo_ra_db.Prelude.{
  ℕ, ◌-◌, ◌%◌, ◌<◌, ◌≡◌, Bool, true, false, not, ◌&&◌, Option, none, some, List, [], ◌∷◌, ◌++◌, map,
  length, filter, Result, ok, err, ◌>>=◌, if◌then◌else◌, ltb, unwrap_or, get_elem?,
}
use lo_ra_db.Prelude.Int.{ℤ, int_ord}
use lo_ra_db.Prelude.Order.{le}
use lo_ra_db.Prelude.Assoc
use lo_ra_db.Model.Text.{Text, text, text_ord, eq_text}
use lo_ra_db.Model.Lorawan.{LoraDbError, Failure, error, lift, panic}
use lo_ra_db.Model.Frames.{DateTime}

pub record ApiToken : Type 0 where
  pub id : Text
  pub token_hash : Text
  pub name : Text
  pub created_by : Text
  pub created_at : DateTime
  pub last_used_at : Option DateTime
  pub expires_at : Option DateTime
  pub is_active : Bool

abbrev pub Tokens : Type 0
Tokens = List (Text × ApiToken)

unfoldable pub new : DateTime → Text → Text → Text → Text → ApiToken
new now id name created_by token_hash = record {
  id = id;
  token_hash = token_hash;
  name = name;
  created_by = created_by;
  created_at = now;
  last_used_at = none;
  expires_at = none;
  is_active = true;
}

unfoldable pub is_expired : DateTime → ApiToken → Bool
is_expired now t = elim t.expires_at [
  | none ↦ false
  | some expires_at ↦ le expires_at.nanos now.nanos
]

unfoldable pub is_valid : DateTime → ApiToken → Bool
is_valid now t = t.is_active && not (is_expired now t)

unfoldable pub update_last_used : DateTime → ApiToken → ApiToken
update_last_used now t = record t { last_used_at = some now }

unfoldable pub revoke : ApiToken → ApiToken
revoke t = record t { is_active = false }

abbrev pub base62_chars : Text
base62_chars = text "0123456789ABCDEFGHIJKLMNOPQRSTUVWXYZabcdefghijklmnopqrstuvwxyz"

-- The 32 random bytes are an argument; an index into the 62 characters is in range.
unfoldable pub generate_token : List ℕ → Text
generate_token token_bytes =
    text "ldb_" ++ map (λ b. unwrap_or (get_elem? base62_chars (b % 62)) 0) token_bytes

-- SHA-256, the JSON of the map as the contents `F` of a file, and `Utc::now() + Duration::days(n)`, which panics (`none`) where
-- the sum is out of range.
pub record Services (F : Type 0) : Type 0 where
  pub hash_token : Text → Text
  pub to_json : Tokens → F
  pub from_json : F → Option Tokens
  pub add_days : DateTime → ℤ → Option DateTime

-- The JSON of a map is read back.
pub record ServiceLaws {F : Type 0} (x : Services F) : Type 0 where
  pub json_round_trip : (tokens : Tokens) → x.from_json (x.to_json tokens) ≡ some tokens

-- The tokens in memory, the file, if there is one, and whether it can be written.
pub record ApiTokenStore (F : Type 0) : Type 0 where
  pub tokens : Tokens
  pub storage_file : Option F
  pub is_writable : Bool

-- The first token with an id, in the order of the map.
unfoldable pub find_token : Text → Tokens → Option ApiToken
unfolding eq_text
find_token token_id [] = none
find_token token_id ((hash, t) ∷ l) =
    let rest = find_token token_id l in if eq_text t.id token_id then some t else rest

unfoldable pub revoke_first : Text → Tokens → Tokens
unfolding eq_text revoke
revoke_first token_id [] = []
revoke_first token_id ((hash, t) ∷ l) =
    let rest = revoke_first token_id l in
    if eq_text t.id token_id then (hash, revoke t) ∷ l else (hash, t) ∷ rest

unfoldable pub list_tokens : {F : Type 0} → Text → ApiTokenStore F → List ApiToken
list_tokens user_id s = filter (λ t. eq_text t.created_by user_id) (map (λ e. e.1) s.tokens)

unfoldable pub list_all_tokens : {F : Type 0} → ApiTokenStore F → List ApiToken
list_all_tokens s = map (λ e. e.1) s.tokens

module _ {F : Type 0} (x : Services F) where
  unfoldable pub with_expiration :
      DateTime → Text → Text → Text → Text → ℤ → Result Failure ApiToken
  unfolding new
  with_expiration now id name created_by token_hash expires_in_days =
      elim (x.add_days now expires_in_days) [
        | none ↦ err panic
        | some expires_at ↦
            ok (record (new now id name created_by token_hash) { expires_at = some expires_at })
      ]

  -- `save` of a store whose tokens are changed to the given ones.
  unfoldable pub save : Tokens → ApiTokenStore F → Result LoraDbError (Unit {0}) × ApiTokenStore F
  save tokens s = (
    if s.is_writable then ok tt else err LoraDbError.io_error,
    record s {
      tokens = tokens;
      storage_file = (if s.is_writable then some (x.to_json tokens) else s.storage_file);
    },
  )

  -- What the caller returns behind `self.save()?`.
  unfoldable pub saved :
      {A : Type 0} → A → Tokens → ApiTokenStore F → Result LoraDbError A × ApiTokenStore F
  unfolding save
  saved a tokens s = let (done, after) = save tokens s in (done >>= λ _. ok a, after)

  -- `ApiTokenStore::new` and `load`: the file of the path, if it exists.
  unfoldable pub open_store : Bool → Option F → Result LoraDbError (ApiTokenStore F)
  open_store can_write none =
      ok (record { tokens = []; storage_file = none; is_writable = can_write })
  open_store can_write (some json) = elim (x.from_json json) [
    | none ↦ err LoraDbError.json_error
    | some tokens ↦
        ok (record { tokens = tokens; storage_file = some json; is_writable = can_write })
  ]

  -- The metadata of a new token.
  unfoldable pub make_token :
      DateTime → Text → Text → Text → Text → Option ℤ → Result Failure ApiToken
  unfolding with_expiration new
  make_token now id name created_by token_hash (some days) =
      with_expiration now id name created_by token_hash days
  make_token now id name created_by token_hash none = ok (new now id name created_by token_hash)

  -- The token as it is returned to its owner, and its metadata. A panic leaves the store as it is; a
  -- failure of the file leaves the token in memory.
  unfoldable pub create_token :
      DateTime
      → Text
      → List ℕ
      → Text
      → Text
      → Option ℤ
      → ApiTokenStore F
      → Result Failure (Text × ApiToken) × ApiTokenStore F
  create_token now id token_bytes name created_by expires_in_days s =
      let token = generate_token token_bytes in
      elim (make_token now id name created_by (x.hash_token token) expires_in_days) [
        | err why ↦ (err why, s)
        | ok api_token ↦
            let (done, after) =
              saved (token, api_token) (Assoc.insert api_token.token_hash api_token s.tokens) s in
            (lift done, after)
      ]

  unfoldable pub validate_token :
      DateTime → Text → ApiTokenStore F → Result LoraDbError ApiToken × ApiTokenStore F
  validate_token now token s =
      let token_hash = x.hash_token token in
      elim (Assoc.get token_hash s.tokens) [
        | none ↦ (err LoraDbError.auth_error, s)
        | some api_token ↦
            let used = update_last_used now api_token in
            if not (is_valid now api_token)
            then (err LoraDbError.auth_error, s)
            else saved used (Assoc.insert token_hash used s.tokens) s
      ]

  unfoldable pub revoke_token :
      Text → Text → ApiTokenStore F → Result LoraDbError (Unit {0}) × ApiTokenStore F
  revoke_token token_id user_id s = elim (find_token token_id s.tokens) [
    | none ↦ (err LoraDbError.auth_error, s)
    | some token ↦
        if not (eq_text token.created_by user_id)
        then (err LoraDbError.auth_error, s)
        else saved tt (revoke_first token_id s.tokens) s
  ]

  unfoldable pub delete_token :
      Text → ApiTokenStore F → Result LoraDbError (Unit {0}) × ApiTokenStore F
  delete_token token_id s = save (filter (λ e. not (eq_text e.1.id token_id)) s.tokens) s

  unfoldable pub cleanup_expired :
      DateTime → ApiTokenStore F → Result LoraDbError ℕ × ApiTokenStore F
  cleanup_expired now s =
      let kept = filter (λ e. not (is_expired now e.1)) s.tokens in
      let removed_count = length s.tokens - length kept in
      if ltb 0 removed_count
      then saved removed_count kept s
      else (ok removed_count, record s { tokens = kept })
