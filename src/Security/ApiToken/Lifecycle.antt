-- ===== src/Security/ApiToken/Lifecycle.antt =====
-- The life of a token of src/security/api_token.rs: made, used, and expired.
use lo_ra_db.Prelude.{
  ℕ, ◌≡◌, refl, Bool, true, false, Option, none, some, List, Result, ok, err, arith, Option-cases,
  Bool-cases, inl, inr, if◌then◌else◌, ◌∙◌, ap, sym, subst, Returns, Result-cases, ◌⊎◌,
}
use lo_ra_db.Prelude.Int.{ℤ, int_ord}
use lo_ra_db.Prelude.Order.{le}
use lo_ra_db.Prelude.Assoc
use lo_ra_db.Model.Text.{Text, text_ord}
use lo_ra_db.Model.Lorawan.{LoraDbError, Failure}
use lo_ra_db.Model.Frames.{DateTime}
use lo_ra_db.Security.ApiToken.{
  ApiToken, ApiTokenStore, Tokens, Services, is_valid, is_expired, update_last_used, validate_token,
  create_token, make_token, save, saved, with_expiration, new, generate_token,
}

-- What validating a token gives, by whether the file can be written and by what is stored under its
-- hash.
unfoldable pub verdict : Bool → DateTime → Option ApiToken → Result LoraDbError ApiToken
unfolding is_valid update_last_used
verdict can_write now none = err LoraDbError.auth_error
verdict can_write now (some t) =
    if is_valid now t
    then (if can_write then ok (update_last_used now t) else err LoraDbError.io_error)
    else err LoraDbError.auth_error

verdict_active :
    (now : DateTime) (t : ApiToken)
    → t.is_active ≡ true
    → verdict true now (some t)
      ≡ (if is_expired now t then err LoraDbError.auth_error else ok (update_last_used now t))
unfolding verdict is_valid
verdict_active now t h = ground arith

module _ {F : Type 0} (x : Services F) where
  pub saved-result :
      {A : Type 0} (a : A) (tokens : Tokens) (s : ApiTokenStore F)
      → (saved x a tokens s).0 ≡ (if s.is_writable then ok a else err LoraDbError.io_error)
  unfolding saved save
  saved-result a tokens s = elim (Bool-cases s.is_writable) [
    | inl e ↦ rw e refl
    | inr e ↦ rw e refl
  ]

  -- The tokens in memory are changed, also where the file cannot be written.
  pub saved-tokens :
      {A : Type 0} (a : A) (tokens : Tokens) (s : ApiTokenStore F)
      → (saved x a tokens s).1.tokens ≡ tokens
  unfolding saved save
  saved-tokens a tokens s = refl

  pub validate_token-verdict :
      (now : DateTime) (token : Text) (s : ApiTokenStore F)
      → (validate_token x now token s).0
        ≡ verdict s.is_writable now (Assoc.get (x.hash_token token) s.tokens)
  unfolding validate_token verdict
  validate_token-verdict now token s =
      elim (Option-cases (Assoc.get (x.hash_token token) s.tokens)) [
        | inl e ↦ rw (e, validate_token) refl
        | inr (t, e) ↦ elim (Bool-cases (is_valid now t)) [
          | inl v ↦
              rw (e, validate_token, v)
                (saved-result (update_last_used now t)
                  (Assoc.insert (x.hash_token token) (update_last_used now t) s.tokens) s)
          | inr v ↦ rw (e, validate_token, v) refl
        ]
      ]

  -- What a new token's metadata is.
  abbrev pub IsNew : Text → Text → ApiToken → Type 0
  IsNew created_by token_hash t =
      (t.created_by ≡ created_by) × (t.token_hash ≡ token_hash) × (t.is_active ≡ true)

  pub make_token-IsNew :
      (now : DateTime) (id name created_by token_hash : Text) (days : Option ℤ)
      → Returns (IsNew created_by token_hash) (make_token x now id name created_by token_hash days)
  unfolding make_token with_expiration new
  make_token-IsNew now id name created_by token_hash none = (refl, refl, refl)
  make_token-IsNew now id name created_by token_hash (some d) =
      elim (Option-cases (x.add_days now d)) [
        | inl e ↦ rw (e, Returns) tt
        | inr (expires_at, e) ↦ rw (e, Returns) (refl, refl, refl)
      ]

  -- The token as it is sent, its metadata, and the store that has it; where the file cannot be written,
  -- the store has it too.
  abbrev pub Made :
      Text → Text → Tokens → Result Failure (Text × ApiToken) × ApiTokenStore F → Type 0
  Made sent created_by tokens (ok (token, made), s') =
      (token ≡ sent)
      × IsNew created_by (x.hash_token token) made
      × (s'.tokens ≡ Assoc.insert made.token_hash made tokens)
      × (s'.is_writable ≡ true)
  Made sent created_by tokens (err why, s') =
      (s'.tokens ≡ tokens)
      ⊎ ((made : ApiToken) × IsNew created_by (x.hash_token sent) made
          × (s'.tokens ≡ Assoc.insert made.token_hash made tokens))

  pub create_token-Made :
      (now : DateTime) (id : Text) (token_bytes : List ℕ) (name created_by : Text) (days : Option ℤ)
      (s : ApiTokenStore F)
      → Made
          (generate_token token_bytes)
          created_by
          s.tokens
          (create_token x now id token_bytes name created_by days s)
  unfolding create_token saved save
  create_token-Made now id token_bytes name created_by days s =
      let hash = x.hash_token (generate_token token_bytes) in
      let held = make_token-IsNew now id name created_by hash days in
      elim (Result-cases (make_token x now id name created_by hash days)) [
        | inl (why, e) ↦ rw (e, Made, create_token) (inl refl)
        | inr (made, e) ↦
            let fresh = subst (Returns (IsNew created_by hash)) e held in
            elim (Bool-cases s.is_writable) [
              | inl w ↦ rw (e, Made, create_token, w) (refl, fresh, refl, refl)
              | inr w ↦ rw (e, Made, create_token, w) (inr (made, fresh, refl))
            ]
      ]

  -- When a token expires that is made now for so many days.
  abbrev pub deadline : DateTime → Option ℤ → Option DateTime
  deadline now none = none
  deadline now (some days) = x.add_days now days

  make_token-deadline :
      (now : DateTime) (id name created_by token_hash : Text) (days : Option ℤ)
      → Returns
          (λ t. t.expires_at ≡ deadline now days)
          (make_token x now id name created_by token_hash days)
  unfolding make_token with_expiration new
  make_token-deadline now id name created_by token_hash none = refl
  make_token-deadline now id name created_by token_hash (some d) =
      elim (Option-cases (x.add_days now d)) [
        | inl e ↦ rw (e, Returns) tt
        | inr (expires_at, e) ↦ rw (e, Returns) (sym e)
      ]

  abbrev Expires : Option DateTime → Result Failure (Text × ApiToken) × ApiTokenStore F → Type 0
  Expires end (ok (token, made), s') = made.expires_at ≡ end
  Expires end (err why, s') = Unit

  create_token-Expires :
      (now : DateTime) (id : Text) (token_bytes : List ℕ) (name created_by : Text) (days : Option ℤ)
      (s : ApiTokenStore F)
      → Expires (deadline now days) (create_token x now id token_bytes name created_by days s)
  unfolding create_token saved save
  create_token-Expires now id token_bytes name created_by days s =
      let hash = x.hash_token (generate_token token_bytes) in
      let held = make_token-deadline now id name created_by hash days in
      elim (Result-cases (make_token x now id name created_by hash days)) [
        | inl (why, e) ↦ rw (e, Expires, create_token) tt
        | inr (made, e) ↦
            let ends = subst (Returns (λ t. t.expires_at ≡ deadline now days)) e held in
            elim (Bool-cases s.is_writable) [
              | inl w ↦ rw (e, Expires, create_token, w) ends
              | inr w ↦ rw (e, Expires, create_token, w) tt
            ]
      ]

  -- The time is the end or behind it.
  abbrev pub is_over : DateTime → Option DateTime → Bool
  is_over later none = false
  is_over later (some end) = le end.nanos later.nanos

  is_expired-over :
      (later : DateTime) (t : ApiToken) (end : Option DateTime)
      → t.expires_at ≡ end
      → is_expired later t ≡ is_over later end
  unfolding is_expired
  is_expired-over later t none e = rw (e, is_expired) refl
  is_expired-over later t (some end) e = rw (e, is_expired) refl

  -- A token that was just made, for so many days or for ever, is accepted as its creator's before the
  -- time that is so many days after it was made, and always if there is none, and its use is noted;
  -- from that time on it is refused.
  pub validate_token-create_token :
      (now later : DateTime) (id : Text) (token_bytes : List ℕ) (name created_by : Text)
      (days : Option ℤ) (s : ApiTokenStore F) (token : Text) (made : ApiToken)
      (s' : ApiTokenStore F)
      → create_token x now id token_bytes name created_by days s ≡ (ok (token, made), s')
      → (made.created_by ≡ created_by)
        × (made.expires_at ≡ deadline now days)
        × ((validate_token x later token s').0 ≡ (
            if is_over later (deadline now days)
            then err LoraDbError.auth_error
            else ok (record made { last_used_at = some later })))
  unfolding create_token update_last_used
  validate_token-create_token now later id token_bytes name created_by days s token made s' h =
      let (_, fresh, stored, can_write) =
        subst (Made (generate_token token_bytes) created_by s.tokens) h
          (create_token-Made now id token_bytes name created_by days s) in
      let (by, hash, active) = fresh in
      let ends =
        subst (Expires (deadline now days)) h
          (create_token-Expires now id token_bytes name created_by days s) in
      (
        by,
        ends,
        validate_token-verdict later token s'
            ∙ ap (λ b. verdict b later (Assoc.get (x.hash_token token) s'.tokens)) can_write
            ∙ ap (λ l. verdict true later (Assoc.get (x.hash_token token) l)) stored
            ∙ ap
                (λ k. verdict true later (Assoc.get k (Assoc.insert made.token_hash made s.tokens)))
                (sym hash)
            ∙ ap (verdict true later) (Assoc.get-insert_self made.token_hash made s.tokens)
            ∙ verdict_active later made active
            ∙ ap
                (λ b.
                  if b
                  then err LoraDbError.auth_error
                  else ok (record made { last_used_at = some later }))
                (is_expired-over later made (deadline now days) ends),
      )
