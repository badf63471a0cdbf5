-- ===== src/Security/ApiToken/Persistence.antt =====
-- The file of the tokens of src/security/api_token.rs follows the tokens in memory.
use lo_ra_db.Prelude.{
  ℕ, ◌-◌, ◌≤◌, ◌≡◌, refl, Bool, true, not, Option, List, [], ◌∷◌, ok, arith, Option-cases,
  Bool-cases, Result-cases, inl, inr, ltb, filter, length, length-filter-le,
}
use lo_ra_db.Prelude.Int.{ℤ}
use lo_ra_db.Prelude.Assoc
use lo_ra_db.Model.Text.{Text, text_ord, eq_text}
use lo_ra_db.Model.Frames.{DateTime}
use lo_ra_db.Security.ApiToken.{
  ApiTokenStore, Tokens, Services, ServiceLaws, is_valid, is_expired, validate_token, create_token,
  make_token, generate_token, saved, revoke_token, find_token, delete_token, cleanup_expired, save,
  open_store,
}

filter_all :
    {A : Type 0} (p : A → Bool) (l : List A) → length l ≤ length (filter p l) → filter p l ≡ l
filter_all p [] h = refl
filter_all p (a ∷ l) h = ground (arith, length-filter-le p l, filter_all p l)

module _ {F : Type 0} (x : Services F) where
  -- Opening the file gives the store.
  abbrev pub IsSaved : ApiTokenStore F → Type 0
  IsSaved s = open_store x s.is_writable s.storage_file ≡ ok s

module _ {F : Type 0} (x : Services F) (law : ServiceLaws x) where
  save-IsSaved :
      (tokens : Tokens) (s : ApiTokenStore F) → s.is_writable ≡ true → IsSaved x (save x tokens s).1
  unfolding save open_store
  save-IsSaved tokens s w = rw (w, law.json_round_trip tokens) refl

  create_token-IsSaved :
      (now : DateTime) (id : Text) (token_bytes : List ℕ) (name created_by : Text) (days : Option ℤ)
      (s : ApiTokenStore F)
      → s.is_writable ≡ true
      → IsSaved x s
      → IsSaved x (create_token x now id token_bytes name created_by days s).1
  unfolding create_token saved
  create_token-IsSaved now id token_bytes name created_by days s w h =
      elim (Result-cases
        (make_token x now id name created_by (x.hash_token (generate_token token_bytes)) days)) [
          | inl (why, e) ↦ rw (e, create_token) h
          | inr (made, e) ↦ rw (e, create_token) (save-IsSaved _ s w)
        ]

  validate_token-IsSaved :
      (now : DateTime) (token : Text) (s : ApiTokenStore F)
      → s.is_writable ≡ true
      → IsSaved x s
      → IsSaved x (validate_token x now token s).1
  unfolding validate_token saved
  validate_token-IsSaved now token s w h =
      elim (Option-cases (Assoc.get (x.hash_token token) s.tokens)) [
        | inl e ↦ rw (e, validate_token) h
        | inr (t, e) ↦ elim (Bool-cases (is_valid now t)) [
          | inl v ↦ rw (e, validate_token, v) (save-IsSaved _ s w)
          | inr v ↦ rw (e, validate_token, v) h
        ]
      ]

  revoke_token-IsSaved :
      (token_id user_id : Text) (s : ApiTokenStore F)
      → s.is_writable ≡ true
      → IsSaved x s
      → IsSaved x (revoke_token x token_id user_id s).1
  unfolding revoke_token saved
  revoke_token-IsSaved token_id user_id s w h = elim (Option-cases (find_token token_id s.tokens)) [
    | inl e ↦ rw (e, revoke_token) h
    | inr (t, e) ↦ elim (Bool-cases (eq_text t.created_by user_id)) [
      | inl v ↦ rw (e, revoke_token, v) (save-IsSaved _ s w)
      | inr v ↦ rw (e, revoke_token, v) h
    ]
  ]

  cleanup_expired-IsSaved :
      (now : DateTime) (s : ApiTokenStore F)
      → s.is_writable ≡ true
      → IsSaved x s
      → IsSaved x (cleanup_expired x now s).1
  unfolding cleanup_expired saved
  cleanup_expired-IsSaved now s w h =
      let kept = filter (λ e. not (is_expired now e.1)) s.tokens in
      elim (Bool-cases (ltb 0 (length s.tokens - length kept))) [
        | inl e ↦ rw e (save-IsSaved _ s w)
        | inr e ↦ rw (e, filter_all (λ e. not (is_expired now e.1)) s.tokens (ground (arith, e))) h
      ]

  -- Where the file can be written, every operation of a store that is what its file opens to leaves
  -- such a store, whatever it returns: a restart loses no token, no use, no revocation and no deletion.
  pub open_store-operations :
      (now : DateTime) (s : ApiTokenStore F)
      → s.is_writable ≡ true
      → IsSaved x s
      → ((id : Text) (token_bytes : List ℕ) (name created_by : Text) (days : Option ℤ)
          → IsSaved x (create_token x now id token_bytes name created_by days s).1)
        × ((token : Text) → IsSaved x (validate_token x now token s).1)
        × ((token_id user_id : Text) → IsSaved x (revoke_token x token_id user_id s).1)
        × ((token_id : Text) → IsSaved x (delete_token x token_id s).1)
        × IsSaved x (cleanup_expired x now s).1
  unfolding delete_token
  open_store-operations now s w h = (
    (λ id token_bytes name created_by days.
        create_token-IsSaved now id token_bytes name created_by days s w h),
    (λ token. validate_token-IsSaved now token s w h),
    (λ token_id user_id. revoke_token-IsSaved token_id user_id s w h),
    (λ token_id. save-IsSaved _ s w),
    cleanup_expired-IsSaved now s w h,
  )
