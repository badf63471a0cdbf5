-- ===== src/Security/ApiToken/Revocation.antt =====
-- A token of src/security/api_token.rs that was revoked stays refused, whatever is done to the store.
use lo_ra_db.Prelude.{
  ℕ, Bool, if◌then◌else◌, ◌≡◌, ◌≢◌, ◌↔◌, refl, true, false, not, subst, length, ◌-◌, Option, some,
  List, [], ◌∷◌, Result, ok, err, Option-cases, Bool-cases, inl, inr, ◌∙◌, ap, sym, All, All-filter,
  ltb, filter,
}
use lo_ra_db.Prelude.Int.{ℤ}
use lo_ra_db.Prelude.Assoc
use lo_ra_db.Prelude.Order.{list_ord}
use lo_ra_db.Model.Text.{Text, text_ord, eq_text, eq_text_self, eq_of_eq_text}
use lo_ra_db.Model.Lorawan.{LoraDbError, Failure}
use lo_ra_db.Model.Frames.{DateTime}
use lo_ra_db.Security.ApiToken.{
  ApiToken, ApiTokenStore, Tokens, Services, is_valid, is_expired, update_last_used, validate_token,
  create_token, generate_token, revoke_token, revoke, find_token, revoke_first, delete_token, saved,
  cleanup_expired, save,
}
use lo_ra_db.Security.ApiToken.Lifecycle.{
  verdict, validate_token-verdict, create_token-Made, Made, IsNew, saved-result,
}

-- No entry under the hash is active.
abbrev pub IsRefused : Text → Tokens → Type 0
IsRefused hash = All (λ e. e.0 ≡ hash → e.1.is_active ≡ false)

module _ {F : Type 0} (x : Services F) where
  -- One operation on the store that does not make a token with the hash again.
  pub data Step (hash : Text) (s : ApiTokenStore F) : ApiTokenStore F → Type 0 where
    created :
        (now : DateTime) (id : Text) (token_bytes : List ℕ) (name created_by : Text)
        (days : Option ℤ)
        → x.hash_token (generate_token token_bytes) ≢ hash
        → Step hash s (create_token x now id token_bytes name created_by days s).1
    validated : (now : DateTime) (token : Text) → Step hash s (validate_token x now token s).1
    revoked : (token_id user_id : Text) → Step hash s (revoke_token x token_id user_id s).1
    deleted : (token_id : Text) → Step hash s (delete_token x token_id s).1
    cleaned : (now : DateTime) → Step hash s (cleanup_expired x now s).1
    -- The file becomes writable, or is no longer.
    mounted : (can_write : Bool) → Step hash s (record s { is_writable = can_write })

  pub data Steps (hash : Text) (s : ApiTokenStore F) : ApiTokenStore F → Type 0 where
    none_yet : Steps hash s s
    next : (s1 s2 : ApiTokenStore F) → Steps hash s s1 → Step hash s1 s2 → Steps hash s s2

revoke_first-IsRefused :
    (hash token_id : Text) (l : Tokens)
    → IsRefused hash l
    → IsRefused hash (revoke_first token_id l)
unfolding revoke_first revoke
revoke_first-IsRefused hash token_id [] h = tt
revoke_first-IsRefused hash token_id ((k, t) ∷ l) h = elim (Bool-cases (eq_text t.id token_id)) [
  | inl e ↦ rw (e, revoke_first) ((λ _. refl), h.1)
  | inr e ↦ rw (e, revoke_first) (h.0, revoke_first-IsRefused hash token_id l h.1)
]

-- The entries above a key are not under it.
Above-IsRefused : (hash : Text) (l : Tokens) → Assoc.Above hash l → IsRefused hash l
Above-IsRefused hash [] h = tt
Above-IsRefused hash ((k, t) ∷ l) h =
    ((λ e. cc (h.0, text_ord.cmp_refl hash, ap (text_ord.cmp hash) e)), Above-IsRefused hash l h.1)

-- The entry whose id is revoked is the only one with the id.
pub revoke_first-refuses :
    (hash token_id : Text) (l : Tokens)
    → Assoc.IsSorted l
    → All (λ e. (e.0 ≡ hash) ↔ (e.1.id ≡ token_id)) l
    → IsRefused hash (revoke_first token_id l)
unfolding revoke_first revoke
revoke_first-refuses hash token_id [] s h = tt
revoke_first-refuses hash token_id ((k, t) ∷ l) s h = elim (Bool-cases (eq_text t.id token_id)) [
  | inl e ↦
      rw (e, revoke_first)
        (
          (λ _. refl),
          Above-IsRefused hash l
              (subst (λ z. Assoc.Above z l) (h.0.1 (eq_of_eq_text t.id token_id e)) s.0),
        )
  | inr e ↦
      rw (e, revoke_first)
        (
          (λ same. cc (e, ap (eq_text t.id) (sym (h.0.0 same)), eq_text_self t.id)),
          revoke_first-refuses hash token_id l s.1 h.1,
        )
]

find_token-get :
    (t : ApiToken) (hash : Text) (l : Tokens)
    → All (λ e. (e.0 ≡ hash) ↔ (e.1.id ≡ t.id)) l
    → Assoc.get hash l ≡ some t
    → find_token t.id l ≡ some t
unfolding find_token
find_token-get t hash [] h e = unfold Assoc.get in cc e
find_token-get t hash ((k, a) ∷ l) h e = elim (Bool-cases (eq_text a.id t.id)) [
  | inl same ↦
      let here : k ≡ hash = h.0.1 (eq_of_eq_text a.id t.id same) in
      rw (same, find_token)
        (sym (Assoc.get_head k a l) ∙ ap (λ z. Assoc.get z ((k, a) ∷ l)) here ∙ e)
  | inr other ↦
      rw (other, find_token)
        (find_token-get t hash l h.1 (
          Assoc.get_behind hash k t a l
            (λ at. cc (other, ap (eq_text a.id) (sym (h.0.0 (sym at))), eq_text_self a.id)) e))
]

module _ {F : Type 0} (x : Services F) (hash : Text) where
  insert_refuses :
      (sent created_by : Text) (tokens : Tokens) (made : ApiToken)
      → IsNew x created_by (x.hash_token sent) made
      → x.hash_token sent ≢ hash
      → IsRefused hash tokens
      → IsRefused hash (Assoc.insert made.token_hash made tokens)
  insert_refuses sent created_by tokens made is_new fresh h =
      Assoc.All-insert (λ e. e.0 ≡ hash → e.1.is_active ≡ false) made.token_hash made tokens
        (λ same. absurd (fresh (sym is_new.1 ∙ same))) h

  created_refuses :
      (sent created_by : Text) (tokens : Tokens)
      (r : Result Failure (Text × ApiToken) × ApiTokenStore F)
      → Made x sent created_by tokens r
      → x.hash_token sent ≢ hash
      → IsRefused hash tokens
      → IsRefused hash r.1.tokens
  created_refuses sent created_by tokens (err why, s') (inl same) fresh h =
      subst (IsRefused hash) (sym same) h
  created_refuses sent created_by tokens (err why, s') (inr (made, is_new, stored)) fresh h =
      subst (IsRefused hash) (sym stored)
        (insert_refuses sent created_by tokens made is_new fresh h)
  created_refuses sent created_by tokens (ok (token, made), s') (is_sent, is_new, stored, _) fresh
        h =
      subst (IsRefused hash) (sym stored) (
        insert_refuses token created_by tokens made is_new
          (λ e. fresh (ap x.hash_token (sym is_sent) ∙ e)) h)

  validated_refuses :
      (now : DateTime) (token : Text) (s : ApiTokenStore F)
      → IsRefused hash s.tokens
      → IsRefused hash (validate_token x now token s).1.tokens
  unfolding validate_token saved save update_last_used
  validated_refuses now token s h = elim (Option-cases (Assoc.get (x.hash_token token) s.tokens)) [
    | inl e ↦ rw (e, validate_token) h
    | inr (t, e) ↦ elim (Bool-cases (is_valid now t)) [
      | inr v ↦ rw (e, validate_token, v) h
      | inl v ↦
          let refused =
            Assoc.All-get (λ e. e.0 ≡ hash → e.1.is_active ≡ false) (x.hash_token token) t s.tokens
              e h in
          rw (e, validate_token, v)
            (Assoc.All-insert (λ e. e.0 ≡ hash → e.1.is_active ≡ false) (x.hash_token token)
              (update_last_used now t) s.tokens refused h)
    ]
  ]

  revoked_refuses :
      (token_id user_id : Text) (s : ApiTokenStore F)
      → IsRefused hash s.tokens
      → IsRefused hash (revoke_token x token_id user_id s).1.tokens
  unfolding revoke_token saved save
  revoked_refuses token_id user_id s h = elim (Option-cases (find_token token_id s.tokens)) [
    | inl e ↦ rw (e, revoke_token) h
    | inr (t, e) ↦ elim (Bool-cases (eq_text t.created_by user_id)) [
      | inr v ↦ rw (e, revoke_token, v) h
      | inl v ↦ rw (e, revoke_token, v) (revoke_first-IsRefused hash token_id s.tokens h)
    ]
  ]

  cleaned_refuses :
      (now : DateTime) (s : ApiTokenStore F)
      → IsRefused hash s.tokens
      → IsRefused hash (cleanup_expired x now s).1.tokens
  unfolding cleanup_expired saved save
  cleaned_refuses now s h =
      let kept =
        All-filter (λ e. e.0 ≡ hash → e.1.is_active ≡ false) (λ e. not (is_expired now e.1))
          s.tokens h in
      elim (Bool-cases
        (ltb 0 (length s.tokens - length (filter (λ e. not (is_expired now e.1)) s.tokens)))) [
          | inl e ↦ rw e kept
          | inr e ↦ rw e kept
        ]

  step-IsRefused :
      (s s' : ApiTokenStore F)
      → Step x hash s s'
      → IsRefused hash s.tokens
      → IsRefused hash s'.tokens
  unfolding delete_token save
  step-IsRefused s _ (created now id token_bytes name created_by days fresh) h =
      created_refuses (generate_token token_bytes) created_by s.tokens _
        (create_token-Made x now id token_bytes name created_by days s) fresh h
  step-IsRefused s _ (validated now token) h = validated_refuses now token s h
  step-IsRefused s _ (revoked token_id user_id) h = revoked_refuses token_id user_id s h
  step-IsRefused s _ (deleted token_id) h =
      All-filter (λ e. e.0 ≡ hash → e.1.is_active ≡ false) (λ e. not (eq_text e.1.id token_id))
        s.tokens h
  step-IsRefused s _ (cleaned now) h = cleaned_refuses now s h
  step-IsRefused s _ (mounted can_write) h = h

  steps-IsRefused :
      (s s' : ApiTokenStore F)
      → Steps x hash s s'
      → IsRefused hash s.tokens
      → IsRefused hash s'.tokens
  steps-IsRefused s _ none_yet h = h
  steps-IsRefused s s' (next s1 _ before step) h =
      step-IsRefused s1 s' step (steps-IsRefused s s1 before h)

  verdict_refused :
      (can_write : Bool) (now : DateTime) (l : Tokens)
      → IsRefused hash l
      → verdict can_write now (Assoc.get hash l) ≡ err LoraDbError.auth_error
  unfolding verdict is_valid
  verdict_refused can_write now l h = elim (Option-cases (Assoc.get hash l)) [
    | inl e ↦ rw e refl
    | inr (t, e) ↦
        rw (e, Assoc.All-get (λ e. e.0 ≡ hash → e.1.is_active ≡ false) hash t l e h refl) refl
  ]

module _ {F : Type 0} (x : Services F) where
  -- Where a token is stored under the hash of its text, as the only one with its id, its creator can
  -- revoke it by the id, with an error just if the file cannot be written; in either case, after any
  -- operations that do not make a token with that hash again, and whether the file can be written then
  -- or not, it is refused at every time.
  pub revoke_token-refused :
      (token user_id : Text) (t : ApiToken) (s s' : ApiTokenStore F) (now : DateTime)
      → Assoc.IsSorted s.tokens
      → Assoc.get (x.hash_token token) s.tokens ≡ some t
      → t.created_by ≡ user_id
      → All (λ e. (e.0 ≡ x.hash_token token) ↔ (e.1.id ≡ t.id)) s.tokens
      → Steps x (x.hash_token token) (revoke_token x t.id user_id s).1 s'
      → ((revoke_token x t.id user_id s).0
          ≡ (if s.is_writable then ok tt else err LoraDbError.io_error))
        × ((validate_token x now token s').0 ≡ err LoraDbError.auth_error)
  unfolding revoke_token saved save
  revoke_token-refused token user_id t s s' now sorted stored by unique steps =
      let found = find_token-get t (x.hash_token token) s.tokens unique stored in
      let owned : eq_text t.created_by user_id ≡ true = rw by (eq_text_self user_id) in
      let revoked : revoke_token x t.id user_id s ≡ saved x tt (revoke_first t.id s.tokens) s =
        rw (found, revoke_token, owned) refl in
      (
        ap (λ r. r.0) revoked ∙ saved-result x tt (revoke_first t.id s.tokens) s,
        validate_token-verdict x now token s'
            ∙ verdict_refused x (x.hash_token token) s'.is_writable now s'.tokens (
                steps-IsRefused x (x.hash_token token) _ s' steps (
                  subst (λ r. IsRefused (x.hash_token token) r.1.tokens) (sym revoked)
                    (revoke_first-refuses (x.hash_token token) t.id s.tokens sorted unique))),
      )
