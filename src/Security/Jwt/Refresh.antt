-- ===== src/Security/Jwt/Refresh.antt =====
-- Refreshing a token of src/security/jwt.rs.
use lo_ra_db.Prelude.{
  ℕ, ◌+◌, ◌*◌, ◌/◌, ◌^◌, List, ◌<◌, ◌≤◌, ◌≡◌, refl, true, none, some, ok, err, if◌then◌else◌, ltb,
  arith, ◌∙◌, ap,
}
use lo_ra_db.Prelude.Int.{pos}
use lo_ra_db.Model.Text.{Text}
use lo_ra_db.Model.Lorawan.{LoraDbError, error}
use lo_ra_db.Model.Frames.{DateTime}
use lo_ra_db.Security.Jwt.{
  Claims, JwtService, Signer, service_of, new, generate_token, validate_token, refresh_token,
  with_expiration_hours,
}

abbrev pub at : ℕ → DateTime
at nanos = record { nanos = pos nanos }

-- What the service relies on: claims can be signed; a token checked with its own key gives its
-- claims, unless it ended before the time of the check less the leeway, which is taken from the time; and an hour can be added to
-- a time before the year 9000.
pub record SignerLaws (x : Signer) : Type 0 where
  pub encodes : (secret : List ℕ) (c : Claims) → (token : Text) × (x.encode secret c ≡ some token)
  pub decodes :
      (s : JwtService) (c : Claims) (token : Text) (exp now : ℕ)
      → s.validate_exp ≡ true
      → x.encode s.secret c ≡ some token
      → c.exp ≡ pos exp
      → s.leeway ≤ now / 1000000000
      → x.decode (at now) s token
        ≡ (if ltb (exp + s.leeway) (now / 1000000000) then none else some c)
  pub adds_hour :
      (now : ℕ)
      → now < 221845392000 * 10 ^ 9
      → x.add_hours (at now) (pos 1) ≡ some (at (now + 3600000000000))

-- The claims of a token that is refreshed.
abbrev pub refreshed : ℕ → Text → Claims
refreshed now sub = record {
  sub = sub;
  exp = pos (now / 1000000000 + 3600);
  iat = pos (now / 1000000000);
  role = none;
}

module _ (x : Signer) (law : SignerLaws x) where
  new-refreshed :
      (now : ℕ) (sub : Text)
      → now < 221845392000 * 10 ^ 9
      → new x (at now) sub ≡ ok (refreshed now sub)
  unfolding new with_expiration_hours
  new-refreshed now sub early =
      rw (law.adds_hour now early, with_expiration_hours)
        (ap (λ e. ok (record (refreshed now sub) { exp = pos e })) (omega arith))

  validate_token-encode :
      (s : JwtService) (c : Claims) (token : Text) (exp now : ℕ)
      → s.validate_exp ≡ true
      → x.encode s.secret c ≡ some token
      → c.exp ≡ pos exp
      → s.leeway ≤ now / 1000000000
      → validate_token x (at now) s token ≡ (
          if ltb (exp + s.leeway) (now / 1000000000)
          then err (error LoraDbError.auth_error)
          else ok c)
  unfolding validate_token
  validate_token-encode s c token exp now checks signed ends late =
      ground (arith, law.decodes s c token exp now checks signed ends late)

  -- Refreshing a token that is valid gives a token of the same subject, without a role, that is
  -- accepted until an hour and the leeway of a minute have passed, and refused after that.
  pub validate_token-refresh_token :
      (secret : List ℕ) (old_token : Text) (claims : Claims) (now later : ℕ)
      → now < 221845392000 * 10 ^ 9
      → 60 ≤ later / 1000000000
      → validate_token x (at now) (service_of secret) old_token ≡ ok claims
      → (new_token : Text) × (refresh_token x (at now) (service_of secret) old_token ≡ ok new_token)
        × (validate_token x (at later) (service_of secret) new_token ≡ (
            if ltb (now / 1000000000 + 3660) (later / 1000000000)
            then err (error LoraDbError.auth_error)
            else ok (refreshed now claims.sub)))
  unfolding refresh_token generate_token
  validate_token-refresh_token secret old_token claims now later early late valid =
      let c = refreshed now claims.sub in
      let (token, signed) = law.encodes secret c in
      (
        token,
        rw (valid, new-refreshed now claims.sub early, signed, generate_token) refl,
        validate_token-encode (service_of secret) c token (now / 1000000000 + 3600) later refl
              signed refl late
            ∙ ap
                (λ k.
                  if ltb k (later / 1000000000) then err (error LoraDbError.auth_error) else ok c)
                (omega arith),
      )
