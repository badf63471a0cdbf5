-- ===== src/Security/Jwt.antt =====
-- src/security/jwt.rs: the claims and the service. Signing and checking are parameters, as is the
-- sum of a time and hours; the clock is an argument.
pub mod Refresh
use lo_ra_db.Prelude.{
  ℕ, ◌+◌, ◌*◌, ◌<◌, ◌≡◌, Bool, true, false, Option, none, some, Result, ok, err, ◌>>=◌,
  if◌then◌else◌, ltb, List, length,
}
use lo_ra_db.Prelude.Int.{ℤ, pos, div_floor, int_ord, ◌-ℤ◌}
use lo_ra_db.Prelude.Order.{le}
use lo_ra_db.Model.Text.{Text, byte_len}
use lo_ra_db.Model.Lorawan.{LoraDbError, Failure, error, panic}
use lo_ra_db.Model.Frames.{DateTime}

-- `DateTime::timestamp`, in seconds.
abbrev pub timestamp_seconds : DateTime → ℤ
timestamp_seconds t = div_floor t.nanos 1000000000

pub record Claims : Type 0 where
  pub sub : Text
  pub exp : ℤ
  pub iat : ℤ
  pub role : Option Text

-- The settings of the check: `validate_nbf` is off.
pub record JwtService : Type 0 where
  pub secret : List ℕ
  pub validate_exp : Bool
  pub leeway : ℕ

-- `encode` and `decode` of the signing library at the time of the call, base64, the bytes of a text,
-- `now + Duration::hours(n)`, which panics (`none`) out of range, and `DateTime::from_timestamp`.
pub record Signer : Type 0 where
  pub encode : List ℕ → Claims → Option Text
  pub decode : DateTime → JwtService → Text → Option Claims
  pub decode_base64 : Text → Option (List ℕ)
  pub as_bytes : Text → List ℕ
  pub add_hours : DateTime → ℤ → Option DateTime
  pub from_timestamp : ℤ → Option DateTime

unfoldable pub is_expired : DateTime → Claims → Bool
is_expired now c = le c.exp (timestamp_seconds now)

-- A claim with a given end.
unfoldable pub with_expiration : DateTime → Text → DateTime → Claims
with_expiration now user_id expiration = record {
  sub = user_id;
  exp = timestamp_seconds expiration;
  iat = timestamp_seconds now;
  role = none;
}

-- What both constructors of the service make of a long enough key.
abbrev pub service_of : List ℕ → JwtService
service_of secret = record { secret = secret; validate_exp = true; leeway = 60 }

module _ (x : Signer) where
  unfoldable pub with_expiration_hours : DateTime → Text → ℤ → Result Failure Claims
  with_expiration_hours now user_id hours = elim (x.add_hours now hours) [
    | none ↦ err panic
    | some exp ↦ ok (record {
      sub = user_id;
      exp = timestamp_seconds exp;
      iat = timestamp_seconds now;
      role = none;
    })
  ]

  unfoldable pub new : DateTime → Text → Result Failure Claims
  new now user_id = with_expiration_hours now user_id (pos 1)

  unfoldable pub with_role : DateTime → Text → Text → Result Failure Claims
  with_role now user_id role = do claims ← new now user_id; ok (record claims { role = some role })

  -- The time that is left, in nanoseconds.
  unfoldable pub time_until_expiration : DateTime → Claims → Option ℤ
  time_until_expiration now c = elim (x.from_timestamp c.exp) [
    | none ↦ none
    | some exp_time ↦
        if le exp_time.nanos now.nanos then none else some (exp_time.nanos -ℤ now.nanos)
  ]

  unfoldable pub new_service : Text → Result LoraDbError JwtService
  new_service secret =
      if ltb (byte_len secret) 32
      then err LoraDbError.auth_error
      else ok (service_of (x.as_bytes secret))

  unfoldable pub from_base64_secret : Text → Result LoraDbError JwtService
  from_base64_secret encoded_secret = elim (x.decode_base64 encoded_secret) [
    | none ↦ err LoraDbError.auth_error
    | some secret_bytes ↦
        if ltb (length secret_bytes) 32
        then err LoraDbError.auth_error
        else ok (service_of secret_bytes)
  ]

  unfoldable pub generate_token : JwtService → Claims → Result Failure Text
  generate_token service claims = elim (x.encode service.secret claims) [
    | none ↦ err (error LoraDbError.auth_error)
    | some token ↦ ok token
  ]

  unfoldable pub validate_token : DateTime → JwtService → Text → Result Failure Claims
  validate_token now service token = elim (x.decode now service token) [
    | none ↦ err (error LoraDbError.auth_error)
    | some claims ↦ ok claims
  ]

  unfoldable pub refresh_token : DateTime → JwtService → Text → Result Failure Text
  refresh_token now service old_token = do
    claims ← validate_token now service old_token
    new_claims ← new now claims.sub
    generate_token service new_claims
