-- ===== src/Auth/Jwt.antt =====
-- internal/auth/jwt.go over the library golang-jwt.
use room_booking.Base.{
  ℕ, ◌*◌, ◌/◌, ◌<◌, ◌≤◌, GoString, codes, Option, none, some, text_eq, if◌then◌else◌, ◌≡◌,
}
use room_booking.Domain.Time.{Time, add, second}
use room_booking.Domain.Errors.{plain, wrap, Result, ok, err}

-- The claims of a token; a numeric date is in whole seconds since the zero time.
pub record Claims : Type 0 where
  pub user_id : GoString
  pub role : GoString
  pub expires_at : ℕ
  pub issued_at : ℕ

-- golang-jwt: `SignedString` of a token made by `NewWithClaims(SigningMethodHS256, claims)`, for a
-- secret; `ParseWithClaims` with a key function, which sees the algorithm named in the token, at
-- the time of the call in nanoseconds.
pub record JwtLibrary : Type 0 where
  pub sign : GoString → Claims → Option GoString
  pub parse_with_claims : (GoString → Option GoString) → ℕ → GoString → Option Claims

-- What the library documents: a token that was signed is parsed back with the key that signed it
-- until it expires, and not from then on.
pub record JwtLaws (lib : JwtLibrary) : Type 0 where
  pub parses :
      (secret token : GoString) (claims : Claims) (key : GoString → Option GoString) (now : ℕ)
      → lib.sign secret claims ≡ some token
      → key (codes "HS256") ≡ some secret
      → now < claims.expires_at * second
      → lib.parse_with_claims key now token ≡ some claims
  pub expires :
      (secret token : GoString) (claims : Claims) (key : GoString → Option GoString) (now : ℕ)
      → lib.sign secret claims ≡ some token
      → claims.expires_at * second ≤ now
      → lib.parse_with_claims key now token ≡ none

pub record JwtManager : Type 0 where
  pub secret : GoString

abbrev pub new_jwt_manager : GoString → JwtManager
new_jwt_manager secret = record { secret = secret }

-- `jwt.NewNumericDate`
abbrev pub numeric_date : Time → ℕ
numeric_date t = t.nanos / second

abbrev pub signed : Option GoString → Result GoString
signed none = err (plain "sign token")
signed (some token) = ok token

abbrev pub parsed : Option Claims → Result Claims
parsed none = err (wrap "parse token" (plain "token is invalid"))
parsed (some claims) = ok claims

module _ (lib : JwtLibrary) where
  -- `now` and `later` are the two readings of the clock.
  unfoldable pub generate : JwtManager → Time → Time → GoString → GoString → ℕ → Result GoString
  generate m now later user_id role ttl = signed (
      lib.sign m.secret (record {
        user_id = user_id;
        role = role;
        expires_at = numeric_date (add now ttl);
        issued_at = numeric_date later;
      }))

  -- The key function: only HS256 has a key.
  abbrev pub key_for : JwtManager → GoString → Option GoString
  key_for m alg = if text_eq alg (codes "HS256") then some m.secret else none

  unfoldable pub parse : JwtManager → Time → GoString → Result Claims
  parse m now token = parsed (lib.parse_with_claims (key_for m) now.nanos token)
