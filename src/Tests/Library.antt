-- ===== src/Tests/Library.antt =====
-- A library of tokens that has the laws asked of golang-jwt: the token spells the claims. The
-- other parameters of the server, as small concrete functions.
use room_booking.Base.{
  ℕ, ◌*◌, ◌<◌, ◌≤◌, [], ◌∷◌, ◌++◌, Option, none, some, GoString, codes, text_eq, text_eq_refl, true,
  false, ltb, length, take, drop, if◌then◌else◌, ◌≡◌, refl, ap, arith,
}
use mathlib.Core.Path.{subst}
use room_booking.Domain.Time.{second}
use room_booking.Domain.Entities.{Uuid}
use room_booking.Auth.Jwt.{Claims, JwtLibrary, JwtLaws}
use room_booking.Auth.Password.{BcryptLibrary, BcryptLaws}
use room_booking.Http.Server.{Server}

abbrev spell : Claims → GoString
spell c = c.expires_at ∷ c.issued_at ∷ length c.user_id ∷ (c.user_id ++ c.role)

abbrev read : GoString → ℕ → Option Claims
read (e ∷ i ∷ n ∷ rest) now =
    if ltb now (e * second)
    then some (record { user_id = take n rest; role = drop n rest; expires_at = e; issued_at = i })
    else none
read _ now = none

abbrev pub toy_jwt : JwtLibrary
toy_jwt = record {
  sign = λ secret claims. some (spell claims);
  parse_with_claims = λ key now token. read token now;
}

take_front : (s t : GoString) → take (length s) (s ++ t) ≡ s
take_front [] t = refl
take_front (a ∷ s) t = ap (λ r. a ∷ r) (take_front s t)

drop_front : (s t : GoString) → drop (length s) (s ++ t) ≡ t
drop_front [] t = refl
drop_front (a ∷ s) t = drop_front s t

read-spell : (c : Claims) (now : ℕ) → now < c.expires_at * second → read (spell c) now ≡ some c
read-spell c now early =
    let in_time : ltb now (c.expires_at * second) ≡ true = ground arith in
    rw (in_time, take_front c.user_id c.role, drop_front c.user_id c.role) refl

read_late : (c : Claims) (now : ℕ) → c.expires_at * second ≤ now → read (spell c) now ≡ none
read_late c now late =
    let too_late : ltb now (c.expires_at * second) ≡ false = ground arith in rw too_late refl

spelled : {s t : GoString} → some s ≡ some t → s ≡ t
spelled e = cc

pub toy_jwt-JwtLaws : JwtLaws toy_jwt
toy_jwt-JwtLaws = record {
  parses = λ secret token claims key now signed has_key early.
      subst (λ t. read t now ≡ some claims) (spelled signed) (read-spell claims now early);
  expires = λ secret token claims key now signed late.
      subst (λ t. read t now ≡ none) (spelled signed) (read_late claims now late);
}

-- A hash is the password behind a dollar sign.
abbrev pub toy_bcrypt : BcryptLibrary
toy_bcrypt = record {
  generate_from_password = λ raw. some (36 ∷ raw);
  compare_hash_and_password = λ hash raw. text_eq hash (36 ∷ raw);
}

pub toy_bcrypt-BcryptLaws : BcryptLaws toy_bcrypt
unfolding text_eq
toy_bcrypt-BcryptLaws = record {
  compares = λ raw hash made.
      subst (λ h. text_eq h (36 ∷ raw) ≡ true) (spelled made) (text_eq_refl (36 ∷ raw));
  not_empty = λ raw hash made. subst (λ h. text_eq h [] ≡ false) (spelled made) refl;
}

abbrev one_byte : GoString → Option Uuid
one_byte (n ∷ []) = some n
one_byte _ = none

-- A server whose UUIDs are written as one byte.
abbrev pub toy_server : Server
toy_server = record {
  jwt = toy_jwt;
  bcrypt = toy_bcrypt;
  texts = record { valid_address = λ address. true; lower_unicode = λ text. text };
  uuid_string = λ id. id ∷ [];
  parse_uuid = one_byte;
  map_order = λ set. set;
  pg_time = λ text. none;
  split_host = λ address. none;
  manager = record { secret = codes "secret" };
}
