-- ===== src/Service/AuthService/Tokens.antt =====
-- The tokens of `AuthService`: what the middleware reads back from one.
use room_booking.Base.{
  ℕ, ◌*◌, ◌<◌, ◌≤◌, GoString, codes, Option, none, some, text_eq, text_eq_refl, text_eq_iff, ◌≡◌,
  refl, ap, sym, ◌⊎◌, inl, inr, Bool-cases, ltb, arith, if◌then◌else◌,
}
use room_booking.Domain.Time.{Time, add, second}
use room_booking.Domain.Entities.{Uuid}
use room_booking.Domain.Codes.{role_admin, role_user}
use room_booking.Domain.Errors.{ok, ok-injective, ok-ne-err}
use room_booking.Auth.Jwt.{
  Claims, JwtLibrary, JwtLaws, JwtManager, numeric_date, generate, key_for, parse, signed, parsed,
}
use room_booking.Auth.Password.{BcryptLibrary}
use room_booking.Service.AuthService.{
  TextLibrary, admin_user_id, normal_user_id, token_ttl, dummy_login,
}

-- The claims that `Generate` signs.
abbrev pub claims_of : Time → Time → GoString → GoString → ℕ → Claims
claims_of now later user_id role ttl = record {
  user_id = user_id;
  role = role;
  expires_at = numeric_date (add now ttl);
  issued_at = numeric_date later;
}

signed-ok : (o : Option GoString) {token : GoString} → signed o ≡ ok token → o ≡ some token
signed-ok none e = absurd (ok-ne-err (sym e))
signed-ok (some t) e = ap some (ok-injective e)

module _ (jwt : JwtLibrary) (laws : JwtLaws jwt) (manager : JwtManager) where
  generate-signed :
      (now later : Time) (user_id role : GoString) (ttl : ℕ) {token : GoString}
      → generate jwt manager now later user_id role ttl ≡ ok token
      → jwt.sign manager.secret (claims_of now later user_id role ttl) ≡ some token
  unfolding generate
  generate-signed now later user_id role ttl e = signed-ok _ e

  parse-early :
      (now later at : Time) (user_id role : GoString) (ttl : ℕ) {token : GoString}
      → generate jwt manager now later user_id role ttl ≡ ok token
      → at.nanos < numeric_date (add now ttl) * second
      → parse jwt manager at token ≡ ok (claims_of now later user_id role ttl)
  unfolding parse
  parse-early now later at user_id role ttl {token} e early = ap parsed (
      laws.parses manager.secret token (claims_of now later user_id role ttl) (key_for jwt manager)
        at.nanos (generate-signed now later user_id role ttl e)
        (rw (text_eq_refl (codes "HS256")) refl) early)

  parse-late :
      (now later at : Time) (user_id role : GoString) (ttl : ℕ) {token : GoString}
      → generate jwt manager now later user_id role ttl ≡ ok token
      → numeric_date (add now ttl) * second ≤ at.nanos
      → parse jwt manager at token ≡ parsed none
  unfolding parse
  parse-late now later at user_id role ttl {token} e late = ap parsed (
      laws.expires manager.secret token (claims_of now later user_id role ttl) (key_for jwt manager)
        at.nanos (generate-signed now later user_id role ttl e) late)

  -- A token is parsed by the manager that made it, to the claims it was made of, as long as it has
  -- not expired, and refused from then on.
  pub generate-parse :
      (now later at : Time) (user_id role : GoString) (ttl : ℕ) {token : GoString}
      → generate jwt manager now later user_id role ttl ≡ ok token
      → parse jwt manager at token ≡ (
          if ltb at.nanos (numeric_date (add now ttl) * second)
          then ok (claims_of now later user_id role ttl)
          else parsed none)
  generate-parse now later at user_id role ttl e =
      elim (Bool-cases (ltb at.nanos (numeric_date (add now ttl) * second))) [
        | inl early ↦ rw early (parse-early now later at user_id role ttl e (ground (arith, early)))
        | inr late ↦ rw late (parse-late now later at user_id role ttl e (ground (arith, late)))
      ]

  -- DummyLogin gives out a token for a known role only, and until the token expires the manager
  -- parses it to claims with that role and its fixed user.
  pub dummy_login-parse :
      (bcrypt : BcryptLibrary) (texts : TextLibrary) (uuid_string : Uuid → GoString)
      (now later at : Time) (role : GoString) {token : GoString}
      → dummy_login jwt bcrypt texts uuid_string manager now later role ≡ ok token
      → at.nanos < numeric_date (add now token_ttl) * second
      → ((role ≡ role_admin)
          × (parse jwt manager at token ≡ ok (claims_of now later admin_user_id role token_ttl)))
        ⊎ ((role ≡ role_user)
            × (parse jwt manager at token ≡ ok (claims_of now later normal_user_id role token_ttl)))
  unfolding dummy_login
  dummy_login-parse bcrypt texts uuid_string now later at role {token} e early =
      elim (Bool-cases (text_eq role role_admin)) [
        | inl admin ↦ inl (
          (text_eq_iff role role_admin).0 admin,
          parse-early now later at admin_user_id role token_ttl (rw admin at e) early,
        )
        | inr not_admin ↦ elim (Bool-cases (text_eq role role_user)) [
          | inl user ↦ inr (
            (text_eq_iff role role_user).0 user,
            parse-early now later at normal_user_id role token_ttl (rw (not_admin, user) at e)
                early,
          )
          | inr other ↦ absurd (ok-ne-err (sym (rw (not_admin, other) at e)))
        ]
      ]
