-- ===== src/Http/Server/Sessions.antt =====
-- Requests with a token that a login gave out.
use room_booking.Base.{
  GoString, codes, ◌++◌, ◌*◌, some, true, false, ltb, has_prefix, trim_prefix, Bool-cases,
  if◌then◌else◌, ◌≡◌, inl, inr, refl,
}
use room_booking.Domain.Time.{Time, add, second}
use room_booking.Domain.Entities.{Uuid}
use room_booking.Domain.Codes.{role_code_by_id}
use room_booking.Domain.Errors.{ok}
use room_booking.Auth.Jwt.{Claims, JwtLaws, numeric_date}
use room_booking.Storage.Tables.{UserRow}
use room_booking.Storage.World.{World}
use room_booking.Service.AuthService.{login, token_ttl}
use room_booking.Service.AuthService.Tokens.{claims_of, generate-parse}
use room_booking.Service.AuthService.LoginSound.{IsLogin, login-IsLogin}
use room_booking.Http.Api as Api
use room_booking.Http.Errors.{error_reply}
use room_booking.Http.Handlers.{actor_from_context}
use room_booking.Http.Middleware.{auth, logging}
use room_booking.Http.Server.{Server, Request, handle, serve}
use room_booking.Http.Server.Access.{is_public, path-public}

bearer_prefix : (token : GoString) → has_prefix (codes "Bearer " ++ token) (codes "Bearer ") ≡ true
unfolding has_prefix
bearer_prefix token = refl

bearer_token : (token : GoString) → trim_prefix (codes "Bearer " ++ token) (codes "Bearer ") ≡ token
unfolding trim_prefix has_prefix
bearer_token token = refl

module _ (s : Server) (laws : JwtLaws s.jwt)
    (reads : (id : Uuid) → s.parse_uuid (s.uuid_string id) ≡ some id) (now later : Time)
    (email password : GoString) where
  -- The claims of a token that was given out to the user of a row.
  abbrev pub claims_for : UserRow → Claims
  claims_for row =
      claims_of now later (s.uuid_string row.id) (role_code_by_id row.role_id) token_ttl

  -- The handlers see that user.
  actor-claims_for :
      (row : UserRow)
      → actor_from_context s.parse_uuid (some (claims_for row))
        ≡ ok (record { user_id = row.id; role = role_code_by_id row.role_id })
  unfolding actor_from_context
  actor-claims_for row = rw (reads row.id) refl

  -- If the library of tokens keeps its laws and UUIDs are read back from their text, whatever other
  -- clients write and however the connection fails: when Login gives out a token, then for a user
  -- that the database holds under the normalized address and whose hash matches the password; and
  -- in any world a request with the token as bearer to an endpoint that is not public is handled
  -- with claims of that user's id and role until the token expires, and from then on answered with
  -- 401, and nothing changes.
  pub serve-login :
      (w : World) {token : GoString} (r : Request) (w' : World)
      → (login s.jwt s.bcrypt s.texts s.uuid_string s.manager now later email password w).0
        ≡ ok token
      → is_public r.endpoint ≡ false
      → r.authorization ≡ codes "Bearer " ++ token
      → (l : IsLogin s.jwt s.bcrypt s.texts s.uuid_string s.manager now later email password token
          (login s.jwt s.bcrypt s.texts s.uuid_string s.manager now later email password w).1.db)
        × (actor_from_context s.parse_uuid (some (claims_for l.row))
            ≡ ok (record { user_id = l.row.id; role = role_code_by_id l.row.role_id }))
        × (((serve s r w').0.0, (serve s r w').1) ≡ (
            if ltb r.readings.checked_at.nanos (numeric_date (add now token_ttl) * second)
            then handle s r.readings r.endpoint (some (claims_for l.row)) w'
            else (error_reply 401 Api.unauthorized "invalid token", w')))
  unfolding serve logging auth
  serve-login w {token} r w' given closed bearer =
      let l =
        login-IsLogin s.jwt s.bcrypt s.texts s.uuid_string s.manager now later email password w
          given in
      let parsed_so =
        generate-parse s.jwt laws s.manager now later r.readings.checked_at (s.uuid_string l.row.id)
          (role_code_by_id l.row.role_id) token_ttl l.made in
      (
        l,
        actor-claims_for l.row,
        elim (Bool-cases
            (ltb r.readings.checked_at.nanos (numeric_date (add now token_ttl) * second))) [
              | inl early ↦
                  rw (path-public s.uuid_string r.endpoint, closed, bearer)
                    (rw (bearer_prefix token, bearer_token token, parsed_so, early) refl)
              | inr expired ↦
                  rw (path-public s.uuid_string r.endpoint, closed, bearer)
                    (rw (bearer_prefix token, bearer_token token, parsed_so, expired) refl)
            ],
      )
