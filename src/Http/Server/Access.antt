-- ===== src/Http/Server/Access.antt =====
-- Requests without a valid token.
use room_booking.Base.{
  some, GoString, codes, Bool, true, false, any, text_eq, has_prefix, trim_prefix, ◌≡◌, refl,
  Bool-cases, ◌⊎◌, inl, inr,
}
use room_booking.Domain.Entities.{Uuid}
use room_booking.Domain.Errors.{Error, Result, ok, err}
use room_booking.Auth.Jwt.{Claims, parse}
use room_booking.Storage.World.{World}
use room_booking.Http.Middleware.{public_paths, auth, logging}
use room_booking.Http.Server.{
  Endpoint, Server, Request, handle, authorized, serve, path_of, info, dummy_login, login, register,
  rooms_list, rooms_create, schedule_create, slots_list, bookings_create, bookings_list,
  bookings_my, bookings_cancel,
}

-- The token of a request, as the middleware reads it.
abbrev pub token_of : Server → Request → Result Claims
token_of s r =
    parse s.jwt s.manager r.readings.checked_at (trim_prefix r.authorization (codes "Bearer "))

-- The endpoints that answer without a token.
abbrev pub is_public : Endpoint → Bool
is_public info = true
is_public (dummy_login _) = true
is_public (login _) = true
is_public (register _) = true
is_public _ = false

pub path-public :
    (uuid_string : Uuid → GoString) (e : Endpoint)
    → any (text_eq (path_of uuid_string e)) public_paths ≡ is_public e
unfolding text_eq
path-public u info = refl
path-public u (dummy_login _) = refl
path-public u (login _) = refl
path-public u (register _) = refl
path-public u rooms_list = refl
path-public u (rooms_create _) = refl
path-public u (schedule_create _ _) = refl
path-public u (slots_list _ _) = refl
path-public u (bookings_create _) = refl
path-public u (bookings_list _ _) = refl
path-public u bookings_my = refl
path-public u (bookings_cancel _) = refl

pub authorized-token :
    (s : Server) (r : Request) {claims : Claims}
    → is_public r.endpoint ≡ false
    → has_prefix r.authorization (codes "Bearer ") ≡ true
    → token_of s r ≡ ok claims
    → authorized s r ≡ handle s r.readings r.endpoint (some claims)
unfolding auth
authorized-token s r closed header valid =
    rw (path-public s.uuid_string r.endpoint, closed) (rw (header, valid) refl)

-- An endpoint that is not public answers a request without a bearer token, or with a token that the
-- manager does not accept, with 401, and nothing changes.
pub serve-unauthorized :
    (s : Server) (r : Request) (w : World)
    → is_public r.endpoint ≡ false
    → (has_prefix r.authorization (codes "Bearer ") ≡ false)
      ⊎ ((e : Error) × (token_of s r ≡ err e))
    → ((serve s r w).0.0.status ≡ 401) × ((serve s r w).1 ≡ w)
unfolding serve logging auth
serve-unauthorized s r w closed (inl missing) =
    rw (path-public s.uuid_string r.endpoint, closed) (rw missing (refl, refl))
serve-unauthorized s r w closed (inr (e, invalid)) =
    elim (Bool-cases (has_prefix r.authorization (codes "Bearer "))) [
      | inl header ↦
          rw (path-public s.uuid_string r.endpoint, closed) (rw (header, invalid) (refl, refl))
      | inr missing ↦ rw (path-public s.uuid_string r.endpoint, closed) (rw missing (refl, refl))
    ]
