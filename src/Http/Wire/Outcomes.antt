-- ===== src/Http/Wire/Outcomes.antt =====
-- What a client gets for a request that can be read, and for one that cannot.
use room_booking.Base.{
  Option, none, some, some-injective, codes, text_eq, Bool, true, false, not, any, has_prefix,
  trim_prefix, ◌≡◌, ◌⊎◌, inl, inr, refl, ap, if◌then◌else◌,
}
use room_booking.Domain.Errors.{Result, ok, err}
use room_booking.Storage.World.{World}
use room_booking.Auth.Jwt.{Claims, parse}
use room_booking.Http.Api.{Served}
use room_booking.Http.Middleware.{auth, logging, parsed_token, public_paths}
use room_booking.Http.Server.{
  Endpoint, Server, Readings, Request, handle, path_of, method_of, serve,
}
use room_booking.Http.Wire.Binding.{Binders}
use room_booking.Http.Wire.Strict.{Decoders}
use room_booking.Http.Wire.{Incoming, route_request, authenticated, receive}
use room_booking.Http.Wire.Decoding.{endpoint_of, Decoded, handled, invalid, route-Decoded}

-- The reply is 400 or 401 and nothing changes.
pub record Refuses (f : Served) : Type 0 where
  pub unchanged : (w : World) → (f w).1 ≡ w
  pub status : (w : World) → ((f w).0.status ≡ 400) ⊎ ((f w).0.status ≡ 401)

if-Refuses : {x y : Served} (b : Bool) → Refuses x → Refuses y → Refuses (if b then x else y)
if-Refuses true p q = p
if-Refuses false p q = q

module _ (s : Server) (t : Readings) where
  Decoded-handle :
      (claims : Option Claims) {o : Option Endpoint} {f : Served}
      → Decoded s t claims o f
      → (e : Endpoint) → o ≡ some e
      → f ≡ handle s t e claims
  Decoded-handle claims (handled e') e same = ap (λ x. handle s t x claims) (some-injective same)
  Decoded-handle claims (invalid r status) e same = absurd (cc)

  Decoded-Refuses :
      (claims : Option Claims) {o : Option Endpoint} {f : Served}
      → Decoded s t claims o f
      → o ≡ none
      → Refuses f
  Decoded-Refuses claims (handled e) same = absurd (cc)
  Decoded-Refuses claims (invalid r status) same = record {
    unchanged = λ w. refl;
    status = λ w. inl status;
  }

parsed-Refuses :
    {next : Option Claims → Served} (parsed : Result Claims)
    → ((c : Option Claims) → Refuses (next c))
    → Refuses (parsed_token next parsed)
parsed-Refuses (err e) refuses = record { unchanged = λ w. refl; status = λ w. inr refl }
parsed-Refuses (ok claims) refuses = refuses (some claims)

module _ (b : Binders) (d : Decoders) (s : Server) (r : Incoming) where
  authenticated-Refuses : endpoint_of b d r.route ≡ none → Refuses (authenticated b d s r)
  unfolding auth
  authenticated-Refuses unreadable =
      let refuses = λ (c : Option Claims).
        Decoded-Refuses s r.readings c (route-Decoded s r.readings c b d r.route) unreadable in
      if-Refuses (any (text_eq r.path) public_paths) (refuses none) (
        if-Refuses (not (has_prefix r.authorization (codes "Bearer ")))
          (record { unchanged = λ w. refl; status = λ w. inr refl })
          (parsed-Refuses
            (parse s.jwt s.manager r.readings.checked_at
              (trim_prefix r.authorization (codes "Bearer ")))
            refuses))

  -- A request of which a parameter or the body cannot be read is answered with 400 or 401, its line
  -- in the log has that status, and nothing changes.
  pub receive_unreadable :
      (w : World)
      → endpoint_of b d r.route ≡ none
      → ((receive b d s r w).1 ≡ w)
        × (((receive b d s r w).0.0.status ≡ 400) ⊎ ((receive b d s r w).0.0.status ≡ 401))
        × ((receive b d s r w).0.1.status ≡ (receive b d s r w).0.0.status)
  unfolding receive logging
  receive_unreadable w unreadable =
      let refused = authenticated-Refuses unreadable in
      (refused.unchanged w, refused.status w, refl)

  -- The request with its parts read.
  abbrev pub readable : Endpoint → Request
  readable e = record {
    endpoint = e;
    authorization = r.authorization;
    client = r.client;
    readings = r.readings;
  }

  -- A request whose parameters and body can all be read, logged with the path and the method of its
  -- endpoint, is answered as the decoded request is, with the same reply, the same line in the log
  -- and the same world after it.
  pub receive-serve :
      (e : Endpoint) (w : World)
      → endpoint_of b d r.route ≡ some e
      → r.path ≡ path_of s.uuid_string e
      → r.method ≡ method_of e
      → receive b d s r w ≡ serve s (readable e) w
  unfolding receive serve
  receive-serve e w read path method =
      let next : (c : Option Claims)
          → route_request b d s r.readings r.route c ≡ handle s r.readings e c =
        λ c. Decoded-handle s r.readings c (route-Decoded s r.readings c b d r.route) e read in
      λ i.
        logging s.split_host r.client (method i) (path i)
          (auth s.jwt s.manager r.readings.checked_at (path i) r.authorization (λ c. next c i)) w
