-- ===== src/Http/Middleware.antt =====
-- internal/transport/http/middleware: auth.go and logging.go. `split_host` is the host that
-- `net.SplitHostPort` finds in an address.
pub mod Logs
pub mod Recovery
use room_booking.Base.{
  ℕ, ◌==◌, List, [], ◌∷◌, Option, none, some, GoString, codes, text_eq, has_prefix, trim_prefix,
  trim_space, split_on, any, Bool, not, if◌then◌else◌,
}
use room_booking.Domain.Time.{Time}
use room_booking.Domain.Errors.{Result, ok, err}
use room_booking.Storage.World.{World}
use room_booking.Auth.Jwt.{Claims, JwtLibrary, JwtManager, parse}
use room_booking.Http.Api as Api
use room_booking.Http.Api.{Reply, Served}
use room_booking.Http.Errors.{error_reply}
use room_booking.Http.Handlers.{reply}

abbrev pub public_paths : List GoString
public_paths = codes "/_info" ∷ codes "/dummyLogin" ∷ codes "/login" ∷ codes "/register" ∷ []

-- `writeJSONError(w, http.StatusUnauthorized, "UNAUTHORIZED", message)`
abbrev pub parsed_token : (Option Claims → Served) → Result Claims → Served
parsed_token next (err e) = reply (error_reply 401 Api.unauthorized "invalid token")
parsed_token next (ok claims) = next (some claims)

-- `next` is the handler, given the claims of its context.
unfoldable pub auth :
    JwtLibrary → JwtManager → Time → GoString → GoString → (Option Claims → Served) → Served
auth jwt manager now path header next =
    if any (text_eq path) public_paths
    then next none
    else if not (has_prefix header (codes "Bearer "))
    then reply (error_reply 401 Api.unauthorized "missing bearer token")
    else parsed_token next (parse jwt manager now (trim_prefix header (codes "Bearer ")))

-- `strings.ReplaceAll(value, c, "")` for a one-byte c.
unfoldable pub without : ℕ → GoString → GoString
without c [] = []
without c (a ∷ s) = let rest = without c s in if a == c then rest else a ∷ rest

unfoldable pub sanitize_log_value : GoString → GoString
sanitize_log_value value = without 10 (without 13 value)

-- The headers and the address that `clientIP` reads.
pub record Client : Type 0 where
  pub forwarded_for : GoString
  pub real_ip : GoString
  pub remote_addr : GoString
  pub user_agent : GoString

-- `parts[0]`; `strings.Split` returns one part at least.
abbrev pub first_part : List GoString → GoString
first_part [] = []
first_part (part ∷ _) = part

abbrev pub host_or : GoString → Option GoString → GoString
host_or address none = address
host_or address (some host) = host

unfoldable pub client_ip : (GoString → Option GoString) → Client → GoString
client_ip split_host c =
    if not (text_eq c.forwarded_for (codes ""))
    then trim_space (first_part (split_on 44 c.forwarded_for))
    else if not (text_eq c.real_ip (codes ""))
    then trim_space c.real_ip
    else host_or c.remote_addr (split_host c.remote_addr)

-- The fields of the line that `Logging` prints; `log.Printf` quotes the last one itself.
pub record LogLine : Type 0 where
  pub ip : GoString
  pub method : GoString
  pub path : GoString
  pub status : ℕ
  pub ua : GoString

-- `Logging`: the line has the status that the handler wrote.
unfoldable pub logging :
    (GoString → Option GoString)
    → Client
    → GoString
    → GoString
    → Served
    → World
    → (Reply × LogLine) × World
logging split_host c method path next w =
    let (r, w') = next w in
    (
      (
        r,
        record {
          ip = sanitize_log_value (client_ip split_host c);
          method = sanitize_log_value method;
          path = sanitize_log_value path;
          status = r.status;
          ua = sanitize_log_value c.user_agent;
        },
      ),
      w',
    )
