-- ===== src/Service/BookingService/Ledger.antt =====
-- An abstract booking service, which Create and Cancel of internal/service/booking_service.go
-- implement: who holds a start of a room, whose a booking is, and nothing of rows, statuses and
-- statements.
use room_booking.Base.{
  ℕ, List, [], ◌∷◌, Option, none, some, GoString, Bool, true, false, not, ◌&&◌, ◌==◌, ◌/◌, text_eq,
  if◌then◌else◌,
}
use room_booking.Domain.Time.{Time, utc, before}
use room_booking.Domain.Entities.{Uuid}
use room_booking.Domain.Codes.{role_user}
use room_booking.Domain.Errors.{
  Error, Result, ok, err, domain, wrap, plain, forbidden, invalid_request, slot_not_found,
  slot_already_booked, booking_not_found,
}

-- `held` gives the booking that holds a start of a room, `owner` the user of a booking, also of
-- one that holds nothing any more.
pub record Ledger : Type 0 where
  pub held : Uuid → ℕ → Option Uuid
  pub owner : Uuid → Option Uuid

-- What the requests do not change: the starts that a room's schedule admits, and the known users.
pub record Calendar : Type 0 where
  pub admits : Uuid → Time → Bool
  pub known : Uuid → Bool

pub data Request : Type 0 where
  book :
      (now : Time) (db_now : ℕ) (new_id : Uuid) (link_id : GoString) (user : Uuid) (role : GoString)
      (room : Uuid) (start : Time) (link : Bool)
      → Request
  drop : (db_now : ℕ) (user : Uuid) (role : GoString) (id : Uuid) → Request

abbrev pub is_some : {A : Type 0} → Option A → Bool
is_some none = false
is_some (some a) = true

abbrev pub without : Uuid → Option Uuid → Option Uuid
without id none = none
without id (some k) = if k == id then none else some k

abbrev pub released : Uuid → Ledger → Ledger
released id l = record l { held = λ room start. without id (l.held room start) }

abbrev pub reserved : Uuid → Uuid → Uuid → ℕ → Ledger → Ledger
reserved id user room start l = record {
  held = λ r s. if room == r && start == s then some id else l.held r s;
  owner = λ k. if id == k then some user else l.owner k;
}

-- An id that is in use, or a user who is not known.
abbrev pub not_inserted : Error
not_inserted = wrap "insert booking" (plain "database error")

abbrev pub by_owner : Uuid → Uuid → Ledger → Option Uuid → Result (Unit {0}) × Ledger
by_owner user id l none = (err (domain booking_not_found), l)
by_owner user id l (some k) =
    if k == user then (ok tt, released id l) else (err (domain forbidden), l)

-- A start is given to one user at a time, until its owner drops it.
abbrev pub serve_request : Calendar → Request → Ledger → Result (Unit {0}) × Ledger
serve_request c (book now db_now new_id link_id user role room start link) l =
    if not (text_eq role role_user)
    then (err (domain forbidden), l)
    else if before (utc start) now
    then (err (domain invalid_request), l)
    else if not (c.admits room (utc start))
    then (err (domain slot_not_found), l)
    else if is_some (l.owner new_id)
    then (err not_inserted, l)
    else if is_some (l.held room ((utc start).nanos / 1000))
    then (err (domain slot_already_booked), l)
    else if c.known user
    then (ok tt, reserved new_id user room ((utc start).nanos / 1000) l)
    else (err not_inserted, l)
serve_request c (drop db_now user role id) l =
    if not (text_eq role role_user)
    then (err (domain forbidden), l)
    else by_owner user id l (l.owner id)

-- Requests one after another, with the replies.
unfoldable pub serve_requests : Calendar → List Request → Ledger → List (Result (Unit {0})) × Ledger
serve_requests c [] l = ([], l)
serve_requests c (q ∷ qs) l =
    let (reply, l') = serve_request c q l in
    let (replies, l'') = serve_requests c qs l' in (reply ∷ replies, l'')
