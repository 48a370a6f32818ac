-- ===== src/Http/Errors/Laws.antt =====
-- The statuses of domain errors.
use room_booking.Base.{ℕ, String, ◌≡◌, refl}
use room_booking.Domain.Errors.{
  Error, domain, plain, wrap, Sentinel, errors_is, room_not_found, schedule_exists,
  schedule_not_found, slot_not_found, slot_already_booked, booking_not_found, forbidden,
  invalid_request, email_taken, invalid_credentials, user_not_found,
}
use room_booking.Http.Errors.{map_domain_error}

-- The status that the API documents for a domain error.
abbrev pub status_of : Sentinel → ℕ
status_of invalid_request = 400
status_of email_taken = 400
status_of invalid_credentials = 401
status_of forbidden = 403
status_of room_not_found = 404
status_of slot_not_found = 404
status_of booking_not_found = 404
status_of slot_already_booked = 409
status_of schedule_exists = 409
status_of schedule_not_found = 500
status_of user_not_found = 500

-- The status of an error, by what it wraps in the end.
abbrev pub root_status : Error → ℕ
root_status (domain s) = status_of s
root_status (plain message) = 500
root_status (wrap message e) = root_status e

status-sentinel : (s : Sentinel) → (map_domain_error (domain s)).status ≡ status_of s
unfolding map_domain_error errors_is
status-sentinel room_not_found = refl
status-sentinel schedule_exists = refl
status-sentinel schedule_not_found = refl
status-sentinel slot_not_found = refl
status-sentinel slot_already_booked = refl
status-sentinel booking_not_found = refl
status-sentinel forbidden = refl
status-sentinel invalid_request = refl
status-sentinel email_taken = refl
status-sentinel invalid_credentials = refl
status-sentinel user_not_found = refl

map_domain_error-wrap :
    (message : String) (e : Error) → map_domain_error (wrap message e) ≡ map_domain_error e
unfolding map_domain_error errors_is
map_domain_error-wrap message e = refl

-- Every error, however often it is wrapped, is answered with the status of the sentinel that it
-- wraps in the end, and with 500 if that is none.
pub map_domain_error-root : (e : Error) → (map_domain_error e).status ≡ root_status e
unfolding map_domain_error errors_is
map_domain_error-root (domain s) = status-sentinel s
map_domain_error-root (plain message) = refl
map_domain_error-root (wrap message e) =
    rw (map_domain_error-wrap message e) (map_domain_error-root e)
