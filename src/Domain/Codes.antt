-- ===== src/Domain/Codes.antt =====
-- Status codes of internal/domain/booking.go and role codes of internal/domain/user.go.
use room_booking.Base.{ℤ, pos, GoString, codes, text_eq, ◌==ℤ◌, if◌then◌else◌}

abbrev pub booking_status_active : GoString
booking_status_active = codes "active"

abbrev pub booking_status_cancelled : GoString
booking_status_cancelled = codes "cancelled"

abbrev pub booking_status_id_active : ℤ
booking_status_id_active = pos 1

abbrev pub booking_status_id_cancelled : ℤ
booking_status_id_cancelled = pos 2

abbrev pub role_admin : GoString
role_admin = codes "admin"

abbrev pub role_user : GoString
role_user = codes "user"

abbrev pub role_id_admin : ℤ
role_id_admin = pos 1

abbrev pub role_id_user : ℤ
role_id_user = pos 2

unfoldable pub booking_status_code_by_id : ℤ → GoString
booking_status_code_by_id id =
    if id ==ℤ booking_status_id_active
    then booking_status_active
    else if id ==ℤ booking_status_id_cancelled
    then booking_status_cancelled
    else codes ""

unfoldable pub booking_status_id_by_code : GoString → ℤ
booking_status_id_by_code code =
    if text_eq code booking_status_active
    then booking_status_id_active
    else if text_eq code booking_status_cancelled
    then booking_status_id_cancelled
    else pos 0

unfoldable pub role_code_by_id : ℤ → GoString
role_code_by_id id =
    if id ==ℤ role_id_admin then role_admin else if id ==ℤ role_id_user then role_user else codes ""

unfoldable pub role_id_by_code : GoString → ℤ
role_id_by_code code =
    if text_eq code role_admin
    then role_id_admin
    else if text_eq code role_user
    then role_id_user
    else pos 0
