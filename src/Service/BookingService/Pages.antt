-- ===== src/Service/BookingService/Pages.antt =====
-- The pages of `BookingService.ListAll`, whatever other clients write.
use room_booking.Base.{
  ℕ, zero, suc, ◌≤◌, ℤ, List, [], ◌∷◌, map, take, drop, reverse, length, GoString, Bool-cases,
  text_eq, text_eq_iff, ltb, ◌≡◌, inl, inr, refl, sym, ap, arith,
}
use mathlib.Core.Path.{subst}
use room_booking.Domain.Entities.{Booking}
use room_booking.Domain.Codes.{role_admin}
use room_booking.Domain.Errors.{ok, ok-injective, ok-ne-err}
use room_booking.Storage.Tables.{BookingRow, SqlResult, done, failed, Database}
use room_booking.Storage.Statements.{order_by}
use room_booking.Storage.Bookings.{count_bookings, select_bookings_page}
use room_booking.Storage.World.{World, Action, run_sql, on_result, ◌>>=◌, pure}
use room_booking.Storage.World.Done.{run_sql-done, done-injective, done-ne-failed, bind-ok}
use room_booking.Storage.BookingRepository as BookingRepository
use room_booking.Storage.BookingRepository.{booking_of_row, scanned_rows, counted, offset_of}
use room_booking.Service.BookingService.{list_all, positive_or}

length-take : {A : Type 0} (n : ℕ) (xs : List A) → length (take n xs) ≤ n
length-take zero xs = omega arith
length-take (suc n) [] = omega arith
length-take (suc n) (x ∷ xs) = omega (arith, length-take n xs)

length-map : {A B : Type 0} (f : A → B) (xs : List A) → length (map f xs) ≡ length xs
length-map f [] = refl
length-map f (x ∷ xs) = omega (arith, length-map f xs)

-- A page that was selected has at most as many rows as were asked for.
selected_bound :
    (limit offset : ℕ) (db : Database) {rows : List BookingRow}
    → (select_bookings_page limit offset db).0 ≡ done rows
    → length rows ≤ limit
unfolding select_bookings_page
selected_bound limit offset db {rows} e = elim (Bool-cases (ltb offset 9223372036854775808)) [
  | inl fits ↦
      let page =
        take limit
          (drop offset (reverse (order_by (λ (r : BookingRow). r.created_at) db.bookings))) in
      let same : page ≡ rows = done-injective (rw fits at e) in
      subst (λ (rs : List BookingRow). length rs ≤ limit) same (length-take limit _)
  | inr negative ↦ absurd (done-ne-failed (sym (rw negative at e)))
]

scanned_bound :
    (zone limit : ℕ) (r : SqlResult (List BookingRow)) {bs : List Booking}
    → ((rows : List BookingRow) → r ≡ done rows → length rows ≤ limit)
    → scanned_rows "list bookings" zone r ≡ ok bs
    → length bs ≤ limit
scanned_bound zone limit (done rows) short e =
    subst (λ (bs : List Booking). length bs ≤ limit) (ok-injective e)
      (subst (λ (n : ℕ). n ≤ limit) (sym (length-map (booking_of_row zone) rows)) (short rows refl))
scanned_bound zone limit (failed x) short e = absurd (ok-ne-err (sym e))

page_bound :
    (zone limit offset : ℕ) (w : World) {bs : List Booking}
    → (on_result
        (run_sql (select_bookings_page limit offset))
        (scanned_rows "list bookings" zone)
        w).0
      ≡ ok bs
    → length bs ≤ limit
unfolding on_result
page_bound zone limit offset w e =
    scanned_bound zone limit (run_sql (select_bookings_page limit offset) w).0
      (λ rows answered.
        let (before, selected, _) = run_sql-done (select_bookings_page limit offset) w answered in
        selected_bound limit offset before selected)
      e

repository_bound :
    (page page_size : ℕ) (w : World) {bs : List Booking} {total : ℕ}
    → (BookingRepository.list_all page page_size w).0 ≡ ok (bs, total)
    → length bs ≤ page_size
unfolding BookingRepository.list_all
repository_bound page page_size w {bs} e =
    let rest : ℕ → Action (List Booking × ℕ) = λ total.
      on_result (run_sql (select_bookings_page page_size (offset_of page page_size)))
        (scanned_rows "list bookings" w.local_zone)
      >>= λ bookings. pure (bookings, total) in
    let (total, _, e') = bind-ok (on_result (run_sql count_bookings) counted) rest w e in
    let w' = (on_result (run_sql count_bookings) counted w).1 in
    let (bookings, selected, last) =
      bind-ok
        (on_result (run_sql (select_bookings_page page_size (offset_of page page_size)))
          (scanned_rows "list bookings" w.local_zone))
        (λ bookings. pure (bookings, total)) w' e' in
    subst (λ (xs : List Booking). length xs ≤ page_size) (ap (λ p. p.0) (ok-injective last))
      (page_bound w.local_zone page_size (offset_of page page_size) w' selected)

-- Whatever other clients write and however the connection fails: when ListAll succeeds, the role is
-- admin, the page has at most as many bookings as the page size, 20 if the request gives none above
-- 0, and the page size is at most 100.
pub list_all_bounds :
    (role : GoString) (page page_size : ℤ) (w : World) {bs : List Booking} {total : ℕ}
    → (list_all role page page_size w).0 ≡ ok (bs, total)
    → (role ≡ role_admin)
      × (length bs ≤ positive_or 20 page_size)
      × (positive_or 20 page_size ≤ 100)
unfolding list_all
list_all_bounds role page page_size w e = elim (Bool-cases (text_eq role role_admin)) [
  | inl admin ↦ elim (Bool-cases (ltb 100 (positive_or 20 page_size))) [
    | inl large ↦ absurd (ok-ne-err (sym (rw (admin, large) at e)))
    | inr fits ↦ (
      (text_eq_iff role role_admin).0 admin,
      repository_bound (positive_or 1 page) (positive_or 20 page_size) w (rw (admin, fits) at e),
      ground (arith, fits),
    )
  ]
  | inr other ↦ absurd (ok-ne-err (sym (rw other at e)))
]
