-- ===== src/Service/SlotService/Free.antt =====
-- The subtraction of the booked starts from the generated slots.
use room_booking.Base.{
  ℕ, ◌/◌, ◌%◌, ◌≤◌, ◌<◌, List, [], ◌∷◌, map, any, keep, Bool, false, not, ◌&&◌, leb, ltb, ◌==◌, ◌≡◌,
  ◌↔◌, inl, inr, refl, ap, ◌∙◌, arith, Bool-cases,
}
use room_booking.Domain.Time.{Time, utc, time_eq, utc_zone}
use room_booking.Domain.Entities.{Uuid, Slot}
use room_booking.Slots.Generator.Loop.{Offers}
use room_booking.Storage.Tables.{BookingRow}
use room_booking.Storage.Bookings.{taken, is_active}
use room_booking.Storage.World.{from_timestamptz}
use room_booking.Service.SlotService.{free_slots}

-- A test of the start alone keeps the starts that pass it.
Offers-keep :
    (q : Time → Bool) (t : Time) (slots : List Slot)
    → Offers t (keep (λ (s : Slot). not (q s.start_at)) slots) ↔ (Offers t slots × (q t ≡ false))
Offers-keep q t [] = ((λ h. absurd h), (λ h. absurd h.0))
Offers-keep q t (s ∷ slots) = elim (Bool-cases (q s.start_at)) [
  | inl busy ↦ rw busy (
    (λ o. let (later, free) = (Offers-keep q t slots).0 o in (inr later, free)),
    (λ h. elim (h.0) [
      | inl here ↦ absurd (let same = ap q here in cc (same, busy, h.1))
      | inr later ↦ (Offers-keep q t slots).1 (later, h.1)
    ]),
  )
  | inr free ↦ rw free (
    (λ o. elim o [
      | inl here ↦ (inl here, ap q here ∙ free)
      | inr later ↦ let (l, f) = (Offers-keep q t slots).0 later in (inr l, f)
    ]),
    (λ h. elim (h.0) [
      | inl here ↦ inl here
      | inr later ↦ inr ((Offers-keep q t slots).1 (later, h.1))
    ]),
  )
]

-- `free_slots` keeps exactly the starts that are no key of the map.
pub Offers-free_slots :
    (booked : List Time) (t : Time) (slots : List Slot)
    → Offers t (free_slots booked slots)
      ↔ (Offers t slots × (any (λ u. time_eq u t) (map utc booked) ≡ false))
unfolding free_slots
Offers-free_slots booked t slots =
    Offers-keep (λ v. any (λ u. time_eq u v) (map utc booked)) t slots

-- A start of whole microseconds in the range of the query is a key of the map exactly if the
-- room's bookings hold it.
pub booked-taken :
    (zone from to : ℕ) (room : Uuid) (t : Time) (rows : List BookingRow)
    → t.zone ≡ utc_zone
    → t.nanos % 1000 ≡ 0
    → from ≤ t.nanos / 1000
    → t.nanos / 1000 < to
    → any
        (λ u. time_eq u t)
        (map utc (
          map
            (λ m. utc (from_timestamptz zone m))
            (map
              (λ r. r.start_at)
              (keep
                (λ (r : BookingRow).
                  r.room_id == room && (is_active r && (leb from r.start_at && ltb r.start_at to)))
                rows))))
      ≡ taken room (t.nanos / 1000) rows
unfolding taken
booked-taken zone from to room t [] in_utc whole a b = refl
booked-taken zone from to room t (r ∷ rows) in_utc whole a b =
    ground (arith, booked-taken zone from to room t rows in_utc whole a b)
