-- ===== src/Slots/Generator/Loop.antt =====
-- What the loop of `GenerateSlotsForDate` yields, whatever its fuel.
use room_booking.Base.{
  ℕ, zero, suc, ◌+◌, ◌*◌, ◌≤◌, ◌<◌, List, [], ◌∷◌, ◌≡◌, refl, ◌⊎◌, inl, inr, arith, Bool-cases, leb,
  true, false, sym, ◌∙◌, if◌then◌else◌,
}
use room_booking.Domain.Time.{Time, add}
use room_booking.Domain.Entities.{Uuid, Slot}
use room_booking.Slots.Generator.{slot_at, slot_duration, slots_from}

-- Some slot of the list starts at the time.
abbrev pub Offers : Time → List Slot → Type 0
Offers t [] = ⊥
Offers t (s ∷ slots) = (t ≡ s.start_at) ⊎ Offers t slots

-- The two tests of the loop come to one: the slot ends inside the window.
slots_from_step :
    (fuel : ℕ) (room : Uuid) (c e : Time)
    → slots_from (suc fuel) room c e ≡ (
        if leb (c.nanos + slot_duration) e.nanos
        then slot_at room c ∷ slots_from fuel room (add c slot_duration) e
        else [])
unfolding slots_from
slots_from_step fuel room c e = ground arith

slots_from_zero : (room : Uuid) (c e : Time) → slots_from 0 room c e ≡ []
unfolding slots_from
slots_from_zero room c e = refl

-- With no room for a slot the loop yields nothing.
slots_from_stops :
    (fuel : ℕ) (room : Uuid) (c e : Time)
    → e.nanos < c.nanos + slot_duration
    → slots_from fuel room c e ≡ []
slots_from_stops zero room c e h = slots_from_zero room c e
slots_from_stops (suc fuel) room c e h =
    let stops : leb (c.nanos + slot_duration) e.nanos ≡ false = ground arith in
    rw (slots_from_step, stops)

-- What is known of a start that the loop yields.
abbrev pub IsStart : Time → Time → Time → Type 0
IsStart c e t = (k : ℕ) × (t ≡ add c (k * slot_duration)) × (t.nanos + slot_duration ≤ e.nanos)

IsStart-next : (c e t : Time) → IsStart (add c slot_duration) e t → IsStart c e t
IsStart-next c e t (k, p, q) = (suc k, ground arith, q)

-- Every start is the cursor and some whole slots, and its slot ends inside the window.
pub slots_from_sound :
    (fuel : ℕ) (room : Uuid) (c e t : Time) → Offers t (slots_from fuel room c e) → IsStart c e t
slots_from_sound zero room c e t h = absurd (rw slots_from_zero at h)
slots_from_sound (suc fuel) room c e t h =
    elim (Bool-cases (leb (c.nanos + slot_duration) e.nanos)) [
      | inl fits ↦ elim (rw (slots_from_step, fits) at h) [
        | inl here ↦ (0, ground arith, ground arith)
        | inr later ↦
            IsStart-next c e t (slots_from_sound fuel room (add c slot_duration) e t later)
      ]
      | inr stops ↦ absurd (rw (slots_from_step, stops) at h)
    ]

-- Every such start is found, if the fuel reaches it.
pub slots_from_complete :
    (fuel : ℕ) (room : Uuid) (c e t : Time) (k : ℕ)
    → k < fuel
    → t ≡ add c (k * slot_duration)
    → t.nanos + slot_duration ≤ e.nanos
    → Offers t (slots_from fuel room c e)
slots_from_complete zero room c e t k h p q = absurd (omega arith)
slots_from_complete (suc fuel) room c e t zero h p q =
    let fits : leb (c.nanos + slot_duration) e.nanos ≡ true = ground arith in
    rw (slots_from_step, fits) (inl (ground arith))
slots_from_complete (suc fuel) room c e t (suc k) h p q =
    let fits : leb (c.nanos + slot_duration) e.nanos ≡ true = ground arith in
    rw (slots_from_step, fits)
      (inr
        (slots_from_complete fuel room (add c slot_duration) e t k (omega arith) (ground arith) q))

-- The slots keep the room, last 30 minutes and lie inside the window, in order and with no gap.
abbrev pub Tiles : Uuid → Time → Time → List Slot → Type 0
Tiles room c e [] = Unit
Tiles room c e (s ∷ slots) =
    (s.room_id ≡ room)
    × (s.start_at ≡ c)
    × (s.end_at ≡ add c slot_duration)
    × (s.end_at.nanos ≤ e.nanos)
    × Tiles room (add c slot_duration) e slots

-- The slots of the generating loop follow each other without a gap from the cursor on, belong to
-- the room, last 30 minutes each and end by the end of the window.
pub slots_from-Tiles :
    (fuel : ℕ) (room : Uuid) (c e : Time) → Tiles room c e (slots_from fuel room c e)
slots_from-Tiles zero room c e = rw slots_from_zero tt
slots_from-Tiles (suc fuel) room c e = elim (Bool-cases (leb (c.nanos + slot_duration) e.nanos)) [
  | inl fits ↦
      rw (slots_from_step, fits)
        (refl, refl, refl, ground arith, slots_from-Tiles fuel room (add c slot_duration) e)
  | inr stops ↦ rw (slots_from_step, stops) tt
]

-- With fuel for every half hour up to the end of the window, the generating loop stops by its own
-- test: more fuel does not change its slots.
pub slots_from_enough :
    (fuel more : ℕ) (room : Uuid) (c e : Time)
    → e.nanos < c.nanos + suc fuel * slot_duration
    → slots_from (fuel + more) room c e ≡ slots_from fuel room c e
slots_from_enough zero more room c e h =
    slots_from_stops (0 + more) room c e (omega arith) ∙ sym (slots_from_zero room c e)
slots_from_enough (suc fuel) more room c e h =
    let grown : suc fuel + more ≡ suc (fuel + more) = omega arith in
    let ih = slots_from_enough fuel more room (add c slot_duration) e (omega arith) in
    rw (grown, slots_from_step, slots_from_step) (rw ih)
