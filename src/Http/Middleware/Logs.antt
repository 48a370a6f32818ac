-- ===== src/Http/Middleware/Logs.antt =====
-- `sanitizeLogValue`, byte by byte.
use room_booking.Base.{
  ◌||◌, if◌then◌else◌, Bool-cases, ==_iff, inl, inr, ℕ, [], ◌∷◌, GoString, false, ◌==◌, ◌≡◌, refl,
  arith, count_byte,
}
use room_booking.Http.Middleware.{without, sanitize_log_value}

without_count : (c : ℕ) (s : GoString) → count_byte c (without c s) ≡ 0
unfolding without count_byte
without_count c [] = refl
without_count c (a ∷ s) = ground (arith, without_count c s)

without_other :
    (c d : ℕ) (s : GoString) → (d == c) ≡ false → count_byte d (without c s) ≡ count_byte d s
unfolding without count_byte
without_other c d [] h = refl
without_other c d (a ∷ s) h = ground (arith, without_other c d s h)

-- What is logged of a value has no line feed and no carriage return.
sanitize_log_value-breaks :
    (value : GoString)
    → (count_byte 10 (sanitize_log_value value) ≡ 0)
      × (count_byte 13 (sanitize_log_value value) ≡ 0)
unfolding sanitize_log_value
sanitize_log_value-breaks value = (
  without_count 10 (without 13 value),
  rw (without_other 10 13 (without 13 value) refl) (without_count 13 value),
)

-- Every byte other than a line feed and a carriage return is logged as often as it occurs.
sanitize_log_value-keeps :
    (value : GoString) (d : ℕ)
    → (d == 10) ≡ false
    → (d == 13) ≡ false
    → count_byte d (sanitize_log_value value) ≡ count_byte d value
unfolding sanitize_log_value
sanitize_log_value-keeps value d not_lf not_cr =
    rw (without_other 10 d (without 13 value) not_lf) (without_other 13 d value not_cr)

-- What is logged of a value has no line feed and no carriage return, and every other byte as often
-- as the value has it.
pub sanitize_log_value_count :
    (value : GoString) (d : ℕ)
    → count_byte d (sanitize_log_value value)
      ≡ (if d == 10 || d == 13 then 0 else count_byte d value)
sanitize_log_value_count value d = elim (Bool-cases (d == 10)) [
  | inl lf ↦ rw lf (rw ((==_iff d 10).0 lf) ((sanitize_log_value-breaks value).0))
  | inr not_lf ↦ elim (Bool-cases (d == 13)) [
    | inl cr ↦ rw not_lf (rw cr (rw ((==_iff d 13).0 cr) ((sanitize_log_value-breaks value).1)))
    | inr not_cr ↦ rw not_lf (rw not_cr (sanitize_log_value-keeps value d not_lf not_cr))
  ]
]
