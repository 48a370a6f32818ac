-- ===== src/Slots/Days/Laws.antt =====
-- `NormalizeAndValidateDays` for any order of the map.
use room_booking.Base.{
  ℤ, pos, ltb, ltb_ℤ, ◌==ℤ◌, ==ℤ_iff, List, [], ◌∷◌, All, any, Bool, true, false, ◌||◌, ◌≡◌, ◌≢◌,
  ◌↔◌, ◌⊎◌, inl, inr, refl, ap, sym, ◌∙◌, Bool-cases, if◌then◌else◌, arith,
}
use room_booking.Domain.Errors.{Error, ok, err, domain, invalid_request, ok-injective}
use room_booking.Slots.Days.{
  normalize_days, insert_day, collect_days, sort_days, nonempty_days, normalize_and_validate_days,
}
use room_booking.Slots.Days.Order.{
  count, Ascending, count_of_All, nil_of_count, All-of_count, count-sort_days, sort_days-Ascending,
  Ascending-unique, normalize_days-count,
}

-- Ranging over a map visits each key as often as the set holds it, in an order of its own.
abbrev pub IsOrder : (List ℤ → List ℤ) → Type 0
IsOrder order = (set : List ℤ) (d : ℤ) → count d (order set) ≡ count d set

abbrev pub out_of_range : ℤ → Bool
out_of_range d = ltb_ℤ d (pos 1) || ltb_ℤ (pos 7) d

any-count : (xs : List ℤ) (d : ℤ) → any (λ x. x ==ℤ d) xs ≡ ltb 0 (count d xs)
any-count [] d = refl
any-count (x ∷ xs) d = ground (arith, any-count xs d)

count-insert_day :
    (x : ℤ) (set : List ℤ) (d : ℤ)
    → count d (insert_day x set)
      ≡ (if ltb 0 (count d set) then count d set else if x ==ℤ d then 1 else 0)
count-insert_day x set d = elim (Bool-cases (x ==ℤ d)) [
  | inl same ↦
      let moved : count x set ≡ count d set = ap (λ z. count z set) ((==ℤ_iff x d).0 same) in
      ground (arith, any-count set x)
  | inr other ↦ ground (arith, any-count set x)
]

-- The set holds each day given once, and what it held before.
collect_days-count :
    (set days : List ℤ) {out : List ℤ} (d : ℤ)
    → collect_days set days ≡ ok out
    → count d out
      ≡ (if ltb 0 (count d set) then count d set else if ltb 0 (count d days) then 1 else 0)
unfolding collect_days
collect_days-count set [] {out} d e =
    let same : count d set ≡ count d out = ap (count d) (ok-injective e) in ground arith
collect_days-count set (x ∷ days) {out} d e =
    let in_week : out_of_range x ≡ false = ground arith in
    let rest : collect_days (insert_day x set) days ≡ ok out = ground arith in
    ground (arith, collect_days-count (insert_day x set) days d rest, count-insert_day x set d)

collect_days-total :
    (set days : List ℤ)
    → (any out_of_range days ≡ true) × (collect_days set days ≡ err (domain invalid_request))
      ⊎ (out : List ℤ) × (collect_days set days ≡ ok out) × (any out_of_range days ≡ false)
unfolding collect_days
collect_days-total set [] = inr (set, refl, refl)
collect_days-total set (x ∷ days) = elim (Bool-cases (out_of_range x)) [
  | inl bad ↦ rw bad (inl (refl, refl))
  | inr good ↦ rw good (collect_days-total (insert_day x set) days)
]

any-All_not : (xs : List ℤ) → any out_of_range xs ≡ false → All (λ d. out_of_range d ≡ false) xs
any-All_not [] h = tt
any-All_not (x ∷ xs) h = (ground arith, any-All_not xs (ground arith))

nonempty_days-cases :
    (xs : List ℤ)
    → (xs ≡ []) × (nonempty_days xs ≡ err (domain invalid_request))
      ⊎ (xs ≢ []) × (nonempty_days xs ≡ ok xs)
nonempty_days-cases [] = inl (refl, refl)
nonempty_days-cases (x ∷ xs) = inr ((λ h. cc), refl)

nonempty_days-ok : (xs : List ℤ) {ds : List ℤ} → nonempty_days xs ≡ ok ds → xs ≡ ds
nonempty_days-ok [] e = cc
nonempty_days-ok (x ∷ xs) e = cc

-- A success went through the loop and the sort.
normalize-steps :
    (order : List ℤ → List ℤ) (days : List ℤ) {ds : List ℤ}
    → normalize_and_validate_days order days ≡ ok ds
    → (set : List ℤ) × (collect_days [] days ≡ ok set)
      × (sort_days (order set) ≡ ds)
      × (any out_of_range days ≡ false)
unfolding normalize_and_validate_days
normalize-steps order days {ds} e = elim (collect_days-total [] days) [
  | inl (bad, failed) ↦
      let refused : err (domain invalid_request) ≡ ok ds = rw failed at e in absurd (cc)
  | inr (set, done, good) ↦
      (set, done, nonempty_days-ok (sort_days (order set)) (rw done at e), good)
]

module _ (order : List ℤ → List ℤ) (days : List ℤ) (is_order : IsOrder order) where
  sorted-count :
      {set : List ℤ} (d : ℤ)
      → collect_days [] days ≡ ok set
      → count d (sort_days (order set)) ≡ (if ltb 0 (count d days) then 1 else 0)
  sorted-count {set} d e =
      count-sort_days d (order set) ∙ (is_order set d ∙ collect_days-count [] days d e)

  sorted-Ascending :
      {set : List ℤ} → collect_days [] days ≡ ok set → Ascending (sort_days (order set))
  sorted-Ascending {set} e =
      sort_days-Ascending (order set)
        (λ d. ground (arith, is_order set d, collect_days-count [] days d e))

  -- Whatever order the map is visited in, the days of a success ascend strictly, none is out of the
  -- range 1 to 7, and the lookup of the allowed days finds a day among them exactly if it finds it
  -- among the days given.
  pub normalize_and_validate_days_sound :
      {ds : List ℤ}
      → normalize_and_validate_days order days ≡ ok ds
      → Ascending ds
        × All (λ d. out_of_range d ≡ false) ds
        × ((d : ℤ) → normalize_days ds d ≡ normalize_days days d)
  normalize_and_validate_days_sound {ds} e =
      let (set, done, sorted, good) = normalize-steps order days e in
      let counted : (d : ℤ) → count d ds ≡ (if ltb 0 (count d days) then 1 else 0) =
        λ d. ap (count d) (sym sorted) ∙ sorted-count d done in
      (
        rw sorted at (sorted-Ascending done),
        All-of_count (λ d. out_of_range d ≡ false) ds
            (λ d m.
              count_of_All (λ x. out_of_range x ≡ false) days d (any-All_not days good)
                (ground (arith, counted d))),
        (λ d. ground (arith, counted d, normalize_days-count ds d, normalize_days-count days d)),
      )

  sorted_nil :
      {set : List ℤ} → collect_days [] days ≡ ok set → (sort_days (order set) ≡ []) ↔ (days ≡ [])
  sorted_nil {set} done = (
    (λ h. nil_of_count days (λ d. ground (arith, sorted-count d done, ap (count d) h))),
    (λ h.
        nil_of_count (sort_days (order set))
          (λ d. ground (arith, sorted-count d done, ap (count d) h))),
  )

  nothing_wrong :
      (set : List ℤ)
      → sort_days (order set) ≢ []
      → collect_days [] days ≡ ok set
      → any out_of_range days ≡ false
      → (days ≡ []) ⊎ (any out_of_range days ≡ true)
      → ⊥
  nothing_wrong set full done good (inl empty) = full ((sorted_nil done).1 empty)
  nothing_wrong set full done good (inr bad) = cc

  failures :
      ((normalize_and_validate_days order days ≡ err (domain invalid_request))
        ↔ ((days ≡ []) ⊎ (any out_of_range days ≡ true)))
      × ((e : Error) → normalize_and_validate_days order days ≡ err e → e ≡ domain invalid_request)
  unfolding normalize_and_validate_days
  failures = elim (collect_days-total [] days) [
    | inl (bad, failed) ↦ rw failed (((λ h. inr bad), (λ h. refl)), (λ e h. cc))
    | inr (set, done, good) ↦ elim (nonempty_days-cases (sort_days (order set))) [
      | inl (empty, failed) ↦
          rw (done, failed) (((λ h. inl ((sorted_nil done).0 empty)), (λ h. refl)), (λ e h. cc))
      | inr (full, worked) ↦
          rw (done, worked)
            (((λ h. cc), (λ h. absurd (nothing_wrong set full done good h))), (λ e h. cc))
    ]
  ]

  -- NormalizeAndValidateDays returns ErrInvalidRequest exactly if no day is given or some day is
  -- out of range.
  pub normalize_and_validate_days_fails :
      (normalize_and_validate_days order days ≡ err (domain invalid_request))
      ↔ ((days ≡ []) ⊎ (any out_of_range days ≡ true))
  normalize_and_validate_days_fails = failures.0

  -- It has no other error.
  pub normalize_and_validate_days_error :
      (e : Error) → normalize_and_validate_days order days ≡ err e → e ≡ domain invalid_request
  normalize_and_validate_days_error = failures.1

-- The order in which the map of days is visited does not show in the result of
-- NormalizeAndValidateDays.
pub normalize_and_validate_days_stable :
    (order order' : List ℤ → List ℤ) (days : List ℤ)
    → IsOrder order
    → IsOrder order'
    → normalize_and_validate_days order days ≡ normalize_and_validate_days order' days
unfolding normalize_and_validate_days
normalize_and_validate_days_stable order order' days o o' = elim (collect_days-total [] days) [
  | inl (bad, failed) ↦ rw failed
  | inr (set, done, good) ↦
      let same : sort_days (order set) ≡ sort_days (order' set) =
        Ascending-unique _ _ (sorted-Ascending order days o done)
          (sorted-Ascending order' days o' done)
          (λ d. sorted-count order days o d done ∙ sym (sorted-count order' days o' d done)) in
      rw (done, same)
]
