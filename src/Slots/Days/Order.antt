-- ===== src/Slots/Days/Order.antt =====
-- Lists of days in strictly ascending order, and how often a day occurs: what sorting a set needs.
use room_booking.Base.{
  ℕ, ◌+◌, ◌≤◌, ◌<◌, ℤ, pos, negsuc, ltb, ltb_ℤ, ◌==ℤ◌, ==ℤ_iff, List, [], ◌∷◌, All, true, false,
  ◌≡◌, inl, inr, refl, ap, Bool-cases, if◌then◌else◌, arith,
}
use room_booking.Slots.Days.{insert_sorted, sort_days, normalize_days}

abbrev pub count : ℤ → List ℤ → ℕ
count d [] = 0
count d (x ∷ xs) = (if x ==ℤ d then 1 else 0) + count d xs

abbrev pub Ascending : List ℤ → Type 0
Ascending [] = Unit
Ascending (x ∷ xs) = All (λ y. ltb_ℤ x y ≡ true) xs × Ascending xs

ltb_ℤ-trans : (a b c : ℤ) → ltb_ℤ a b ≡ true → ltb_ℤ b c ≡ true → ltb_ℤ a c ≡ true
ltb_ℤ-trans (pos a) (pos b) (pos c) h k = ground arith
ltb_ℤ-trans (pos a) (pos b) (negsuc c) h k = ground arith
ltb_ℤ-trans (pos a) (negsuc b) c h k = ground arith
ltb_ℤ-trans (negsuc a) (pos b) (pos c) h k = ground arith
ltb_ℤ-trans (negsuc a) (pos b) (negsuc c) h k = ground arith
ltb_ℤ-trans (negsuc a) (negsuc b) (pos c) h k = ground arith
ltb_ℤ-trans (negsuc a) (negsuc b) (negsuc c) h k = ground arith

ltb_ℤ-asymm : (a b : ℤ) → ltb_ℤ a b ≡ true → ltb_ℤ b a ≡ true → ⊥
ltb_ℤ-asymm (pos a) (pos b) h k = ground arith
ltb_ℤ-asymm (pos a) (negsuc b) h k = ground arith
ltb_ℤ-asymm (negsuc a) (pos b) h k = ground arith
ltb_ℤ-asymm (negsuc a) (negsuc b) h k = ground arith

ltb_ℤ-total : (a b : ℤ) → ltb_ℤ a b ≡ false → (a ==ℤ b) ≡ false → ltb_ℤ b a ≡ true
ltb_ℤ-total (pos a) (pos b) h k = ground arith
ltb_ℤ-total (pos a) (negsuc b) h k = ground arith
ltb_ℤ-total (negsuc a) (pos b) h k = ground arith
ltb_ℤ-total (negsuc a) (negsuc b) h k = ground arith

pub ==ℤ_refl : (a : ℤ) → (a ==ℤ a) ≡ true
==ℤ_refl a = (==ℤ_iff a a).1 refl

==ℤ_symm : (a b : ℤ) → (a ==ℤ b) ≡ (b ==ℤ a)
==ℤ_symm (pos a) (pos b) = ground arith
==ℤ_symm (pos a) (negsuc b) = refl
==ℤ_symm (negsuc a) (pos b) = refl
==ℤ_symm (negsuc a) (negsuc b) = ground arith

ltb_ℤ-ne : (a b : ℤ) → ltb_ℤ a b ≡ true → (b ==ℤ a) ≡ false
ltb_ℤ-ne (pos a) (pos b) h = ground arith
ltb_ℤ-ne (pos a) (negsuc b) h = ground arith
ltb_ℤ-ne (negsuc a) (pos b) h = ground arith
ltb_ℤ-ne (negsuc a) (negsuc b) h = ground arith

-- The lookup of the allowed days reads whether a day occurs.
pub normalize_days-count : (xs : List ℤ) (d : ℤ) → normalize_days xs d ≡ ltb 0 (count d xs)
unfolding normalize_days
normalize_days-count [] d = refl
normalize_days-count (x ∷ xs) d = ground (arith, normalize_days-count xs d)

pub nil_of_count : (xs : List ℤ) → ((d : ℤ) → count d xs ≡ 0) → xs ≡ []
nil_of_count [] h = refl
nil_of_count (x ∷ xs) h = absurd (ground (arith, h x, ==ℤ_refl x))

pub All-of_count : (P : ℤ → Type 0) (xs : List ℤ) → ((d : ℤ) → 0 < count d xs → P d) → All P xs
All-of_count P [] h = tt
All-of_count P (x ∷ xs) h =
    (h x (ground (arith, ==ℤ_refl x)), All-of_count P xs (λ d m. h d (ground arith)))

pub count_of_All : (P : ℤ → Type 0) (xs : List ℤ) (d : ℤ) → All P xs → 0 < count d xs → P d
count_of_All P [] d h m = absurd (omega arith)
count_of_All P (x ∷ xs) d h m = elim (Bool-cases (x ==ℤ d)) [
  | inl same ↦ rw (← (==ℤ_iff x d).0 same) h.0
  | inr other ↦ count_of_All P xs d h.1 (ground arith)
]

count-insert_sorted :
    (d x : ℤ) (xs : List ℤ) → count d (insert_sorted x xs) ≡ (if x ==ℤ d then 1 else 0) + count d xs
unfolding insert_sorted
count-insert_sorted d x [] = refl
count-insert_sorted d x (y ∷ ys) = ground (arith, count-insert_sorted d x ys)

pub count-sort_days : (d : ℤ) (xs : List ℤ) → count d (sort_days xs) ≡ count d xs
unfolding sort_days
count-sort_days d [] = refl
count-sort_days d (x ∷ xs) =
    ground (arith, count-insert_sorted d x (sort_days xs), count-sort_days d xs)

All-insert_sorted :
    (P : ℤ → Type 0) (x : ℤ) (xs : List ℤ) → P x → All P xs → All P (insert_sorted x xs)
unfolding insert_sorted
All-insert_sorted P x [] p h = (p, tt)
All-insert_sorted P x (y ∷ ys) p h = elim (Bool-cases (ltb_ℤ x y)) [
  | inl first ↦ rw first (p, h)
  | inr later ↦ rw later (h.0, All-insert_sorted P x ys p h.1)
]

All-below :
    (x y : ℤ) (ys : List ℤ)
    → ltb_ℤ x y ≡ true
    → All (λ z. ltb_ℤ y z ≡ true) ys
    → All (λ z. ltb_ℤ x z ≡ true) ys
All-below x y [] h k = tt
All-below x y (z ∷ zs) h k = (ltb_ℤ-trans x y z h k.0, All-below x y zs h k.1)

insert_sorted-Ascending :
    (x : ℤ) (xs : List ℤ) → count x xs ≡ 0 → Ascending xs → Ascending (insert_sorted x xs)
unfolding insert_sorted
insert_sorted-Ascending x [] c h = (tt, tt)
insert_sorted-Ascending x (y ∷ ys) c h = elim (Bool-cases (ltb_ℤ x y)) [
  | inl first ↦ rw first ((first, All-below x y ys first h.0), h)
  | inr later ↦
      let other : (x ==ℤ y) ≡ false = ground (arith, ==ℤ_symm x y) in
      rw later (
        All-insert_sorted (λ z. ltb_ℤ y z ≡ true) x ys (ltb_ℤ-total x y later other) h.0,
        insert_sorted-Ascending x ys (ground arith) h.1,
      )
]

-- Sorting values that are all different gives a strictly ascending list.
pub sort_days-Ascending : (xs : List ℤ) → ((d : ℤ) → count d xs ≤ 1) → Ascending (sort_days xs)
unfolding sort_days
sort_days-Ascending [] h = tt
sort_days-Ascending (x ∷ xs) h =
    let tail : (d : ℤ) → count d xs ≤ 1 = λ d. omega (arith, h d) in
    insert_sorted-Ascending x (sort_days xs) (ground (arith, h x, ==ℤ_refl x, count-sort_days x xs))
      (sort_days-Ascending xs tail)

-- Another value that occurs stands behind the head, and is greater.
below_head :
    (x y : ℤ) (ys : List ℤ)
    → Ascending (y ∷ ys)
    → (y ==ℤ x) ≡ false
    → 0 < count x (y ∷ ys)
    → ltb_ℤ y x ≡ true
below_head x y ys b other m = count_of_All (λ z. ltb_ℤ y z ≡ true) ys x b.0 (ground arith)

Ascending-heads :
    (x y : ℤ) (xs ys : List ℤ)
    → Ascending (x ∷ xs)
    → Ascending (y ∷ ys)
    → ((d : ℤ) → count d (x ∷ xs) ≡ count d (y ∷ ys))
    → x ≡ y
Ascending-heads x y xs ys a b h = elim (Bool-cases (x ==ℤ y)) [
  | inl same ↦ (==ℤ_iff x y).0 same
  | inr other ↦ absurd (
      ltb_ℤ-asymm x y (below_head y x xs a other (ground (arith, h y, ==ℤ_refl y)))
        (below_head x y ys b (ground (arith, ==ℤ_symm x y)) (ground (arith, h x, ==ℤ_refl x))))
]

count_tail :
    (d x y : ℤ) (xs ys : List ℤ)
    → x ≡ y
    → count d (x ∷ xs) ≡ count d (y ∷ ys)
    → count d xs ≡ count d ys
count_tail d x y xs ys e h = let same : (x ==ℤ d) ≡ (y ==ℤ d) = ap (λ z. z ==ℤ d) e in ground arith

-- A strictly ascending list is known from which days occur in it.
pub Ascending-unique :
    (xs ys : List ℤ) → Ascending xs → Ascending ys → ((d : ℤ) → count d xs ≡ count d ys) → xs ≡ ys
Ascending-unique [] [] a b h = refl
Ascending-unique [] (y ∷ ys) a b h = absurd (ground (arith, h y, ==ℤ_refl y))
Ascending-unique (x ∷ xs) [] a b h = absurd (ground (arith, h x, ==ℤ_refl x))
Ascending-unique (x ∷ xs) (y ∷ ys) a b h =
    let heads = Ascending-heads x y xs ys a b h in
    let tails : (d : ℤ) → count d xs ≡ count d ys = λ d. count_tail d x y xs ys heads (h d) in
    rw heads (rw (Ascending-unique xs ys a.1 b.1 tails))
