-- ===== src/Storage/Statements/Order.antt =====
-- `order by`: the sorted list ascends, and it lists the items of the list it sorts.
use room_booking.Base.{
  ℕ, ◌≤◌, List, [], ◌∷◌, map, keep, All, All-imp, Listed, leb, Bool, true, false, Bool-cases, ◌≡◌,
  ◌↔◌, inl, inr, refl, sym, ap, ◌∙◌, arith,
}
use room_booking.Storage.Statements.{insert_by, order_by}

-- The keys ascend.
abbrev pub Ascending : {A : Type 0} → (A → ℕ) → List A → Type 0
Ascending key [] = Unit
Ascending key (x ∷ xs) = All (λ y. key x ≤ key y) xs × Ascending key xs

module _ {A : Type 0} where
  module _ (key : A → ℕ) (a : A) where
    All-insert_by : (P : A → Type 0) (xs : List A) → P a → All P xs → All P (insert_by key a xs)
    All-insert_by P [] p h = (p, tt)
    All-insert_by P (x ∷ xs) p h = elim (Bool-cases (leb (key a) (key x))) [
      | inl first ↦ rw first (p, h)
      | inr later ↦ rw later (h.0, All-insert_by P xs p h.1)
    ]

    insert_by-Ascending : (xs : List A) → Ascending key xs → Ascending key (insert_by key a xs)
    insert_by-Ascending [] h = (tt, tt)
    insert_by-Ascending (x ∷ xs) h = elim (Bool-cases (leb (key a) (key x))) [
      | inl first ↦
          let below : key a ≤ key x = ground (arith, first) in
          rw first (
            (
              below,
              All-imp (λ y. key x ≤ key y) (λ y. key a ≤ key y) xs (λ y under. omega arith) h.0,
            ),
            h,
          )
      | inr later ↦
          let above : key x ≤ key a = ground (arith, later) in
          rw later (All-insert_by (λ y. key x ≤ key y) xs above h.0, insert_by-Ascending xs h.1)
    ]

    Listed-insert_by : (b : A) (xs : List A) → Listed b (insert_by key a xs) ↔ Listed b (a ∷ xs)
    Listed-insert_by b [] = (λ l. l, λ l. l)
    Listed-insert_by b (x ∷ xs) = elim (Bool-cases (leb (key a) (key x))) [
      | inl first ↦ rw first (λ l. l, λ l. l)
      | inr later ↦ rw later (
        (λ l. elim l [
          | inl here ↦ inr (inl here)
          | inr there ↦ elim ((Listed-insert_by b xs).0 there) [
            | inl same ↦ inl same
            | inr rest ↦ inr (inr rest)
          ]
        ]),
        (λ l. elim l [
          | inl same ↦ inr ((Listed-insert_by b xs).1 (inl same))
          | inr there ↦ elim there [
            | inl here ↦ inl here
            | inr rest ↦ inr ((Listed-insert_by b xs).1 (inr rest))
          ]
        ]),
      )
    ]

  pub order_by-Ascending : (key : A → ℕ) (xs : List A) → Ascending key (order_by key xs)
  unfolding order_by
  order_by-Ascending key [] = tt
  order_by-Ascending key (x ∷ xs) =
      insert_by-Ascending key x (order_by key xs) (order_by-Ascending key xs)

  pub Listed-order_by :
      (key : A → ℕ) (b : A) (xs : List A) → Listed b (order_by key xs) ↔ Listed b xs
  unfolding order_by
  Listed-order_by key b [] = (λ l. l, λ l. l)
  Listed-order_by key b (x ∷ xs) = (
    (λ l. elim ((Listed-insert_by key x b (order_by key xs)).0 l) [
      | inl here ↦ inl here
      | inr there ↦ inr ((Listed-order_by key b xs).0 there)
    ]),
    (λ l.
        (Listed-insert_by key x b (order_by key xs)).1
          (elim l [ inl here ↦ inl here | inr there ↦ inr ((Listed-order_by key b xs).1 there) ])),
  )

  pub Listed-keep :
      (p : A → Bool) (b : A) (xs : List A) → Listed b (keep p xs) ↔ (Listed b xs × (p b ≡ true))
  Listed-keep p b [] = (λ l. absurd l, λ l. absurd l.0)
  Listed-keep p b (x ∷ xs) = elim (Bool-cases (p x)) [
    | inl kept ↦ rw kept (
      (λ l. elim l [
        | inl here ↦ (inl here, ap p here ∙ kept)
        | inr there ↦ (let (listed, passes) = (Listed-keep p b xs).0 there in (inr listed, passes))
      ]),
      (λ l. elim l.0 [
        | inl here ↦ inl here
        | inr there ↦ inr ((Listed-keep p b xs).1 (there, l.1))
      ]),
    )
    | inr left ↦ rw left (
      (λ l. (let (listed, passes) = (Listed-keep p b xs).0 l in (inr listed, passes))),
      (λ l. elim l.0 [
        | inl here ↦ (let clash : true ≡ false = sym l.1 ∙ (ap p here ∙ left) in absurd (cc))
        | inr there ↦ (Listed-keep p b xs).1 (there, l.1)
      ]),
    )
  ]

  -- What a list is mapped to keeps its order if the keys agree.
  pub All-map :
      {B : Type 0} (P : B → Type 0) (f : A → B) (xs : List A)
      → All (λ a. P (f a)) xs
      → All P (map f xs)
  All-map P f [] h = tt
  All-map P f (x ∷ xs) h = (h.0, All-map P f xs h.1)

  pub map-Ascending :
      {B : Type 0} (key : A → ℕ) (f : A → B) (key' : B → ℕ)
      → ((a b : A) → key a ≤ key b → key' (f a) ≤ key' (f b))
      → (xs : List A) → Ascending key xs
      → Ascending key' (map f xs)
  map-Ascending key f key' mono [] h = tt
  map-Ascending key f key' mono (x ∷ xs) h = (
    All-map (λ b. key' (f x) ≤ key' b) f xs
        (All-imp (λ y. key x ≤ key y) (λ y. key' (f x) ≤ key' (f y)) xs (λ y under. mono x y under)
          h.0),
    map-Ascending key f key' mono xs h.1,
  )

  pub Listed-map :
      {B : Type 0} (f : A → B) (b : B) (xs : List A)
      → Listed b (map f xs) ↔ ((a : A) × Listed a xs × (b ≡ f a))
  Listed-map f b [] = (λ l. absurd l, λ l. (let (a, listed, same) = l in absurd listed))
  Listed-map f b (x ∷ xs) = (
    (λ l. elim l [
      | inl here ↦ (x, inl refl, here)
      | inr there ↦ (let (a, listed, same) = (Listed-map f b xs).0 there in (a, inr listed, same))
    ]),
    (λ l.
        (let (a, listed, same) = l in
          elim listed [
            | inl here ↦ inl (same ∙ ap f here)
            | inr there ↦ inr ((Listed-map f b xs).1 (a, there, same))
          ])),
  )
