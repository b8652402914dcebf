-- ===== src/AutoOrder.antt =====
-- utils/auto-order.ts: the next free place in a list that is kept in order.
use omnixys_seat_service.Base.{
  Bool, true, false, ◌≡◌, List, [], ◌∷◌, Option, none, some, arith, All, if◌then◌else◌, or_default,
  Bool-cases, inl, inr,
}
use omnixys_seat_service.Store.Unique.{All-weaken}
use omnixys_seat_service.Base.Int.{ℤ, pos, ◌+ℤ◌, ◌≤ℤ◌, leb_ℤ, int_laws}

larger : ℤ → Option ℤ → ℤ
larger n none = n
larger n (some m) = if leb_ℤ n m then m else n

larger_bounds : (n m : ℤ) → (n ≤ℤ larger n (some m)) × (m ≤ℤ larger n (some m))
unfolding larger
larger_bounds n m = elim (Bool-cases (leb_ℤ n m)) [
  | inl e ↦ rw e (ground arith, omega arith)
  | inr e ↦ rw e (omega arith, ground arith)
]

module _ {A : Type 0} (p : A → Bool) (order : A → ℤ) where
  -- `aggregate({ where, _max: { order: true } })`
  pub max_order : List A → Option ℤ
  unfolding larger
  max_order [] = none
  max_order (x ∷ xs) = let best = max_order xs in if p x then some (larger (order x) best) else best

  unfoldable pub next_order : List A → ℤ
  unfolding max_order
  next_order xs = or_default (max_order xs) (pos 0) +ℤ pos 1

  abbrev Bound : Option ℤ → List A → Type 0
  Bound none xs = All (λ x. p x ≡ false) xs
  Bound (some m) xs = All (λ x. p x ≡ true → order x ≤ℤ m) xs

  Bound-skip : (x : A) (xs : List A) (m : Option ℤ) → p x ≡ false → Bound m xs → Bound m (x ∷ xs)
  Bound-skip x xs none e h = (e, h)
  Bound-skip x xs (some m) e h = ((λ c. cc), h)

  Bound-raise :
      (x : A) (xs : List A) (m : Option ℤ) → Bound m xs → Bound (some (larger (order x) m)) (x ∷ xs)
  unfolding larger
  Bound-raise x xs none h = ((λ c. omega arith), All-weaken _ _ xs (λ y e c. cc) h)
  Bound-raise x xs (some m) h =
      let (own, old) = larger_bounds (order x) m in
      ((λ c. own), All-weaken _ _ xs (λ y b c. let q = b c in omega (arith, old)) h)

  max_order-Bound : (xs : List A) → Bound (max_order xs) xs
  unfolding max_order
  max_order-Bound [] = tt
  max_order-Bound (x ∷ xs) = elim (Bool-cases (p x)) [
    | inl e ↦ rw e (Bound-raise x xs (max_order xs) (max_order-Bound xs))
    | inr e ↦ rw e (Bound-skip x xs (max_order xs) e (max_order-Bound xs))
  ]

  -- The next place is above that of every element that is counted.
  pub next_order-above :
      (xs : List A) → All (λ x. p x ≡ true → order x +ℤ pos 1 ≤ℤ next_order xs) xs
  unfolding next_order
  next_order-above xs = above (max_order xs) (max_order-Bound xs)
    where
      above :
          (m : Option ℤ)
          → Bound m xs
          → All (λ x. p x ≡ true → order x +ℤ pos 1 ≤ℤ or_default m (pos 0) +ℤ pos 1) xs
      above none h = All-weaken _ _ xs (λ x e c. cc) h
      above (some m) h = All-weaken _ _ xs (λ x b c. let q = b c in omega int_laws) h
