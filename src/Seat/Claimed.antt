-- ===== src/Seat/Claimed.antt =====
-- The row that a claim changes: the only one with the seat's id.
use omnixys_seat_service.Base.{
  ◌≤◌, ◌<◌, any, All, Bool, true, false, not, ◌≡◌, ◌≢◌, refl, sym, ◌∙◌, List, [], ◌∷◌, some, arith,
  ◌==◌, ==_iff, every, find, count_if, update_if, Bool-cases, inl, inr, and-eq-true, not-eq-true,
}
use omnixys_seat_service.Store.Rows.{Uuid, Seat}
use omnixys_seat_service.Store.Tables.{seats_clash, seats_ok, keys_ok}

count-skip :
    (p : Seat → Bool) (x : Seat) (xs : List Seat)
    → p x ≡ false
    → 0 < count_if p (x ∷ xs)
    → 0 < count_if p xs
count-skip p x xs h c = ground arith

module _ (k : Uuid) (p : Seat → Bool) (f : Seat → Seat) (only : (x : Seat) → p x ≡ true → x.id ≡ k)
    (keeps : (x : Seat) → (f x).id ≡ x.id) where
  other_id :
      (x : Seat) (xs : List Seat)
      → every (λ t. not (seats_clash x t)) xs ≡ true
      → 0 < count_if p xs
      → x.id ≢ k
  other_id x [] h c e = omega arith
  other_id x (y ∷ ys) h c e =
      let (first, rest) = and-eq-true (not (seats_clash x y)) _ h in
      elim (Bool-cases (p y)) [
        | inl py ↦ apart (not-eq-true _ first) (e ∙ sym (only y py))
        | inr py ↦ other_id x ys rest (count-skip p y ys py c) e
      ]
    where
      apart : seats_clash x y ≡ false → x.id ≢ y.id
      apart n e = ground (arith, (==_iff x.id y.id).1 e)

  pub claimed_row :
      (xs : List Seat)
      → seats_ok xs ≡ true
      → 0 < count_if p xs
      → (s : Seat) × (p s ≡ true) × (find (λ r. r.id == k) (update_if p f xs) ≡ some (f s))
  unfolding keys_ok
  claimed_row [] h c = absurd (omega arith)
  claimed_row (x ∷ xs) h c =
      let (first, rest) = and-eq-true (every (λ t. not (seats_clash x t)) xs) _ h in
      elim (Bool-cases (p x)) [
        | inl px ↦ (x, px, rw (px, (==_iff (f x).id k).1 (keeps x ∙ only x px)))
        | inr px ↦
            let c' = count-skip p x xs px c in
            let (s, ps, e) = claimed_row xs rest c' in (s, ps, later px (other_id x xs first c') e)
      ]
    where
      later :
          {s : Seat}
          → p x ≡ false
          → x.id ≢ k
          → find (λ r. r.id == k) (update_if p f xs) ≡ some s
          → find (λ r. r.id == k) (update_if p f (x ∷ xs)) ≡ some s
      later px n e = elim (Bool-cases (x.id == k)) [
        | inl q ↦ absurd (n ((==_iff x.id k).0 q))
        | inr q ↦ rw (px, q) e
      ]

  pub count-le-one : (xs : List Seat) → seats_ok xs ≡ true → count_if p xs ≤ 1
  unfolding keys_ok
  count-le-one [] h = omega arith
  count-le-one (x ∷ xs) h =
      let (first, rest) = and-eq-true (every (λ t. not (seats_clash x t)) xs) _ h in
      elim (Bool-cases (p x)) [
        | inl px ↦ one px (λ c. other_id x xs first c (only x px))
        | inr px ↦ skip px (count-le-one xs rest)
      ]
    where
      one : p x ≡ true → ¬ (0 < count_if p xs) → count_if p (x ∷ xs) ≤ 1
      one px none_left = rw px (omega arith)

      skip : p x ≡ false → count_if p xs ≤ 1 → count_if p (x ∷ xs) ≤ 1
      skip px c = rw px (omega arith)

pub count-pos_of_any : (p : Seat → Bool) (xs : List Seat) → any p xs ≡ true → 0 < count_if p xs
count-pos_of_any p [] h = cc
count-pos_of_any p (x ∷ xs) h = ground (arith, count-pos_of_any p xs)

pub count-zero : (p : Seat → Bool) (xs : List Seat) → All (λ x. p x ≡ false) xs → count_if p xs ≡ 0
count-zero p [] h = refl
count-zero p (x ∷ xs) h = rw (h.0, count-zero p xs h.1) refl
