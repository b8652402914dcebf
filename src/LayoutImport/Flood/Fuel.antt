-- ===== src/LayoutImport/Flood/Fuel.antt =====
-- The loop ends with an empty queue: a pixel is queued when it is marked, and only once.
use omnixys_seat_service.Base.{
  ℕ, zero, suc, ◌+◌, ◌≤◌, ◌<◌, ◌≡◌, refl, ◌∙◌, ◌≢◌, Bool, true, Option, none, some, List, [], ◌∷◌,
  ◌++◌, ◌==◌, if◌then◌else◌, ltb, length, All, arith,
}
use omnixys_seat_service.LayoutImport.Flood.Defs.{mark, visit, visit_all, flood}

-- The pixels below `n` that are not marked.
pub unmarked : (ℕ → ℕ) → ℕ → ℕ
unmarked labels zero = 0
unmarked labels (suc n) = (if labels n == 0 then 1 else 0) + unmarked labels n

pub unmarked-le : (labels : ℕ → ℕ) (n : ℕ) → unmarked labels n ≤ n
unfolding unmarked
unmarked-le labels zero = omega arith
unmarked-le labels (suc n) = ground (arith, unmarked-le labels n)

pub unmarked-none : (n : ℕ) → unmarked (λ _. 0) n ≡ n
unfolding unmarked
unmarked-none zero = refl
unmarked-none (suc n) = omega (arith, unmarked-none n)

-- The open pixels below `n`.
abbrev pub open_below : (ℕ → Bool) → ℕ → ℕ
open_below is_open zero = 0
open_below is_open (suc n) = (if is_open n then 1 else 0) + open_below is_open n

-- Where the marked pixels are the open ones, the others are counted.
pub unmarked-open :
    (labels : ℕ → ℕ) (is_open : ℕ → Bool) (n : ℕ)
    → ((q : ℕ) → labels q ≢ 0 → is_open q ≡ true)
    → ((q : ℕ) → q < n → is_open q ≡ true → labels q ≢ 0)
    → unmarked labels n + open_below is_open n ≡ n
unfolding unmarked
unmarked-open labels is_open zero a b = omega arith
unmarked-open labels is_open (suc n) a b =
    ground
      (arith, a n, b n (omega arith), unmarked-open labels is_open n a (λ q lt. b q (omega arith)))

pub unmarked-mark :
    (labels : ℕ → ℕ) (i k n : ℕ)
    → k ≢ 0
    → labels i ≡ 0
    → unmarked (mark labels i k) n + (if ltb i n then 1 else 0) ≡ unmarked labels n
unfolding unmarked
unmarked-mark labels i k zero h e = ground arith
unmarked-mark labels i k (suc n) h e = ground (arith, unmarked-mark labels i k n h e)

abbrev pub IsBelow : ℕ → Option ℕ → Type 0
IsBelow n none = Unit
IsBelow n (some i) = i < n

length-snoc : (xs : List ℕ) (x : ℕ) → length (xs ++ x ∷ []) ≡ suc (length xs)
length-snoc [] x = omega arith
length-snoc (y ∷ xs) x = omega (arith, length-snoc xs x)

-- What is unmarked or queued is as much as before.
abbrev Balanced : ℕ → (ℕ → ℕ) × List ℕ → (ℕ → ℕ) → List ℕ → Type 0
Balanced n (l, q) labels queue = unmarked l n + length q ≡ unmarked labels n + length queue

module _ (is_open : ℕ → Bool) (k n : ℕ) (h : k ≢ 0) where
  visit-Balanced :
      (labels : ℕ → ℕ) (queue : List ℕ) (o : Option ℕ)
      → IsBelow n o
      → Balanced n (visit is_open k labels queue o) labels queue
  unfolding visit
  visit-Balanced labels queue none b = refl
  visit-Balanced labels queue (some i) b =
      ground (arith, unmarked-mark labels i k n h, length-snoc queue i)

  visit_all-Balanced :
      (labels : ℕ → ℕ) (queue : List ℕ) (os : List (Option ℕ))
      → All (IsBelow n) os
      → Balanced n (visit_all is_open k labels queue os) labels queue
  unfolding visit_all
  visit_all-Balanced labels queue [] b = refl
  visit_all-Balanced labels queue (o ∷ os) b =
      let r = visit is_open k labels queue o in
      visit_all-Balanced r.0 r.1 os b.1 ∙ visit-Balanced labels queue o b.0

module _ {S : Type 0} (is_open : ℕ → Bool) (neighbours : ℕ → List (Option ℕ)) (k n : ℕ)
    (body : S → ℕ → S) (h : k ≢ 0) (below : (i : ℕ) → All (IsBelow n) (neighbours i)) where
  -- As many rounds as there are unmarked and queued pixels empty the queue.
  pub flood-enough :
      (rounds : ℕ) (labels : ℕ → ℕ) (queue : List ℕ) (s : S)
      → unmarked labels n + length queue ≤ rounds
      → (flood is_open neighbours k body rounds labels queue s).1 ≡ []
  unfolding flood
  flood-enough zero labels [] s e = refl
  flood-enough zero labels (x ∷ q) s e = absurd (omega arith)
  flood-enough (suc rounds) labels [] s e = refl
  flood-enough (suc rounds) labels (x ∷ q) s e =
      let r = visit_all is_open k labels q (neighbours x) in
      flood-enough rounds r.0 r.1 (body s x)
        (omega (arith, visit_all-Balanced is_open k n h labels q (neighbours x) (below x)))

module _ {S : Type 0} (is_open : ℕ → Bool) (neighbours : ℕ → List (Option ℕ)) (k n : ℕ)
    (body : S → ℕ → S) (h : k ≢ 0) (below : (i : ℕ) → All (IsBelow n) (neighbours i))
    (measure : S → ℕ) (counts : (s : S) (i : ℕ) → measure (body s i) ≡ measure s + 1) where
  -- What the body counts are the pixels that left the queue.
  pub flood-counts :
      (rounds : ℕ) (labels : ℕ → ℕ) (queue : List ℕ) (s : S)
      → (let r = flood is_open neighbours k body rounds labels queue s in
          measure r.2 + length r.1 + unmarked r.0 n ≡ measure s + length queue + unmarked labels n)
  unfolding flood
  flood-counts zero labels queue s = refl
  flood-counts (suc rounds) labels [] s = refl
  flood-counts (suc rounds) labels (x ∷ q) s =
      let r = visit_all is_open k labels q (neighbours x) in
      omega (
        arith,
        visit_all-Balanced is_open k n h labels q (neighbours x) (below x),
        counts s x,
        flood-counts rounds r.0 r.1 (body s x),
      )
