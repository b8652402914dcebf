-- ===== src/LayoutImport/Flood/Defs.antt =====
-- The loop `while (head < tail)` of extractShapes and of fitContour.
use omnixys_seat_service.Base.{
  ℕ, zero, suc, ◌≡◌, ◌⊎◌, Bool, true, ◌&&◌, Option, none, some, List, [], ◌∷◌, ◌++◌, ◌==◌,
  if◌then◌else◌,
}

-- `labels[i] = k`
abbrev pub mark : (ℕ → ℕ) → ℕ → ℕ → ℕ → ℕ
mark labels i k j = if j == i then k else labels j

module _ (is_open : ℕ → Bool) (k : ℕ) where
  -- A neighbour outside of the image is `none`. The queue holds what lies between head and tail.
  unfoldable pub visit : (ℕ → ℕ) → List ℕ → Option ℕ → (ℕ → ℕ) × List ℕ
  visit labels queue none = (labels, queue)
  visit labels queue (some next) =
      if labels next == 0 && is_open next
      then (mark labels next k, queue ++ next ∷ [])
      else (labels, queue)

  unfoldable pub visit_all : (ℕ → ℕ) → List ℕ → List (Option ℕ) → (ℕ → ℕ) × List ℕ
  unfolding visit
  visit_all labels queue [] = (labels, queue)
  visit_all labels queue (n ∷ rest) =
      let (labels', queue') = visit labels queue n in visit_all labels' queue' rest

module _ {S : Type 0} (is_open : ℕ → Bool) (neighbours : ℕ → List (Option ℕ)) (k : ℕ)
    (body : S → ℕ → S) where
  -- The loop, with the rounds that it may make; `body` is done for each pixel that leaves the queue.
  unfoldable pub flood : ℕ → (ℕ → ℕ) → List ℕ → S → (ℕ → ℕ) × List ℕ × S
  unfolding visit_all
  flood zero labels queue s = (labels, queue, s)
  flood (suc rounds) labels [] s = (labels, [], s)
  flood (suc rounds) labels (current ∷ rest) s =
      let (labels', queue') = visit_all is_open k labels rest (neighbours current) in
      flood rounds labels' queue' (body s current)

abbrev pub Has : ℕ → List ℕ → Type 0
Has i [] = ⊥
Has i (x ∷ xs) = (i ≡ x) ⊎ Has i xs

-- A neighbour that is in the image.
abbrev pub Leads : ℕ → List (Option ℕ) → Type 0
Leads i [] = ⊥
Leads i (o ∷ os) = (o ≡ some i) ⊎ Leads i os

-- A way over open pixels, each near the one before.
pub data Connected (is_open : ℕ → Bool) (Near : ℕ → ℕ → Type 0) (p : ℕ) : ℕ → Type 0 where
  here : Connected is_open Near p p
  step :
      {q r : ℕ}
      → Connected is_open Near p q
      → is_open r ≡ true
      → Near q r
      → Connected is_open Near p r
