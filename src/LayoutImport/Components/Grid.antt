-- ===== src/LayoutImport/Components/Grid.antt =====
-- The neighbours that the loops of extractShapes visit are the pixels whose columns and rows differ by
-- one at most.
use omnixys_seat_service.Base.{
  ℕ, zero, suc, ◌+◌, ◌-◌, ◌*◌, ◌/◌, ◌≤◌, ◌<◌, ◌≡◌, refl, inl, inr, Option, none, some, List, [],
  ◌∷◌, map, arith, All,
}
use Prim.Native.Nat.{◌%◌}
use omnixys_seat_service.LayoutImport.Flood.Defs.{Leads}
use omnixys_seat_service.LayoutImport.Flood.Fuel.{IsBelow}
use omnixys_seat_service.LayoutImport.Components.{offsets, pixel_at, next_pixel, neighbours}

-- Columns and rows differ by one at most.
abbrev pub IsNear : ℕ → ℕ → ℕ → Type 0
IsNear width p q =
    (p % width ≤ q % width + 1)
    × (q % width ≤ p % width + 1)
    × (p / width ≤ q / width + 1)
    × (q / width ≤ p / width + 1)

pub IsNear-sym : (width p q : ℕ) → IsNear width p q → IsNear width q p
IsNear-sym width p q n = (n.1, n.0, n.3, n.2)

row-mod : (w x y : ℕ) → x < w → (y * w + x) % w ≡ x
row-mod w x y h = grind arith

row-div : (w x y : ℕ) → x < w → (y * w + x) / w ≡ y
row-div w x y h = grind arith

row-below : (w h x y : ℕ) → x < w → y < h → y * w + x < h * w
row-below w h x y p q = grind arith

at_row : (w p : ℕ) → (p / w) * w + p % w ≡ p
at_row w p = grind arith

row_below : (w h p : ℕ) → p < w * h → p / w < h
row_below w h p l = grind arith

pixel_at-some :
    (w h nx ny q : ℕ) → pixel_at w h nx ny ≡ some q → (q % w ≡ nx) × (q / w ≡ ny) × (q < h * w)
pixel_at-some w h nx ny q e = ground (arith, row-mod w nx ny, row-div w nx ny, row-below w h nx ny)

next_pixel-IsNear :
    (w h p dx dy q : ℕ)
    → dx ≤ 2
    → dy ≤ 2
    → next_pixel w h p (dx, dy) ≡ some q
    → IsNear w p q × (q < h * w)
next_pixel-IsNear w h p dx dy q lx ly e =
    ground (arith, pixel_at-some w h (p % w + dx - 1) (p / w + dy - 1) q)

All-offsets : (P : ℕ × ℕ → Type 0) → ((dx dy : ℕ) → dx ≤ 2 → dy ≤ 2 → P (dx, dy)) → All P offsets
All-offsets P h = (
  h 0 0 (omega arith) (omega arith),
  (
    h 1 0 (omega arith) (omega arith),
    (
      h 2 0 (omega arith) (omega arith),
      (
        h 0 1 (omega arith) (omega arith),
        (
          h 1 1 (omega arith) (omega arith),
          (
            h 2 1 (omega arith) (omega arith),
            (
              h 0 2 (omega arith) (omega arith),
              (h 1 2 (omega arith) (omega arith), (h 2 2 (omega arith) (omega arith), tt)),
            ),
          ),
        ),
      ),
    ),
  ),
)

from_leads :
    {P : Type 0} (f : ℕ × ℕ → Option ℕ) (q : ℕ) (os : List (ℕ × ℕ))
    → All (λ o. f o ≡ some q → P) os
    → Leads q (map f os)
    → P
from_leads f q [] h l = absurd l
from_leads f q (o ∷ os) h (inl e) = h.0 e
from_leads f q (o ∷ os) h (inr l) = from_leads f q os h.1 l

-- Every neighbour is near.
pub neighbours_sound : (w h p q : ℕ) → Leads q (neighbours w h p) → IsNear w p q × (q < h * w)
unfolding neighbours
neighbours_sound w h p q l =
    from_leads (next_pixel w h p) q offsets
      (All-offsets (λ o. next_pixel w h p o ≡ some q → IsNear w p q × (q < h * w))
        (λ dx dy lx ly e. next_pixel-IsNear w h p dx dy q lx ly e))
      l

IsBelow-intro : (n : ℕ) (o : Option ℕ) → ((i : ℕ) → o ≡ some i → i < n) → IsBelow n o
IsBelow-intro n none h = tt
IsBelow-intro n (some i) h = h i refl

All-map_intro :
    (f : ℕ × ℕ → Option ℕ) (n : ℕ) (os : List (ℕ × ℕ))
    → All (λ o. IsBelow n (f o)) os
    → All (IsBelow n) (map f os)
All-map_intro f n [] h = tt
All-map_intro f n (o ∷ os) h = (h.0, All-map_intro f n os h.1)

pub neighbours-IsBelow : (w h p : ℕ) → All (IsBelow (h * w)) (neighbours w h p)
unfolding neighbours
neighbours-IsBelow w h p = All-map_intro (next_pixel w h p) (h * w) offsets (
    All-offsets (λ o. IsBelow (h * w) (next_pixel w h p o))
      λ dx dy lx ly.
        IsBelow-intro (h * w) (next_pixel w h p (dx, dy))
          (λ i e. (next_pixel-IsNear w h p dx dy i lx ly e).1))

-- The pixel at a column and a row that differ by one at most is reached by the offsets.
next_pixel-reaches :
    (w h p q : ℕ)
    → q < h * w
    → IsNear w p q
    → next_pixel w h p (q % w + 1 - p % w, q / w + 1 - p / w) ≡ some q
next_pixel-reaches w h p q b n = grind (arith, at_row, row_below)

Leads-map :
    (f : ℕ × ℕ → Option ℕ) (dx dy q : ℕ)
    → dx ≤ 2
    → dy ≤ 2
    → f (dx, dy) ≡ some q
    → Leads q (map f offsets)
Leads-map f zero zero q a b e = inl e
Leads-map f (suc zero) zero q a b e = inr (inl e)
Leads-map f (suc (suc zero)) zero q a b e = inr (inr (inl e))
Leads-map f zero (suc zero) q a b e = inr (inr (inr (inl e)))
Leads-map f (suc zero) (suc zero) q a b e = inr (inr (inr (inr (inl e))))
Leads-map f (suc (suc zero)) (suc zero) q a b e = inr (inr (inr (inr (inr (inl e)))))
Leads-map f zero (suc (suc zero)) q a b e = inr (inr (inr (inr (inr (inr (inl e))))))
Leads-map f (suc zero) (suc (suc zero)) q a b e = inr (inr (inr (inr (inr (inr (inr (inl e)))))))
Leads-map f (suc (suc zero)) (suc (suc zero)) q a b e =
    inr (inr (inr (inr (inr (inr (inr (inr (inl e))))))))
Leads-map f (suc (suc (suc dx))) dy q a b e = absurd (omega arith)
Leads-map f dx (suc (suc (suc dy))) q a b e = absurd (omega arith)

pub neighbours_complete : (w h p q : ℕ) → q < h * w → IsNear w p q → Leads q (neighbours w h p)
unfolding neighbours
neighbours_complete w h p q b n =
    Leads-map (next_pixel w h p) (q % w + 1 - p % w) (q / w + 1 - p / w) q (omega arith)
      (omega arith) (next_pixel-reaches w h p q b n)
