-- ===== src/LayoutImport/Components/Labelling.antt =====
-- The labels that the flood from a pixel leaves on the pixels.
use omnixys_seat_service.Base.{
  ℕ, zero, suc, ◌+◌, ◌*◌, ◌≤◌, ◌<◌, ◌≡◌, refl, ap, ◌≢◌, inl, inr, true, List, [], ◌∷◌, ==_iff,
  length, get_elem?, or_default, arith, All,
}
use omnixys_seat_service.LayoutImport.Recognizer.{PreparedLayoutSource}
use omnixys_seat_service.LayoutImport.Flood.Defs.{mark}
use omnixys_seat_service.LayoutImport.Flood.Fuel.{
  unmarked, unmarked-le, unmarked-mark, IsBelow, flood-counts, flood-enough,
}
use omnixys_seat_service.LayoutImport.Flood.Marks.{IsLabelling, extend}
use omnixys_seat_service.LayoutImport.Flood.Loop.{flood_done, flood-mark_stays}
use omnixys_seat_service.LayoutImport.Components.{
  Component, component_at, grow, is_dark, neighbours, Scan, flood_from,
}
use omnixys_seat_service.LayoutImport.Components.Grid.{
  IsNear, IsNear-sym, neighbours_sound, neighbours_complete, neighbours-IsBelow,
}

get_elem?-below : (xs : List ℕ) (i : ℕ) → or_default (get_elem? xs i) 255 < 255 → i < length xs
get_elem?-below [] i h = absurd (omega arith)
get_elem?-below (x ∷ xs) zero h = omega arith
get_elem?-below (x ∷ xs) (suc i) h = omega (arith, get_elem?-below xs i h)

-- A run of the loop that stood at a pixel below which all dark ones are labelled.
pub record IsScan (source : PreparedLayoutSource) (threshold index : ℕ) (s : Scan) : Type 0 where
  pub labelling :
      IsLabelling (is_dark source threshold) (IsNear source.width) s.labels [] s.component_count
  pub covered : (q : ℕ) → q < index → is_dark source threshold q ≡ true → s.labels q ≢ 0
  pub few : s.component_count ≤ index
  pub candidates : length s.components ≤ s.component_count
  pub counted : s.dark_count + unmarked s.labels (length source.pixels) ≡ length source.pixels

module _ (source : PreparedLayoutSource) (threshold : ℕ)
    (full : length source.pixels ≡ source.height * source.width) (low : threshold < 255) where
  pub dark_below : (i : ℕ) → is_dark source threshold i ≡ true → i < source.height * source.width
  dark_below i d = rw (← full) (get_elem?-below source.pixels i (ground arith))

  below : (i : ℕ) → All (IsBelow (length source.pixels)) (neighbours source.width source.height i)
  below i = rw full (neighbours-IsBelow source.width source.height i)

  module _ (index : ℕ) (s : Scan) (h : IsScan source threshold index s)
      (d : is_dark source threshold index ≡ true) (z : s.labels index ≡ 0) where
    -- The first pixel of a component is marked.
    start-IsLabelling :
        IsLabelling
          (is_dark source threshold)
          (IsNear source.width)
          (mark s.labels index (suc s.component_count))
          (index ∷ [])
          (suc s.component_count)
    start-IsLabelling =
        extend (is_dark source threshold) (IsNear source.width) (IsNear-sym source.width) s.labels
          [] (index ∷ []) s.component_count (suc s.component_count) index h.labelling d z
          (λ q a. absurd a) (inl refl) (λ q a. absurd a)
          (λ q e. absurd (omega (arith, h.labelling.bounded q))) (omega arith)
          (λ q a. elim a [ inl e ↦ inl e | inr w ↦ inr w ])

    start_counts :
        1 + unmarked (mark s.labels index (suc s.component_count)) (length source.pixels)
        ≡ unmarked s.labels (length source.pixels)
    start_counts = ground (
      arith,
      unmarked-mark s.labels index (suc s.component_count) (length source.pixels),
      dark_below index d,
    )

    flooded-IsLabelling :
        IsLabelling
          (is_dark source threshold)
          (IsNear source.width)
          (flood_from source threshold index s).0
          []
          (suc s.component_count)
    unfolding flood_from
    flooded-IsLabelling =
        flood_done (is_dark source threshold) (IsNear source.width) (IsNear-sym source.width)
          (suc s.component_count) (λ e. cc) (neighbours source.width source.height)
          (grow source.width) (λ p q l. (neighbours_sound source.width source.height p q l).0)
          (λ p q dp dq near.
            neighbours_complete source.width source.height p q (dark_below q dq) near)
          (length source.pixels) (length source.pixels)
          (mark s.labels index (suc s.component_count)) (index ∷ [])
          (component_at source.width (suc s.component_count) index) below
          (omega (arith, start_counts, unmarked-le s.labels (length source.pixels)))
          start-IsLabelling

    flooded-covers :
        (q : ℕ)
        → q < suc index
        → is_dark source threshold q ≡ true
        → (flood_from source threshold index s).0 q ≢ 0
    unfolding flood_from
    flooded-covers q lt dq =
        flood-mark_stays (is_dark source threshold) (neighbours source.width source.height)
          (suc s.component_count) (λ e. cc) (grow source.width) (length source.pixels)
          (mark s.labels index (suc s.component_count)) (index ∷ [])
          (component_at source.width (suc s.component_count) index) q
          (ground (arith, h.covered q, ==_iff q index))

    flooded-counted :
        (s.dark_count + (flood_from source threshold index s).2.size)
          + unmarked (flood_from source threshold index s).0 (length source.pixels)
        ≡ length source.pixels
    unfolding flood_from
    flooded-counted =
        let labels = mark s.labels index (suc s.component_count) in
        let c = component_at source.width (suc s.component_count) index in
        let n = length source.pixels in
        omega (
          arith,
          h.counted,
          start_counts,
          flood-counts (is_dark source threshold) (neighbours source.width source.height)
              (suc s.component_count) n (grow source.width) (λ e. cc) below (λ c. c.size)
              (λ c i. refl) n labels (index ∷ []) c,
          ap length (
              flood-enough (is_dark source threshold) (neighbours source.width source.height)
                (suc s.component_count) n (grow source.width) (λ e. cc) below n labels (index ∷ [])
                c (omega (arith, start_counts, unmarked-le s.labels n))),
        )

    pub flooded-IsScan :
        (components : List Component)
        → length components ≤ suc s.component_count
        → (let r = flood_from source threshold index s in
            IsScan source threshold (suc index) (record {
              labels = r.0;
              components = components;
              component_count = suc s.component_count;
              dark_count = s.dark_count + r.2.size;
            }))
    flooded-IsScan components short = record {
      labelling = flooded-IsLabelling;
      covered = flooded-covers;
      few = omega (arith, h.few);
      candidates = short;
      counted = flooded-counted;
    }
