-- ===== src/LayoutImport/Components/Found.antt =====
-- What extractShapes finds below the threshold that binaryThreshold chose.
use omnixys_seat_service.Base.{
  ℕ, ◌*◌, ◌≤◌, ◌<◌, ◌≡◌, refl, sym, ◌∙◌, ◌≢◌, ◌↔◌, some, true, List, [], ◌∷◌, length, arith, All,
  inl, inr, subst,
}
use native.Mathlib.Nat.{mul_comm}
use omnixys_seat_service.LayoutImport.Recognizer.{
  PreparedLayoutSource, Recognized, done, failed, Numbers,
}
use omnixys_seat_service.LayoutImport.Flood.Defs.{Has, Connected}
use omnixys_seat_service.LayoutImport.Flood.Fuel.{open_below, unmarked-open}
use omnixys_seat_service.LayoutImport.Threshold.Defs.{binary_threshold}
use omnixys_seat_service.LayoutImport.Threshold.Outcome.{
  IsRaster, IsSplit, IsThreshold, binary_threshold-IsThreshold,
}
use omnixys_seat_service.LayoutImport.Components.{is_dark, Scan, find_components}
use omnixys_seat_service.LayoutImport.Components.Grid.{IsNear}
use omnixys_seat_service.LayoutImport.Components.Labelling.{IsScan, dark_below}
use omnixys_seat_service.LayoutImport.Components.Ends.{Ends, find_components-Ends, connected-same}

All-Has : (P : ℕ → Type 0) (xs : List ℕ) (v : ℕ) → All P xs → Has v xs → P v
All-Has P [] v h m = absurd m
All-Has P (x ∷ xs) v h (inl e) = subst P (sym e) h.0
All-Has P (x ∷ xs) v h (inr m) = All-Has P xs v h.1 m

module _ (numbers : Numbers) (source : PreparedLayoutSource) (threshold : ℕ)
    (bytes : All (λ v. v < 256) source.pixels)
    (chosen : binary_threshold numbers source ≡ done (some threshold)) where
  split : IsRaster source × IsSplit source.pixels threshold
  split = subst (IsThreshold source) chosen (binary_threshold-IsThreshold numbers source bytes)

  full : length source.pixels ≡ source.height * source.width
  full = split.0.full ∙ mul_comm source.width source.height

  low : threshold < 255
  low =
      let s = split.1 in
      let b = All-Has (λ v. v < 256) source.pixels s.light bytes s.has_light in
      omega (arith, s.over, b)

  ends : Ends source threshold full low (length source.pixels) (find_components source threshold)
  ends = find_components-Ends source threshold full low

  ended :
      (s : Scan)
      → find_components source threshold ≡ done s
      → IsScan source threshold (length source.pixels) s
  ended s e = subst (Ends source threshold full low (length source.pixels)) e ends

  -- For pixels that are bytes and the threshold chosen for them: when the loop over the pixels ends,
  -- a dark pixel has a label, and two dark pixels have the same label exactly when a way over dark
  -- pixels leads from one to the other, by steps to pixels whose column and row differ by one at most.
  pub find_components-labels :
      (s : Scan)
      → find_components source threshold ≡ done s
      → (p q : ℕ) → is_dark source threshold p ≡ true
      → is_dark source threshold q ≡ true
      → (s.labels p ≢ 0)
        × ((s.labels p ≡ s.labels q)
            ↔ Connected (is_dark source threshold) (IsNear source.width) p q)
  find_components-labels s e p q dp dq =
      let h = ended s e in
      let inside : p < length source.pixels =
        omega (arith, full, dark_below source threshold full low p dp) in
      let n = h.covered p inside dp in
      (n, (h.labelling.connected p q n, connected-same source threshold full low s h p q n))

  -- For pixels that are bytes and the threshold chosen for them: the loop over the pixels of an image
  -- of at most 10,000 ends without an error, and the sizes of the components add up to the number of
  -- the dark pixels.
  pub find_components-dark_count :
      length source.pixels ≤ 10000
      → (s : Scan) × (find_components source threshold ≡ done s)
        × (s.dark_count ≡ open_below (is_dark source threshold) (length source.pixels))
  find_components-dark_count small = go (find_components source threshold) ends refl
    where
      go :
          (r : Recognized Scan)
          → Ends source threshold full low (length source.pixels) r
          → find_components source threshold ≡ r
          → (s : Scan) × (find_components source threshold ≡ done s)
            × (s.dark_count ≡ open_below (is_dark source threshold) (length source.pixels))
      go (failed x) h e = absurd (omega (arith, h.1))
      go (done s) h e = (
        s,
        e,
        omega (
          arith,
          h.counted,
          unmarked-open s.labels (is_dark source threshold) (length source.pixels)
              h.labelling.opened h.covered,
        ),
      )
