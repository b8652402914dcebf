-- ===== src/LayoutImport/Shapes/Contrast.antt =====
-- When extractShapes refuses an image as too dark, and the ids of its candidates
-- (layout-import/recognizers/raster-components.ts).
use omnixys_seat_service.Base.{
  ℕ, ◌*◌, ◌≤◌, ◌<◌, ◌≡◌, refl, sym, ◌∙◌, ◌↔◌, some, List, ltb, length, get_elem?, arith, All,
  Bool-cases, inl, inr,
}
use omnixys_seat_service.LayoutImport.Recognizer.{
  PreparedLayoutSource, unsupported_contrast, Recognized, done, failed, ◌>>=◌, Numbers,
}
use omnixys_seat_service.LayoutImport.Flood.Fuel.{open_below}
use omnixys_seat_service.LayoutImport.Threshold.Defs.{binary_threshold}
use omnixys_seat_service.LayoutImport.Components.{is_dark, Scan, find_components}
use omnixys_seat_service.LayoutImport.Components.Found.{find_components-dark_count}
use omnixys_seat_service.LayoutImport.Shapes.{
  ShapeCandidate, candidate_id, fit_components, shapes_of, extract_shapes,
}
use omnixys_seat_service.LayoutImport.Shapes.Distinct.{
  Fitted, fit_components-Fitted, candidate_id-injective, shapes_of-places,
}

not_contrast :
    (index : ℕ) (s : Scan) (r : Recognized (List ShapeCandidate))
    → Fitted index s.components r
    → r ≡ failed unsupported_contrast
    → ⊥
not_contrast index s (failed e) h q = cc
not_contrast index s (done shapes) h q = cc

-- What is done with a scan ends in a refusal of the contrast just where the scan is dark.
shapes_of_contrast :
    (n : Numbers) (source : PreparedLayoutSource) (s : Scan)
    → (shapes_of n source s ≡ failed unsupported_contrast)
      ↔ (3 * length source.pixels < 5 * s.dark_count)
shapes_of_contrast n source s =
    elim (Bool-cases (ltb (3 * length source.pixels) (5 * s.dark_count))) [
      | inl dark ↦ rw dark ((λ _. ground arith), (λ _. refl))
      | inr light ↦ rw light (
        (λ q. absurd (
            not_contrast 0 s (fit_components n s source.width 0 0 s.components)
              (fit_components-Fitted n s source.width 0 0 s.components) q)),
        (λ lt. absurd (ground arith)),
      )
    ]

-- For pixels that are bytes, at most 10,000 of them, and the threshold chosen for them: the shapes are
-- refused for their contrast exactly when more than three fifths of the pixels are dark.
pub extract_shapes_contrast :
    (n : Numbers) (source : PreparedLayoutSource) (threshold : ℕ)
    → All (λ v. v < 256) source.pixels
    → binary_threshold n source ≡ done (some threshold)
    → length source.pixels ≤ 10000
    → (extract_shapes n source threshold ≡ failed unsupported_contrast) ↔ (
        3 * length source.pixels < 5 * open_below (is_dark source threshold) (length source.pixels))
unfolding extract_shapes
extract_shapes_contrast n source threshold bytes chosen small =
    let (s, found, dark) = find_components-dark_count n source threshold bytes chosen small in
    let h = shapes_of_contrast n source s in rw (found, ← dark) h

places_of :
    (n : Numbers) (source : PreparedLayoutSource) (r : Recognized Scan)
    (shapes : List ShapeCandidate)
    → (r >>= λ s. shapes_of n source s) ≡ done shapes
    → (k : ℕ) (a : ShapeCandidate) → get_elem? shapes k ≡ some a
    → a.id ≡ candidate_id k
places_of n source (done s) shapes e = (shapes_of-places n source s shapes e).2
places_of n source (failed x) shapes e = cc

-- The candidates that are returned for an image have different ids, by which the interpretation tells
-- them apart.
pub extract_shapes-distinct :
    (n : Numbers) (source : PreparedLayoutSource) (threshold : ℕ) (shapes : List ShapeCandidate)
    (i j : ℕ) (a b : ShapeCandidate)
    → extract_shapes n source threshold ≡ done shapes
    → get_elem? shapes i ≡ some a
    → get_elem? shapes j ≡ some b
    → a.id ≡ b.id
    → i ≡ j
unfolding extract_shapes
extract_shapes-distinct n source threshold shapes i j a b e f g same =
    let at = places_of n source (find_components source threshold) shapes e in
    candidate_id-injective i j (sym (at i a f) ∙ same ∙ at j b g)
