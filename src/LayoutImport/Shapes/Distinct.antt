-- ===== src/LayoutImport/Shapes/Distinct.antt =====
-- The candidates that extractShapes returns (layout-import/recognizers/raster-components.ts).
use omnixys_seat_service.Base.{
  ℕ, zero, suc, ◌+◌, ◌*◌, ◌≤◌, ◌≡◌, refl, sym, ◌∙◌, ap, some, List, [], ◌∷◌, String, ltb, length,
  get_elem?, arith, Bool-cases, inl, inr, some_inj, subst,
}
use omnixys_seat_service.Base.Text.{decimal}
use Prim.Native.String.{◌++◌}
use Prim.Native.String.append
use omnixys_seat_service.Geometry.Ids.{to_number, to_number-decimal}
use omnixys_seat_service.LayoutImport.Recognizer.{
  PreparedLayoutSource, source_too_complex, Recognized, done, failed, ◌>>=◌, Numbers,
}
use omnixys_seat_service.LayoutImport.Components.{Component, width_of, height_of, Scan}
use omnixys_seat_service.LayoutImport.Shapes.{
  ShapeCandidate, candidate_id, candidate_of, max_fit_pixels, fit_components, shapes_of,
}

tail_of : String → String
tail_of String.[] = String.[]
tail_of (String.◌∷◌ c s) = s

-- What follows as many characters as the prefix has.
strip : String → String → String
unfolding tail_of
strip String.[] t = t
strip (String.◌∷◌ c p) t = strip p (tail_of t)

strip-append : (p t : String) → strip p (p ++ t) ≡ t
unfolding strip
strip-append String.[] t = append.nil t
strip-append (String.◌∷◌ c p) t =
    ap (λ x. strip p (tail_of x)) (append.cons c p t) ∙ strip-append p t

rest_of : String → String
rest_of t = strip "detected-" t

rest_of-candidate_id : (i : ℕ) → rest_of (candidate_id i) ≡ decimal (suc i)
unfolding candidate_id rest_of
rest_of-candidate_id i = strip-append "detected-" (decimal (suc i))

pub candidate_id-injective : (i j : ℕ) → candidate_id i ≡ candidate_id j → i ≡ j
candidate_id-injective i j e =
    let d = sym (rest_of-candidate_id i) ∙ ap rest_of e ∙ rest_of-candidate_id j in
    omega (arith, ap to_number d, to_number-decimal (suc i), to_number-decimal (suc j))

-- How the fitting ends: a candidate for each component, with the id of its place.
abbrev pub Fitted : ℕ → List Component → Recognized (List ShapeCandidate) → Type 0
Fitted index cs (failed e) = e ≡ source_too_complex
Fitted index cs (done shapes) =
    (length shapes ≡ length cs)
    × ((k : ℕ) (a : ShapeCandidate) → get_elem? shapes k ≡ some a → a.id ≡ candidate_id (index + k))

module _ (n : Numbers) (s : Scan) (image_width : ℕ) where
  Fitted-more :
      (index : ℕ) (c : Component) (cs : List Component) (r : Recognized (List ShapeCandidate))
      → Fitted (suc index) cs r
      → Fitted index (c ∷ cs) (r >>= λ more. done (candidate_of n s image_width index c ∷ more))
  unfolding candidate_of
  Fitted-more index c cs (failed e) h = h
  Fitted-more index c cs (done shapes) h = (ap suc h.0, λ k a g. place k a g)
    where
      place :
          (k : ℕ) (a : ShapeCandidate)
          → get_elem? (candidate_of n s image_width index c ∷ shapes) k ≡ some a
          → a.id ≡ candidate_id (index + k)
      place zero a g =
          ap (λ x. ShapeCandidate.id x) (sym (some_inj g))
          ∙ ap candidate_id {x = index} {y = index + 0} (omega arith)
      place (suc k) a g =
          h.1 k a g ∙ ap candidate_id {x = suc index + k} {y = index + suc k} (omega arith)

  pub fit_components-Fitted :
      (index fit_pixels : ℕ) (cs : List Component)
      → Fitted index cs (fit_components n s image_width index fit_pixels cs)
  unfolding fit_components
  fit_components-Fitted index fit_pixels [] = (refl, λ k a g. cc)
  fit_components-Fitted index fit_pixels (c ∷ cs) =
      let fit_pixels' = fit_pixels + (width_of c + 2) * (height_of c + 2) in
      elim (Bool-cases (ltb max_fit_pixels fit_pixels')) [
        | inl over ↦ rw over refl
        | inr room ↦ rw room (
            Fitted-more index c cs (fit_components n s image_width (suc index) fit_pixels' cs)
              (fit_components-Fitted (suc index) fit_pixels' cs))
      ]

-- What holds of the candidates, whose number is that of the components.
pub shapes_of-places :
    (n : Numbers) (source : PreparedLayoutSource) (s : Scan) (shapes : List ShapeCandidate)
    → shapes_of n source s ≡ done shapes
    → (5 * s.dark_count ≤ 3 * length source.pixels)
      × (length shapes ≡ length s.components)
      × ((k : ℕ) (a : ShapeCandidate) → get_elem? shapes k ≡ some a → a.id ≡ candidate_id k)
shapes_of-places n source s shapes e =
    elim (Bool-cases (ltb (3 * length source.pixels) (5 * s.dark_count))) [
      | inl dark ↦ cc (rw dark at e)
      | inr light ↦
          let h = fit_components-Fitted n s source.width 0 0 s.components in
          let e' = rw light at e in
          let w = subst (Fitted 0 s.components) e' h in
          (
            ground arith,
            w.0,
            λ k a g. w.1 k a g ∙ ap candidate_id {x = 0 + k} {y = k} (omega arith),
          )
    ]
