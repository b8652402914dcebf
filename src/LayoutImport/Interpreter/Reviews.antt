-- ===== src/LayoutImport/Interpreter/Reviews.antt =====
-- The warnings of interpretShapes and the elements that are to be reviewed.
use omnixys_seat_service.Base.{
  ℕ, ◌≡◌, refl, sym, ◌∙◌, ap, false, List, [], ◌∷◌, ◌++◌, String, select, map, Bool-cases, inl, inr,
}
use mathlib.Core.Path.{ap₂}
use mathlib.Core.List.{append_assoc, append-nil}
use omnixys_seat_service.LayoutImport.Recognizer.{PreparedLayoutSource, done, Numbers}
use omnixys_seat_service.LayoutImport.Shapes.{ShapeCandidate}
use omnixys_seat_service.LayoutImport.Interpreter.Roles.{Roles, roles_of}
use omnixys_seat_service.LayoutImport.Interpreter.Counts.{interpret_as-kept, interpret_shapes-done}
use omnixys_seat_service.LayoutImport.Interpreter.Elements.{
  DetectedElementKind, seat, unknown, WarningCode, unknown_object, ambiguous_parent, Warning,
  DetectedElement, Notes, Interpretation, kind_of, NearbyTable, element_of, nearby_tables,
  is_ambiguous, seat_at, relate, interpret_as, interpret_all, set_seat_count, no_objects_warning,
  first_notes, interpretation_of, interpret_shapes,
}

abbrev pub first_of_ids : List String → List String → List String
first_of_ids [] rest = rest
first_of_ids (id ∷ _) rest = id ∷ rest

-- The element that each warning about an element is about.
abbrev pub warn_ids : WarningCode → List String → List String → List String
warn_ids unknown_object ids rest = first_of_ids ids rest
warn_ids ambiguous_parent ids rest = first_of_ids ids rest
warn_ids _ ids rest = rest

abbrev pub warned : List Warning → List String
warned [] = []
warned (w ∷ rest) = warn_ids w.code w.element_ids (warned rest)

-- The elements to review.
abbrev pub reviewed : List DetectedElement → List String
reviewed es = map (λ e. e.id) (select (λ e. e.needs_review) es)

warn_ids-append :
    (code : WarningCode) (ids xs ys : List String)
    → warn_ids code ids (xs ++ ys) ≡ warn_ids code ids xs ++ ys
warn_ids-append unknown_object [] xs ys = refl
warn_ids-append unknown_object (i ∷ ids) xs ys = refl
warn_ids-append ambiguous_parent [] xs ys = refl
warn_ids-append ambiguous_parent (i ∷ ids) xs ys = refl
warn_ids-append code ids xs ys = refl

warned-append : (ws vs : List Warning) → warned (ws ++ vs) ≡ warned ws ++ warned vs
warned-append [] vs = refl
warned-append (w ∷ ws) vs =
    ap (warn_ids w.code w.element_ids) (warned-append ws vs)
    ∙ warn_ids-append w.code w.element_ids (warned ws) (warned vs)

module _ (n : Numbers) (source : PreparedLayoutSource) (r : Roles) where
  -- The warnings that came are about the element just where it is to be reviewed.
  abbrev IsWarned : Notes → DetectedElement × Notes → Type 0
  IsWarned notes (e, notes') = warned notes'.warnings ≡ warned notes.warnings ++ reviewed (e ∷ [])

  quiet-IsWarned :
      (e : DetectedElement) (notes notes' : Notes)
      → e.needs_review ≡ false
      → notes'.warnings ≡ notes.warnings
      → IsWarned notes (e, notes')
  quiet-IsWarned e notes notes' v w = ap warned w ∙ rw v (sym (append-nil (warned notes.warnings)))

  relate-IsWarned :
      (c : ShapeCandidate) (e : DetectedElement) (ts : List NearbyTable) (notes : Notes)
      → e.needs_review ≡ false
      → IsWarned notes (relate n source r c e ts notes)
  relate-IsWarned c e [] notes v = quiet-IsWarned e notes notes v refl
  relate-IsWarned c e (t ∷ []) notes v =
      let w = seat_at n source r e t notes in quiet-IsWarned w.0 notes w.1 v refl
  relate-IsWarned c e (t ∷ u ∷ ts) notes v = elim (Bool-cases (is_ambiguous n source r c t u)) [
    | inl a ↦ rw a (warned-append notes.warnings _)
    | inr a ↦ let w = seat_at n source r e t notes in rw a (quiet-IsWarned w.0 notes w.1 v refl)
  ]

  interpret_as-IsWarned :
      (kind : DetectedElementKind) (c : ShapeCandidate) (notes : Notes)
      → IsWarned notes (interpret_as n source r kind c notes)
  unfolding interpret_as element_of
  interpret_as-IsWarned seat c notes =
      relate-IsWarned c (element_of n source r seat c) (nearby_tables n source r c) notes refl
  interpret_as-IsWarned unknown c notes = warned-append notes.warnings _
  interpret_as-IsWarned kind c notes = sym (append-nil (warned notes.warnings))

  reviewed-cons :
      (e : DetectedElement) (es : List DetectedElement)
      → reviewed (e ∷ es) ≡ reviewed (e ∷ []) ++ reviewed es
  reviewed-cons e es = elim (Bool-cases e.needs_review) [ inl v ↦ rw v refl | inr v ↦ rw v refl ]

  interpret_all-warned :
      (cs : List ShapeCandidate) (notes : Notes)
      → (let w = interpret_all n source r cs notes in
          (warned w.1.warnings ≡ warned notes.warnings ++ reviewed w.0)
          × (map (λ e. e.id) w.0 ≡ map (λ c. c.id) cs))
  unfolding interpret_all
  interpret_all-warned [] notes = (sym (append-nil (warned notes.warnings)), refl)
  interpret_all-warned (c ∷ rest) notes =
      let w = interpret_as n source r (kind_of r c.id) c notes in
      let ih = interpret_all-warned rest w.1 in
      let es = (interpret_all n source r rest w.1).0 in
      (
        ih.0
            ∙ ap (λ x. x ++ reviewed es) (interpret_as-IsWarned (kind_of r c.id) c notes)
            ∙ append_assoc (warned notes.warnings) (reviewed (w.0 ∷ [])) (reviewed es)
            ∙ ap (λ x. warned notes.warnings ++ x) (sym (reviewed-cons w.0 es)),
        ap₂ ◌∷◌ (interpret_as-kept n source r (kind_of r c.id) c notes).0 ih.1,
      )

module _ (counts : String → ℕ) where
  reviewed-set_seat_count :
      (es : List DetectedElement) → reviewed (map (set_seat_count counts) es) ≡ reviewed es
  reviewed-set_seat_count [] = refl
  reviewed-set_seat_count (e ∷ es) = elim (Bool-cases e.needs_review) [
    | inl v ↦ rw v (ap (λ x. e.id ∷ x) (reviewed-set_seat_count es))
    | inr v ↦ rw v (reviewed-set_seat_count es)
  ]

  ids-set_seat_count :
      (es : List DetectedElement)
      → map (λ e. e.id) (map (set_seat_count counts) es) ≡ map (λ e. e.id) es
  ids-set_seat_count [] = refl
  ids-set_seat_count (e ∷ es) = ap (λ x. e.id ∷ x) (ids-set_seat_count es)

warned-no_objects :
    (es : List DetectedElement) (ws : List Warning) → warned (no_objects_warning es ws) ≡ warned ws
warned-no_objects [] ws = warned-append ws _ ∙ append-nil (warned ws)
warned-no_objects (e ∷ es) ws = refl

-- When interpretShapes returns, there is an element for each candidate, with its id and in the order
-- of the candidates; and the elements to review are, in their order, those that the warnings about an
-- unknown object or an ambiguous parent name first, each once for its warning.
pub interpret_shapes-warned :
    (n : Numbers) (candidates : List ShapeCandidate) (source : PreparedLayoutSource)
    (i : Interpretation)
    → interpret_shapes n candidates source ≡ done i
    → (map (λ e. e.id) i.elements ≡ map (λ c. c.id) candidates)
      × (warned i.warnings ≡ reviewed i.elements)
unfolding interpretation_of
interpret_shapes-warned n candidates source i d =
    let w = interpret_all n source (roles_of n source candidates) candidates first_notes in
    let h = interpret_all-warned n source (roles_of n source candidates) candidates first_notes in
    rw (interpret_shapes-done n candidates source i d) (
      ids-set_seat_count w.1.seat_counts w.0 ∙ h.1,
      warned-no_objects w.0 w.1.warnings ∙ h.0 ∙ sym (reviewed-set_seat_count w.1.seat_counts w.0),
    )
