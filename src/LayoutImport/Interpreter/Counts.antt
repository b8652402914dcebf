-- ===== src/LayoutImport/Interpreter/Counts.antt =====
-- The numbers of seats that interpretShapes gives to tables.
use omnixys_seat_service.Base.{
  ℕ, zero, suc, ◌*◌, ◌≡◌, refl, sym, ◌∙◌, ap, inl, inr, Bool, false, some, List, [], ◌∷◌, String,
  map, count_if, get_elem?, All, arith, Bool-cases, length, ltb, some_inj, subst,
}
use omnixys_seat_service.LayoutImport.Recognizer.{PreparedLayoutSource, done, Numbers}
use omnixys_seat_service.LayoutImport.Shapes.{ShapeCandidate}
use omnixys_seat_service.LayoutImport.Interpreter.Roles.{ids_of, has_id, Roles, roles_of}
use omnixys_seat_service.LayoutImport.Interpreter.Tally.{
  is_seat_at, is_doubtful_at, interpret_all-counts,
}
use omnixys_seat_service.LayoutImport.Interpreter.Elements.{
  DetectedElementKind, table, seat, unknown, DetectedElement, Notes, Interpretation, kind_of,
  NearbyTable, element_of, nearby_tables, is_ambiguous, relate, interpret_as, interpret_all,
  set_seat_count, conclude, first_notes, interpretation_of, interpret_shapes,
}

-- The kind of an element goes by its id.
abbrev IsPlaced : Roles → DetectedElement → Type 0
IsPlaced r e = e.kind ≡ kind_of r e.id

module _ (n : Numbers) (source : PreparedLayoutSource) (r : Roles) where
  relate-kept :
      (c : ShapeCandidate) (e : DetectedElement) (ts : List NearbyTable) (notes : Notes)
      → ((relate n source r c e ts notes).0.id ≡ e.id)
        × ((relate n source r c e ts notes).0.kind ≡ e.kind)
  relate-kept c e [] notes = (refl, refl)
  relate-kept c e (t ∷ []) notes = (refl, refl)
  relate-kept c e (t ∷ u ∷ ts) notes = elim (Bool-cases (is_ambiguous n source r c t u)) [
    | inl a ↦ rw a (refl, refl)
    | inr a ↦ rw a (refl, refl)
  ]

  pub interpret_as-kept :
      (kind : DetectedElementKind) (c : ShapeCandidate) (notes : Notes)
      → ((interpret_as n source r kind c notes).0.id ≡ c.id)
        × ((interpret_as n source r kind c notes).0.kind ≡ kind)
  unfolding interpret_as element_of
  interpret_as-kept seat c notes =
      relate-kept c (element_of n source r seat c) (nearby_tables n source r c) notes
  interpret_as-kept unknown c notes = (refl, refl)
  interpret_as-kept kind c notes = (refl, refl)

  interpret_all-IsPlaced :
      (cs : List ShapeCandidate) (notes : Notes)
      → All (IsPlaced r) (interpret_all n source r cs notes).0
  unfolding interpret_all
  interpret_all-IsPlaced [] notes = tt
  interpret_all-IsPlaced (c ∷ rest) notes =
      let w = interpret_as n source r (kind_of r c.id) c notes in
      let h = interpret_as-kept (kind_of r c.id) c notes in
      (h.1 ∙ ap (kind_of r) (sym h.0), interpret_all-IsPlaced rest w.1)

kind_of-table :
    (r : Roles) (id : String) → kind_of r id ≡ table → has_id (ids_of r.sections) id ≡ false
kind_of-table r id e = elim (Bool-cases (has_id (ids_of r.sections) id)) [
  | inl s ↦ cc (rw s at e)
  | inr s ↦ s
]

count_if-map :
    (p : DetectedElement → Bool) (f : DetectedElement → DetectedElement)
    → ((e : DetectedElement) → p (f e) ≡ p e)
    → (es : List DetectedElement) → count_if p (map f es) ≡ count_if p es
count_if-map p f h [] = refl
count_if-map p f h (e ∷ es) = rw (h e, count_if-map p f h es)

-- The number of seats of a table among elements, none of them to be reviewed.
abbrev IsCounted : List DetectedElement → DetectedElement → Type 0
IsCounted all e =
    e.kind ≡ table
    → (e.seat_count ≡ some (count_if (is_seat_at e.id) all))
      × (count_if (is_doubtful_at e.id) all ≡ 0)

module _ (all : List DetectedElement) (counts : String → ℕ) (r : Roles)
    (counted : (id : String)
      → has_id (ids_of r.sections) id ≡ false
      → (counts id ≡ count_if (is_seat_at id) all) × (count_if (is_doubtful_at id) all ≡ 0)) where
  set_seat_count-IsCounted :
      (es : List DetectedElement)
      → All (IsPlaced r) es
      → All (IsCounted all) (map (set_seat_count counts) es)
  set_seat_count-IsCounted [] h = tt
  set_seat_count-IsCounted (e ∷ es) h = (
    λ k. let c = counted e.id (kind_of-table r e.id (sym h.0 ∙ k)) in (rw k (ap some c.0), c.1),
    set_seat_count-IsCounted es h.1,
  )

All-get_elem? :
    (P : DetectedElement → Type 0) (es : List DetectedElement) (k : ℕ) (e : DetectedElement)
    → All P es
    → get_elem? es k ≡ some e
    → P e
All-get_elem? P [] k e h g = cc
All-get_elem? P (x ∷ es) zero e h g = subst P (some_inj g) h.0
All-get_elem? P (x ∷ es) (suc k) e h g = All-get_elem? P es k e h.1 g

conclude-IsCounted :
    (n : Numbers) (source : PreparedLayoutSource) (r : Roles) (cs : List ShapeCandidate)
    (notes : Notes)
    → ((id : String) → notes.seat_counts id ≡ 0)
    → (let i = conclude (interpret_all n source r cs notes) in
        All (IsCounted i.elements) i.elements)
conclude-IsCounted n source r cs notes z =
    let w = interpret_all n source r cs notes in
    let f = set_seat_count w.1.seat_counts in
    set_seat_count-IsCounted (map f w.0) w.1.seat_counts r
      (λ id out.
        let h = interpret_all-counts n source r id out cs notes in
        (
          omega (arith, h.0, z id, count_if-map (is_seat_at id) f (λ e. refl) w.0),
          count_if-map (is_doubtful_at id) f (λ e. refl) w.0 ∙ h.1,
        ))
      w.0 (interpret_all-IsPlaced n source r cs notes)

-- What is returned is the interpretation.
pub interpret_shapes-done :
    (n : Numbers) (candidates : List ShapeCandidate) (source : PreparedLayoutSource)
    (i : Interpretation)
    → interpret_shapes n candidates source ≡ done i
    → i ≡ interpretation_of n candidates source
unfolding interpret_shapes
interpret_shapes-done n candidates source i d =
    elim (Bool-cases (ltb 2000000 (length candidates * length candidates))) [
      | inl large ↦ cc (rw large at d)
      | inr small ↦ cc (rw small at d)
    ]

-- When interpretShapes returns, a table among its elements is said to have as many seats as there are
-- seats among the elements that have it as their parent, and none of those is to be reviewed.
pub interpret_shapes-seat_counts :
    (n : Numbers) (candidates : List ShapeCandidate) (source : PreparedLayoutSource)
    (i : Interpretation) (k : ℕ) (e : DetectedElement)
    → interpret_shapes n candidates source ≡ done i
    → get_elem? i.elements k ≡ some e
    → e.kind ≡ table
    → (e.seat_count ≡ some (count_if (is_seat_at e.id) i.elements))
      × (count_if (is_doubtful_at e.id) i.elements ≡ 0)
unfolding interpretation_of
interpret_shapes-seat_counts n candidates source i k e d g t =
    let same = interpret_shapes-done n candidates source i d in
    All-get_elem? (IsCounted i.elements) i.elements k e
      (subst (λ x. All (IsCounted x.elements) x.elements) (sym same)
        (conclude-IsCounted n source (roles_of n source candidates) candidates first_notes
          (λ id. refl)))
      g t
