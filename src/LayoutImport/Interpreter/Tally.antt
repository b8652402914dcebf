-- ===== src/LayoutImport/Interpreter/Tally.antt =====
-- What the loop of interpretShapes counts for a table: its seats.
use omnixys_seat_service.Base.{
  sort, insert, ℕ, ◌+◌, ◌≡◌, refl, sym, ap, inl, inr, Bool, true, false, ◌&&◌, Option, none, some,
  List, [], ◌∷◌, String, str_eq, eq_iff, if◌then◌else◌, select, count_if, All, arith, Bool-cases,
  subst,
}
use omnixys_seat_service.LayoutImport.Recognizer.{PreparedLayoutSource, Numbers}
use omnixys_seat_service.LayoutImport.Shapes.{ShapeCandidate}
use omnixys_seat_service.LayoutImport.Interpreter.Roles.{ids_of, has_id, Roles}
use omnixys_seat_service.LayoutImport.Interpreter.Elements.{
  DetectedElementKind, seat, unknown, DetectedElement, Notes, kind_of, first_id, NearbyTable,
  enclosing, element_of, nearby_tables, is_ambiguous, seat_at, leave_open, relate, interpret_as,
  interpret_all,
}

abbrev pub is_seat : DetectedElementKind → Bool
is_seat seat = true
is_seat _ = false

abbrev pub names : Option String → String → Bool
names none id = false
names (some i) id = str_eq id i

-- A seat whose parent is the element with the id.
abbrev pub is_seat_at : String → DetectedElement → Bool
is_seat_at id e = is_seat e.kind && names e.parent_candidate_id id

-- A seat of the element with the id that is still to be reviewed.
abbrev pub is_doubtful_at : String → DetectedElement → Bool
is_doubtful_at id e = is_seat_at id e && e.needs_review

module _ {A : Type 0} (P : A → Type 0) where
  All-select : (p : A → Bool) (xs : List A) → All P xs → All P (select p xs)
  All-select p [] h = tt
  All-select p (x ∷ xs) h = elim (Bool-cases (p x)) [
    | inl e ↦ rw e (h.0, All-select p xs h.1)
    | inr e ↦ rw e (All-select p xs h.1)
  ]

  All-insert :
      (before : A → A → Bool) (x : A) (xs : List A) → P x → All P xs → All P (insert before x xs)
  All-insert before x [] p h = (p, tt)
  All-insert before x (y ∷ ys) p h = elim (Bool-cases (before y x)) [
    | inl e ↦ rw e (h.0, All-insert before x ys p h.1)
    | inr e ↦ rw e (p, h)
  ]

  All-sort : (before : A → A → Bool) (xs : List A) → All P xs → All P (sort before xs)
  All-sort before [] h = tt
  All-sort before (x ∷ xs) h = All-insert before x (sort before xs) h.0 (All-sort before xs h.1)

has_id-all :
    (ids : List String) (cs : List ShapeCandidate)
    → ((id : String) → has_id (ids_of cs) id ≡ true → has_id ids id ≡ true)
    → All (λ c. has_id ids c.id ≡ true) cs
has_id-all ids [] h = tt
has_id-all ids (c ∷ cs) h =
    (h c.id (ground (arith, eq_iff c.id c.id)), has_id-all ids cs (λ id m. h id (ground arith)))

module _ (n : Numbers) (source : PreparedLayoutSource) (r : Roles) (id : String)
    (out : has_id (ids_of r.sections) id ≡ false) where
  -- The parent that an element starts with is a section.
  first-not_named :
      (cs : List ShapeCandidate)
      → All (λ c. has_id (ids_of r.sections) c.id ≡ true) cs
      → names (first_id cs) id ≡ false
  first-not_named [] h = refl
  first-not_named (c ∷ rest) h = elim (Bool-cases (str_eq id c.id)) [
    | inl e ↦ cc (subst (λ x. has_id (ids_of r.sections) x ≡ true) (sym ((eq_iff id c.id).0 e)) h.0)
    | inr e ↦ e
  ]

  parent-not_named : (c : ShapeCandidate) → names (first_id (enclosing n source r c)) id ≡ false
  unfolding enclosing
  parent-not_named c = first-not_named _ (
      All-sort _ _ _
        (All-select _ _ r.sections (has_id-all (ids_of r.sections) r.sections (λ i h. h))))

  -- One seat more where the element is a seat of `id`, and not to be reviewed.
  abbrev Counts : Notes → DetectedElement × Notes → Type 0
  Counts notes (e, notes') =
      (notes'.seat_counts id ≡ notes.seat_counts id + (if is_seat_at id e then 1 else 0))
      × (is_doubtful_at id e ≡ false)

  bump :
      (counts : String → ℕ) (x : String)
      → (if str_eq id x then counts x + 1 else counts id)
        ≡ counts id + (if str_eq id x then 1 else 0)
  bump counts x = elim (Bool-cases (str_eq id x)) [
    | inl e ↦ rw e (omega (arith, ap counts ((eq_iff id x).0 e)))
    | inr e ↦ rw e (omega arith)
  ]

  seat_at-Counts :
      (e : DetectedElement) (t : NearbyTable) (notes : Notes)
      → e.kind ≡ seat
      → e.needs_review ≡ false
      → Counts notes (seat_at n source r e t notes)
  seat_at-Counts e t notes k v = (rw k (bump notes.seat_counts t.table.id), ground arith)

  idle-Counts :
      (e : DetectedElement) (notes notes' : Notes)
      → notes'.seat_counts id ≡ notes.seat_counts id
      → is_seat_at id e ≡ false
      → Counts notes (e, notes')
  idle-Counts e notes notes' s f = (rw f (omega arith), rw f)

  relate-Counts :
      (c : ShapeCandidate) (e : DetectedElement) (ts : List NearbyTable) (notes : Notes)
      → e.kind ≡ seat
      → e.needs_review ≡ false
      → names e.parent_candidate_id id ≡ false
      → Counts notes (relate n source r c e ts notes)
  relate-Counts c e [] notes k v p = idle-Counts e notes notes refl (ground arith)
  relate-Counts c e (t ∷ []) notes k v p = seat_at-Counts e t notes k v
  relate-Counts c e (t ∷ u ∷ ts) notes k v p = elim (Bool-cases (is_ambiguous n source r c t u)) [
    | inl a ↦
        let w = leave_open n source r e t u notes in
        rw a (idle-Counts w.0 notes w.1 refl (ground arith))
    | inr a ↦ rw a (seat_at-Counts e t notes k v)
  ]

  interpret_as-Counts :
      (kind : DetectedElementKind) (c : ShapeCandidate) (notes : Notes)
      → Counts notes (interpret_as n source r kind c notes)
  unfolding interpret_as element_of
  interpret_as-Counts seat c notes =
      relate-Counts c (element_of n source r seat c) (nearby_tables n source r c) notes refl refl
        (parent-not_named c)
  interpret_as-Counts unknown c notes =
      let w = interpret_as n source r unknown c notes in idle-Counts w.0 notes w.1 refl refl
  interpret_as-Counts kind c notes =
      idle-Counts (element_of n source r kind c) notes notes refl refl

  -- What a sequence of elements adds to the map is what it says.
  pub interpret_all-counts :
      (cs : List ShapeCandidate) (notes : Notes)
      → (let w = interpret_all n source r cs notes in
          (w.1.seat_counts id ≡ notes.seat_counts id + count_if (is_seat_at id) w.0)
          × (count_if (is_doubtful_at id) w.0 ≡ 0))
  unfolding interpret_all
  interpret_all-counts [] notes = (omega arith, refl)
  interpret_all-counts (c ∷ rest) notes =
      let w = interpret_as n source r (kind_of r c.id) c notes in
      let h = interpret_as-Counts (kind_of r c.id) c notes in
      let ih = interpret_all-counts rest w.1 in
      (omega (arith, h.0, ih.0), rw h.1 (omega (arith, ih.1)))
