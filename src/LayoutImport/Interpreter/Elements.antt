-- ===== src/LayoutImport/Interpreter/Elements.antt =====
-- layout-import/recognizers/layout-interpreter.ts, interpretShapes: the elements and the warnings. A
-- warning is its code and its elements; its message goes by the code.
use omnixys_seat_service.Base.{
  sort, ℕ, ◌+◌, ◌*◌, Bool, true, false, not, ◌&&◌, ◌||◌, Option, none, some, List, [], ◌∷◌, ◌++◌,
  String, str_eq, ltb, if◌then◌else◌, length, map, select,
}
use omnixys_seat_service.Base.Int.{ℤ}
use omnixys_seat_service.LayoutImport.Recognizer.{
  PreparedLayoutSource, source_too_complex, Recognized, done, failed, Numbers,
}
use omnixys_seat_service.LayoutImport.Contour.{DetectedShape, round, circle, ratio}
use omnixys_seat_service.LayoutImport.Shapes.{ShapeCandidate}
use omnixys_seat_service.LayoutImport.Interpreter.Relations.{area, diameter, contains, body_gap}
use omnixys_seat_service.LayoutImport.Interpreter.Roles.{
  ids_of, has_id, Roles, is_far_larger, roles_of,
}

pub data DetectedElementKind : Type 0 where
  section table seat stage aisle label unknown : DetectedElementKind

pub data WarningCode : Type 0 where
  geometry_only unknown_object ambiguous_parent no_objects : WarningCode

pub record Warning : Type 0 where
  pub code : WarningCode
  pub element_ids : List String

pub record DetectedGeometry : Type 0 where
  pub x : ℤ
  pub y : ℤ
  pub width : ℤ
  pub height : ℤ
  pub rotation : ℤ

pub record Confidence : Type 0 where
  pub geometry : ℤ
  pub classification : ℤ
  pub relationship : Option ℤ

pub record DetectedElement : Type 0 where
  pub id : String
  pub kind : DetectedElementKind
  pub geometry : DetectedGeometry
  pub source_bounds : DetectedGeometry
  pub shape : Option DetectedShape
  pub parent_candidate_id : Option String
  pub seat_count : Option ℕ
  pub needs_review : Bool
  pub confidence : Confidence

-- What the loop over the candidates changes. A table that is not in the map has no seats.
pub record Notes : Type 0 where
  pub warnings : List Warning
  pub seat_counts : String → ℕ

pub record Interpretation : Type 0 where
  pub elements : List DetectedElement
  pub warnings : List Warning

abbrev pub is_unknown : DetectedElementKind → Bool
is_unknown unknown = true
is_unknown _ = false

abbrev pub kind_of : Roles → String → DetectedElementKind
kind_of r id =
    if has_id (ids_of r.sections) id
    then section
    else if has_id (ids_of r.tables) id
    then table
    else if has_id (ids_of r.seats) id
    then seat
    else unknown

-- A round seat is a circle.
abbrev pub shape_of : DetectedElementKind → Option DetectedShape → Option DetectedShape
shape_of seat (some round) = some circle
shape_of _ shape = shape

abbrev pub first_id : List ShapeCandidate → Option String
first_id [] = none
first_id (c ∷ rest) = some c.id

pub record NearbyTable : Type 0 where
  pub table : ShapeCandidate
  pub gap : ℤ

module _ (n : Numbers) (source : PreparedLayoutSource) (r : Roles) where
  abbrev pub geometry_of : ShapeCandidate → DetectedGeometry
  geometry_of c = record {
    x = n.floats.div c.x (n.floats.of_ℕ source.width);
    y = n.floats.div c.y (n.floats.of_ℕ source.height);
    width = n.floats.div c.width (n.floats.of_ℕ source.width);
    height = n.floats.div c.height (n.floats.of_ℕ source.height);
    rotation = n.floats.of_ℕ 0;
  }

  -- The sections around a candidate, the smallest first.
  unfoldable pub enclosing : ShapeCandidate → List ShapeCandidate
  unfolding contains
  enclosing c =
      sort (λ a b. n.lt (n.floats.sub (area n a) (area n b)) (n.floats.of_ℕ 0))
        (select (λ s. not (str_eq s.id c.id) && contains n s c) r.sections)

  unfoldable pub element_of : DetectedElementKind → ShapeCandidate → DetectedElement
  unfolding enclosing
  element_of kind c = record {
    id = c.id;
    kind = kind;
    geometry = geometry_of c;
    source_bounds = geometry_of c;
    shape = shape_of kind c.shape;
    parent_candidate_id = first_id (enclosing c);
    seat_count = none;
    needs_review = is_unknown kind;
    confidence = record {
      geometry = c.quality;
      classification = if is_unknown kind then ratio n 35 100 else ratio n 8 10;
      relationship = none;
    };
  }

  -- The tables that a seat may belong to, the closest first.
  unfoldable pub nearby_tables : ShapeCandidate → List NearbyTable
  unfolding body_gap
  nearby_tables c =
      sort (λ a b. n.lt (n.floats.sub a.gap b.gap) (n.floats.of_ℕ 0))
        (select
          (λ t. is_far_larger n t.table c && n.le t.gap (n.floats.mul (diameter n c) (ratio n 5 2)))
          (map (λ t. record { table = t; gap = body_gap n t c }) r.tables))

  abbrev pub is_ambiguous : ShapeCandidate → NearbyTable → NearbyTable → Bool
  is_ambiguous c closest second =
      n.lt (n.floats.sub second.gap closest.gap) (n.floats.mul (diameter n c) (ratio n 1 2))
      || n.le second.gap (n.floats.mul closest.gap (ratio n 5 4))

  abbrev pub seat_at : DetectedElement → NearbyTable → Notes → DetectedElement × Notes
  seat_at e closest notes = (
    record e {
      parent_candidate_id = some closest.table.id;
      confidence = record {
        geometry = e.confidence.geometry;
        classification = e.confidence.classification;
        relationship = some (ratio n 85 100);
      };
    },
    record notes {
      seat_counts = λ id.
          if str_eq id closest.table.id
          then notes.seat_counts closest.table.id + 1
          else notes.seat_counts id;
    },
  )

  abbrev pub leave_open :
      DetectedElement → NearbyTable → NearbyTable → Notes → DetectedElement × Notes
  leave_open e closest second notes = (
    record e {
      needs_review = true;
      confidence = record {
        geometry = e.confidence.geometry;
        classification = e.confidence.classification;
        relationship = some (ratio n 4 10);
      };
    },
    record notes {
      warnings =
          notes.warnings
          ++ record {
            code = ambiguous_parent;
            element_ids = e.id ∷ closest.table.id ∷ second.table.id ∷ [];
          }
            ∷ [];
    },
  )

  abbrev pub relate :
      ShapeCandidate → DetectedElement → List NearbyTable → Notes → DetectedElement × Notes
  relate c e [] notes = (e, notes)
  relate c e (closest ∷ []) notes = seat_at e closest notes
  relate c e (closest ∷ second ∷ rest) notes =
      if is_ambiguous c closest second
      then leave_open e closest second notes
      else seat_at e closest notes

  abbrev pub warn_unknown : ShapeCandidate → DetectedElement → Notes → DetectedElement × Notes
  warn_unknown c e notes = (
    e,
    record notes {
      warnings = notes.warnings ++ record { code = unknown_object; element_ids = c.id ∷ [] } ∷ [];
    },
  )

  unfoldable pub interpret_as :
      DetectedElementKind → ShapeCandidate → Notes → DetectedElement × Notes
  unfolding element_of nearby_tables
  interpret_as seat c notes = relate c (element_of seat c) (nearby_tables c) notes
  interpret_as unknown c notes = warn_unknown c (element_of unknown c) notes
  interpret_as kind c notes = (element_of kind c, notes)

  unfoldable pub interpret_all : List ShapeCandidate → Notes → List DetectedElement × Notes
  unfolding interpret_as
  interpret_all [] notes = ([], notes)
  interpret_all (c ∷ rest) notes =
      let (e, notes') = interpret_as (kind_of r c.id) c notes in
      let (es, notes'') = interpret_all rest notes' in (e ∷ es, notes'')

-- The tables get their numbers of seats.
abbrev pub count_for : (String → ℕ) → DetectedElementKind → String → Option ℕ → Option ℕ
count_for counts table id old = some (counts id)
count_for counts _ id old = old

abbrev pub set_seat_count : (String → ℕ) → DetectedElement → DetectedElement
set_seat_count counts e = record e { seat_count = count_for counts e.kind e.id e.seat_count }

abbrev pub no_objects_warning : List DetectedElement → List Warning → List Warning
no_objects_warning [] warnings = warnings ++ record { code = no_objects; element_ids = [] } ∷ []
no_objects_warning (e ∷ rest) warnings = warnings

abbrev pub conclude : List DetectedElement × Notes → Interpretation
conclude (es, notes) = record {
  elements = map (set_seat_count notes.seat_counts) es;
  warnings = no_objects_warning es notes.warnings;
}

-- Every interpretation warns that it goes by geometry only.
abbrev pub first_notes : Notes
first_notes = record {
  warnings = record { code = geometry_only; element_ids = [] } ∷ [];
  seat_counts = λ _. 0;
}

unfoldable pub interpretation_of :
    Numbers → List ShapeCandidate → PreparedLayoutSource → Interpretation
unfolding interpret_all roles_of
interpretation_of n candidates source =
    conclude (interpret_all n source (roles_of n source candidates) candidates first_notes)

unfoldable pub interpret_shapes :
    Numbers → List ShapeCandidate → PreparedLayoutSource → Recognized Interpretation
unfolding interpretation_of
interpret_shapes n candidates source =
    if ltb 2000000 (length candidates * length candidates)
    then failed source_too_complex
    else done (interpretation_of n candidates source)
