-- ===== src/LayoutImport/Interpreter/Roles.antt =====
-- layout-import/recognizers/layout-interpreter.ts, interpretShapes: which candidates are sections,
-- seats and tables. A candidate is told from another by its id.
use omnixys_seat_service.Base.{
  ◌*◌, Bool, not, ◌&&◌, List, [], ◌∷◌, String, ◌==◌, str_eq, ltb, leb, if◌then◌else◌, length, map,
  select, any, sort, is_some,
}
use omnixys_seat_service.Base.Int.{ℤ}
use omnixys_seat_service.LayoutImport.Recognizer.{PreparedLayoutSource, Numbers}
use omnixys_seat_service.LayoutImport.Contour.{ratio}
use omnixys_seat_service.LayoutImport.Shapes.{ShapeCandidate}
use omnixys_seat_service.LayoutImport.Interpreter.Relations.{
  area, diameter, contains, similar_size, body_gap,
}

abbrev pub ids_of : List ShapeCandidate → List String
ids_of candidates = map (λ c. c.id) candidates

-- `Set.has`
abbrev pub has_id : List String → String → Bool
has_id ids id = any (λ i. str_eq i id) ids

pub record Family : Type 0 where
  pub members : List ShapeCandidate
  pub area : ℤ

abbrev pub large_family : List Family → List ShapeCandidate
large_family [] = []
large_family (f ∷ rest) = if leb 3 (length f.members) then f.members else []

-- Sections, seats and tables.
pub record Roles : Type 0 where
  pub sections : List ShapeCandidate
  pub seats : List ShapeCandidate
  pub tables : List ShapeCandidate

module _ (n : Numbers) where
  -- `area(a) >= area(b) * 4`
  abbrev pub is_far_larger : ShapeCandidate → ShapeCandidate → Bool
  is_far_larger a b = n.le (n.floats.mul (area n b) (n.floats.of_ℕ 4)) (area n a)

  unfoldable pub is_section : PreparedLayoutSource → List ShapeCandidate → ShapeCandidate → Bool
  unfolding contains
  is_section source fitted candidate =
      let children =
        select (λ other. not (str_eq other.id candidate.id) && contains n candidate other) fitted in
      leb 3 (length children)
      && any (λ child. is_far_larger candidate child) children
      && n.le (n.floats.mul (n.floats.of_ℕ (source.width * source.height)) (ratio n 8 100))
          (area n candidate)

  -- `b.members.length - a.members.length || a.area - b.area` is negative.
  abbrev pub is_before : Family → Family → Bool
  is_before a b =
      if length a.members == length b.members
      then n.lt (n.floats.sub a.area b.area) (n.floats.of_ℕ 0)
      else ltb (length b.members) (length a.members)

  unfoldable pub families_of : List ShapeCandidate → List Family
  unfolding similar_size
  families_of bodies = sort is_before (
      map
        (λ candidate. record {
          members = select (similar_size n candidate) bodies;
          area = area n candidate;
        })
        bodies)

  -- `area(body) >= area(seat) * 4 && bodyGap(body, seat) <= diameter(seat) * 2.5`
  unfoldable pub is_beside : ShapeCandidate → ShapeCandidate → Bool
  unfolding body_gap
  is_beside body seat =
      is_far_larger body seat
      && n.le (body_gap n body seat) (n.floats.mul (diameter n seat) (ratio n 5 2))

  unfoldable pub roles_of : PreparedLayoutSource → List ShapeCandidate → Roles
  unfolding is_section families_of is_beside
  roles_of source candidates =
      let fitted = select (λ c. is_some c.shape) candidates in
      let sections = select (is_section source fitted) fitted in
      let bodies = select (λ c. not (has_id (ids_of sections) c.id)) fitted in
      let seats = large_family (families_of bodies) in
      record {
        sections = sections;
        seats = seats;
        tables =
            select
              (λ body.
                not (has_id (ids_of seats) body.id)
                && leb 3 (length (select (is_beside body) seats)))
              bodies;
      }
