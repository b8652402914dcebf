-- ===== src/Geometry/Engine.antt =====
-- layout/utils/geometry-engine.ts: GeometryEngine.generate. The keys of `meta` that the engine sets are
-- fields here: shape, facing and config.
use Prim.Native.String.{◌++◌ as str_append}
use omnixys_seat_service.Base.{
  ℕ, suc, ◌+◌, ◌*◌, Bool, String, str_eq, List, [], ◌∷◌, ◌++◌, Option, none, some, if◌then◌else◌,
  length, get_elem?, or_default, select, map,
}
use omnixys_seat_service.Base.Int.{ℤ}
use omnixys_seat_service.Base.Text.{decimal}
use omnixys_seat_service.Meta.{Json, or_empty}
use omnixys_seat_service.Store.Exec.{Floats}
use omnixys_seat_service.Store.Rows.{SeatType, TableConfigInput, SectionInput}
use omnixys_seat_service.Geometry.Ids.{section_id, table_id, seat_id, split, to_number}
use omnixys_seat_service.Geometry.Places.{
  Place, SeatPlace, turn, get_table_positions, offset_row_table, seat_positions,
}

pub record GeometrySection : Type 0 where
  pub id : String
  pub name : String
  pub x : ℤ
  pub y : ℤ
  pub width : ℤ
  pub height : ℤ
  pub radius : ℤ
  pub order : ℕ
  pub shape : String
  pub facing : String
  pub config : Json

pub record GeometryTable : Type 0 where
  pub id : String
  pub section_id : String
  pub name : String
  pub x : ℤ
  pub y : ℤ
  pub order : ℕ
  pub capacity : ℕ
  pub shape : String
  pub config : Json
  pub facing : String

pub record GeometrySeat : Type 0 where
  pub id : String
  pub table_id : String
  pub number : ℕ
  pub label : String
  pub x : ℤ
  pub y : ℤ
  pub rotation : ℤ
  pub seat_shape : String
  pub seat_type : SeatType
  pub status : String

pub record GeometryOutput : Type 0 where
  pub sections : List GeometrySection
  pub tables : List GeometryTable
  pub seats : List GeometrySeat

-- getSectionFacing
abbrev pub get_section_facing : String → String
get_section_facing shape =
    if str_eq shape "u"
    then "south"
    else if str_eq shape "horseshoe"
    then "east"
    else if str_eq shape "vip"
    then "center"
    else "north"

-- `sections[i].tables[t]`
abbrev pub table_in : Option SectionInput → ℕ → Option TableConfigInput
table_in none t = none
table_in (some s) t = get_elem? s.tables t

abbrev pub config_at : List SectionInput → ℕ → ℕ → Option TableConfigInput
config_at inputs i t = table_in (get_elem? inputs i) t

-- What the second and the third part of an id lead to.
abbrev pub find_config : List SectionInput → List String → Option TableConfigInput
find_config inputs (tag ∷ i ∷ t ∷ rest) = config_at inputs (to_number i) (to_number t)
find_config inputs _ = none

module _ (f : Floats) where
  -- `Math.max(...counts)`
  abbrev pub max_count : List TableConfigInput → ℤ
  max_count [] = f.neg f.infinity
  max_count (t ∷ ts) = f.max (f.of_ℕ t.seats.count) (max_count ts)

  -- computeDynamicRadius
  abbrev pub compute_dynamic_radius : List TableConfigInput → ℤ
  compute_dynamic_radius tables = f.max (f.of_ℕ 300) (
      f.add
        (f.add (f.div (f.of_ℕ (length tables * (100 + 40))) (turn f))
          (f.div (f.mul (max_count tables) (f.of_ℕ (36 + 12))) (turn f)))
        (f.of_ℕ 60))

  abbrev pub new_section : Bool → ℕ → SectionInput → GeometrySection
  new_section adaptive i s = record {
    id = section_id i;
    name = s.name;
    x = f.of_ℕ 0;
    y = f.of_ℕ 0;
    width = f.of_ℕ 400;
    height = f.of_ℕ 300;
    radius = if adaptive then compute_dynamic_radius s.tables else f.of_ℕ 500;
    order = i + 1;
    shape = s.shape;
    facing = get_section_facing s.shape;
    config = or_empty (some s.meta);
  }

  -- The section in its place on a circle for the number of sections (placeCircle).
  abbrev pub put_on_circle : ℕ → ℕ → GeometrySection → GeometrySection
  put_on_circle count i s =
      let angle = f.mul (f.mul (f.div (f.of_ℕ i) (f.of_ℕ count)) f.pi) (f.of_ℕ 2) in
      record s {
        x = f.add (f.of_ℕ 0) (f.mul (f.cos angle) (f.of_ℕ 600));
        y = f.add (f.of_ℕ 0) (f.mul (f.sin angle) (f.of_ℕ 600));
      }

  -- generateSections, from a number on
  unfoldable pub generate_sections : Bool → ℕ → ℕ → List SectionInput → List GeometrySection
  generate_sections adaptive count i [] = []
  generate_sections adaptive count i (s ∷ rest) =
      put_on_circle count i (new_section adaptive i s)
      ∷ generate_sections adaptive count (suc i) rest

  abbrev pub place_table : GeometrySection → TableConfigInput → Place → Place
  place_table s t p =
      if str_eq t.shape "row" then offset_row_table f s.facing p (t.seats.count * 44) else p

  abbrev pub new_table : GeometrySection → ℕ → ℕ → TableConfigInput → Place → GeometryTable
  new_table s i t config p = record {
    id = table_id i t;
    section_id = s.id;
    name = or_default config.name (str_append s.name (str_append "-T" (decimal (t + 1))));
    x = p.x;
    y = p.y;
    order = t + 1;
    capacity = config.seats.count;
    shape = config.shape;
    config = or_empty (some config.meta);
    facing = s.facing;
  }

  -- The tables of a section, from a number on, with the places left; one without a place is left out.
  unfoldable pub tables_at :
      GeometrySection → ℕ → ℕ → List TableConfigInput → List Place → List GeometryTable
  tables_at s i t [] places = []
  tables_at s i t (config ∷ rest) [] = []
  tables_at s i t (config ∷ rest) (p ∷ places) =
      new_table s i t config (place_table s config p) ∷ tables_at s i (suc t) rest places

  -- generateTables, from a number on; the sections were made from the inputs, one from each.
  unfoldable pub generate_tables : ℕ → List SectionInput → List GeometrySection → List GeometryTable
  unfolding tables_at
  generate_tables i [] sections = []
  generate_tables i (input ∷ inputs) [] = []
  generate_tables i (input ∷ inputs) (s ∷ sections) =
      tables_at s i 0 input.tables (get_table_positions f (length input.tables) s.shape)
      ++ generate_tables (suc i) inputs sections

  -- The extent of the tables: the least and the greatest x and y. No table has a width or a height of its
  -- own, so each is taken as 100.
  abbrev pub least : (GeometryTable → ℤ) → List GeometryTable → ℤ → ℤ
  least at [] low = low
  least at (t ∷ ts) low = least at ts (f.min low (f.sub (at t) (f.div (f.of_ℕ 100) (f.of_ℕ 2))))

  abbrev pub greatest : (GeometryTable → ℤ) → List GeometryTable → ℤ → ℤ
  greatest at [] high = high
  greatest at (t ∷ ts) high =
      greatest at ts (f.max high (f.add (at t) (f.div (f.of_ℕ 100) (f.of_ℕ 2))))

  abbrev pub extent : (GeometryTable → ℤ) → List GeometryTable → ℤ
  extent at ts =
      f.add (f.sub (greatest at ts (f.neg f.infinity)) (least at ts f.infinity)) (f.of_ℕ 80)

  -- computeSectionBounds: the width and the height
  abbrev pub compute_section_bounds : List GeometryTable → ℤ × ℤ
  compute_section_bounds [] = (f.of_ℕ 400, f.of_ℕ 300)
  compute_section_bounds (t ∷ ts) = (extent (λ r. r.x) (t ∷ ts), extent (λ r. r.y) (t ∷ ts))

  abbrev pub set_bounds : List GeometryTable → GeometrySection → GeometrySection
  set_bounds tables s =
      let (w, h) = compute_section_bounds (select (λ t. str_eq t.section_id s.id) tables) in
      record s { width = w; height = h }

  abbrev pub new_seat : List String → GeometryTable → String → ℕ → SeatPlace → GeometrySeat
  new_seat parts table shape s p = record {
    id = seat_name parts;
    table_id = table.id;
    number = s + 1;
    label = str_append "S" (decimal (s + 1));
    x = p.x;
    y = p.y;
    rotation = p.rotation;
    seat_shape = shape;
    seat_type = SeatType.standard;
    status = "AVAILABLE";
  }
    where
      seat_name : List String → String
      seat_name (tag ∷ i ∷ t ∷ rest) = seat_id (to_number i) (to_number t) s
      seat_name _ = ""

  abbrev pub seats_from :
      List String → GeometryTable → String → ℕ → List SeatPlace → List GeometrySeat
  seats_from parts table shape s [] = []
  seats_from parts table shape s (p ∷ rest) =
      new_seat parts table shape s p ∷ seats_from parts table shape (suc s) rest

  abbrev pub seats_for :
      List String → GeometryTable → Option TableConfigInput → Option (List GeometrySeat)
  seats_for parts table none = none
  seats_for parts table (some config) = some (
      seats_from parts table config.seats.shape 0
        (seat_positions f config.seats.count config.seats.shape table.facing))

  abbrev pub append_seats :
      Option (List GeometrySeat) → Option (List GeometrySeat) → Option (List GeometrySeat)
  append_seats none rest = none
  append_seats (some seats) none = none
  append_seats (some seats) (some rest) = some (seats ++ rest)

  -- generateSeats; none is a TypeError for an id that leads to no configuration.
  unfoldable pub generate_seats :
      List SectionInput → List GeometryTable → Option (List GeometrySeat)
  generate_seats inputs [] = some []
  generate_seats inputs (table ∷ tables) =
      let parts = split table.id in
      append_seats (seats_for parts table (find_config inputs parts)) (generate_seats inputs tables)

  abbrev pub output :
      List GeometrySection → List GeometryTable → Option (List GeometrySeat) → Option GeometryOutput
  output sections tables none = none
  output sections tables (some seats) =
      some (record { sections = sections; tables = tables; seats = seats })

  -- generate
  unfoldable pub generate : Bool → List SectionInput → Option GeometryOutput
  generate adaptive inputs =
      let sections = generate_sections adaptive (length inputs) 0 inputs in
      let tables = generate_tables 0 inputs sections in
      output (map (set_bounds tables) sections) tables (generate_seats inputs tables)
