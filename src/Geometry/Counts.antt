-- ===== src/Geometry/Counts.antt =====
-- How many sections, tables and seats GeometryEngine.generate makes (layout/utils/geometry-engine.ts).
use omnixys_seat_service.Base.{
  ℕ, suc, ◌+◌, ◌≤◌, ◌≡◌, refl, ◌∙◌, Bool, true, String, List, [], ◌∷◌, ◌++◌, Option, none, some,
  length, get_elem?, map, All, arith,
}
use omnixys_seat_service.Store.Exec.{Floats}
use omnixys_seat_service.Store.Rows.{TableConfigInput, SectionInput}
use omnixys_seat_service.Layout.Plan.{build_from_max_seats}
use omnixys_seat_service.Layout.Plan.Totals.{
  build_from_max_seats-IsPlan, seats_at, seats_in, tables_in,
}
use omnixys_seat_service.Geometry.Ids.{table_id, split, to_number-decimal, split-table_id}
use omnixys_seat_service.Geometry.Enough.{length-append, length-map, positions-enough, seats-enough}
use omnixys_seat_service.Geometry.Places.{Place, SeatPlace, get_table_positions}
use omnixys_seat_service.Geometry.Engine.{
  GeometrySection, GeometryTable, GeometrySeat, GeometryOutput, config_at, find_config,
  generate_sections, tables_at, generate_tables, set_bounds, seats_from, seats_for, append_seats,
  generate_seats, output, generate,
}

-- A table whose id leads back to the configuration that it was made from.
record IsFound (inputs : List SectionInput) (t : GeometryTable) : Type 0 where
  section : ℕ
  index : ℕ
  input : SectionInput
  config : TableConfigInput
  named : t.id ≡ table_id section index
  section_found : get_elem? inputs section ≡ some input
  config_found : get_elem? input.tables index ≡ some config
  seats : config.seats.count ≡ t.capacity

abbrev pub capacities : List GeometryTable → ℕ
capacities [] = 0
capacities (t ∷ ts) = t.capacity + capacities ts

-- The id that a table was given leads back to the configuration it was made from, for every number of
-- section and table.
pub find_config-table_id :
    (inputs : List SectionInput) (i t : ℕ)
    → find_config inputs (split (table_id i t)) ≡ config_at inputs i t
find_config-table_id inputs i t =
    rw (split-table_id i t, to_number-decimal i, to_number-decimal t) refl

config-found :
    (inputs : List SectionInput) (t : GeometryTable) (found : IsFound inputs t)
    → find_config inputs (split t.id) ≡ some found.config
config-found inputs t found =
    rw (found.named, find_config-table_id inputs found.section found.index, found.section_found)
      found.config_found

length-seats_from :
    (f : Floats) (parts : List String) (t : GeometryTable) (shape : String) (s : ℕ)
    (ps : List SeatPlace)
    → length (seats_from f parts t shape s ps) ≡ length ps
length-seats_from f parts t shape s [] = refl
length-seats_from f parts t shape s (p ∷ ps) =
    omega (arith, length-seats_from f parts t shape (suc s) ps)

-- Seats of a number in total.
abbrev pub IsCount : ℕ → Option (List GeometrySeat) → Type 0
IsCount n none = ⊥
IsCount n (some seats) = length seats ≡ n

append_seats-IsCount :
    (f : Floats) (a b : ℕ) (o p : Option (List GeometrySeat))
    → IsCount a o
    → IsCount b p
    → IsCount (a + b) (append_seats f o p)
append_seats-IsCount f a b none p h k = absurd h
append_seats-IsCount f a b (some xs) none h k = absurd k
append_seats-IsCount f a b (some xs) (some ys) h k = length-append xs ys ∙ omega arith

-- Tables whose ids lead back to their configurations have as many seats as their capacities say.
generate_seats-IsCount :
    (f : Floats) (inputs : List SectionInput) (ts : List GeometryTable)
    → All (IsFound inputs) ts
    → IsCount (capacities ts) (generate_seats f inputs ts)
unfolding generate_seats
generate_seats-IsCount f inputs [] h = refl
generate_seats-IsCount f inputs (t ∷ ts) h =
    append_seats-IsCount f t.capacity (capacities ts) _ _ (own t h.0)
      (generate_seats-IsCount f inputs ts h.1)
  where
    own :
        (t : GeometryTable) (found : IsFound inputs t)
        → IsCount t.capacity (seats_for f (split t.id) t (find_config inputs (split t.id)))
    own t found = rw (config-found inputs t found) (
        length-seats_from f (split t.id) t found.config.seats.shape 0 _
        ∙ seats-enough f found.config.seats.count found.config.seats.shape t.facing
        ∙ found.seats)

-- The elements stand in the list from a position on.
abbrev pub IsPart : {A : Type 0} → List A → ℕ → List A → Type 0
IsPart all i [] = Unit
IsPart all i (x ∷ xs) = (get_elem? all i ≡ some x) × IsPart all (suc i) xs

IsPart-behind :
    {A : Type 0} (y : A) (all : List A) (i : ℕ) (xs : List A)
    → IsPart all i xs
    → IsPart (y ∷ all) (suc i) xs
IsPart-behind y all i [] h = tt
IsPart-behind y all i (x ∷ xs) h = (h.0, IsPart-behind y all (suc i) xs h.1)

IsPart-self : {A : Type 0} (xs : List A) → IsPart xs 0 xs
IsPart-self [] = tt
IsPart-self (x ∷ xs) = (refl, IsPart-behind x xs 0 xs (IsPart-self xs))

-- As many tables and seats as there are, and each table leads back to its configuration.
record IsComplete (inputs : List SectionInput) (n m : ℕ) (ts : List GeometryTable) : Type 0 where
  found : All (IsFound inputs) ts
  tables : length ts ≡ n
  seats : capacities ts ≡ m

capacities-append :
    (xs ys : List GeometryTable) → capacities (xs ++ ys) ≡ capacities xs + capacities ys
capacities-append [] ys = omega arith
capacities-append (x ∷ xs) ys = omega (arith, capacities-append xs ys)

All-append {ℓ κ} :
    {A : Type ℓ} (P : A → Type κ) (xs ys : List A) → All P xs → All P ys → All P (xs ++ ys)
All-append P [] ys h k = k
All-append P (x ∷ xs) ys h k = (h.0, All-append P xs ys h.1 k)

tables_at-IsComplete :
    (f : Floats) (all : List SectionInput) (s : GeometrySection) (input : SectionInput) (i t : ℕ)
    (configs : List TableConfigInput) (places : List Place)
    → get_elem? all i ≡ some input
    → IsPart input.tables t configs
    → length configs ≤ length places
    → IsComplete all (length configs) (seats_at configs) (tables_at f s i t configs places)
unfolding tables_at
tables_at-IsComplete f all s input i t [] places h k l = record {
  found = tt;
  tables = refl;
  seats = refl;
}
tables_at-IsComplete f all s input i t (c ∷ rest) [] h k l = absurd (omega arith)
tables_at-IsComplete f all s input i t (c ∷ rest) (p ∷ places) h k l =
    let ih = tables_at-IsComplete f all s input i (suc t) rest places h k.1 (omega arith) in
    record {
      found = (
        record {
          section = i;
          index = t;
          input = input;
          config = c;
          named = refl;
          section_found = h;
          config_found = k.0;
          seats = refl;
        },
        ih.found,
      );
      tables = omega (arith, ih.tables);
      seats = omega (arith, ih.seats);
    }

generate_tables-IsComplete :
    (f : Floats) (all : List SectionInput) (i : ℕ) (inputs : List SectionInput)
    (sections : List GeometrySection)
    → IsPart all i inputs
    → length sections ≡ length inputs
    → IsComplete all (tables_in inputs) (seats_in inputs) (generate_tables f i inputs sections)
unfolding generate_tables
generate_tables-IsComplete f all i [] sections h k = record {
  found = tt;
  tables = refl;
  seats = refl;
}
generate_tables-IsComplete f all i (input ∷ inputs) [] h k = absurd (omega arith)
generate_tables-IsComplete f all i (input ∷ inputs) (s ∷ sections) h k =
    let ps = get_table_positions f (length input.tables) s.shape in
    let own =
      tables_at-IsComplete f all s input i 0 input.tables ps h.0 (IsPart-self input.tables)
        (positions-enough f (length input.tables) s.shape) in
    let ih = generate_tables-IsComplete f all (suc i) inputs sections h.1 (omega arith) in
    let mine = tables_at f s i 0 input.tables ps in
    let more = generate_tables f (suc i) inputs sections in
    record {
      found = All-append (IsFound all) mine more own.found ih.found;
      tables = length-append mine more ∙ omega (arith, own.tables, ih.tables);
      seats = capacities-append mine more ∙ omega (arith, own.seats, ih.seats);
    }

length-generate_sections :
    (f : Floats) (adaptive : Bool) (count i : ℕ) (inputs : List SectionInput)
    → length (generate_sections f adaptive count i inputs) ≡ length inputs
unfolding generate_sections
length-generate_sections f adaptive count i [] = refl
length-generate_sections f adaptive count i (s ∷ rest) =
    omega (arith, length-generate_sections f adaptive count (suc i) rest)

-- The numbers of sections, tables and seats asked for.
abbrev pub IsAsked : List SectionInput → GeometryOutput → Type 0
IsAsked inputs g =
    (length g.sections ≡ length inputs)
    × (length g.tables ≡ tables_in inputs)
    × (length g.seats ≡ seats_in inputs)

output-IsAsked :
    (f : Floats) (inputs : List SectionInput) (sections : List GeometrySection)
    (tables : List GeometryTable) (o : Option (List GeometrySeat))
    → length sections ≡ length inputs
    → length tables ≡ tables_in inputs
    → IsCount (seats_in inputs) o
    → (g : GeometryOutput) × (output f sections tables o ≡ some g) × IsAsked inputs g
output-IsAsked f inputs sections tables none h k l = absurd l
output-IsAsked f inputs sections tables (some seats) h k l =
    (record { sections = sections; tables = tables; seats = seats }, refl, (h, k, l))

-- The generator does not fail, and it makes a section for every section asked for, a table for every
-- table and as many seats as the tables are to have, whatever the shapes and the arithmetic.
pub generate-IsAsked :
    (f : Floats) (adaptive : Bool) (inputs : List SectionInput)
    → (g : GeometryOutput) × (generate f adaptive inputs ≡ some g) × IsAsked inputs g
unfolding generate
generate-IsAsked f adaptive inputs =
    let sections = generate_sections f adaptive (length inputs) 0 inputs in
    let n = length-generate_sections f adaptive (length inputs) 0 inputs in
    let c = generate_tables-IsComplete f inputs 0 inputs sections (IsPart-self inputs) n in
    let ts = generate_tables f 0 inputs sections in
    output-IsAsked f inputs (map (set_bounds f ts) sections) ts (generate_seats f inputs ts)
      (length-map (set_bounds f ts) sections ∙ n) c.tables
      (rw (← c.seats) (generate_seats-IsCount f inputs ts c.found))

-- The layout generated for a number of seats has that many seats.
pub generate-max_seats :
    (f : Floats) (max_seats : ℕ)
    → (g : GeometryOutput) × (generate f true (build_from_max_seats max_seats) ≡ some g)
      × (length g.seats ≡ max_seats)
generate-max_seats f max_seats =
    let (g, made, asked) = generate-IsAsked f true (build_from_max_seats max_seats) in
    (g, made, asked.2 ∙ (build_from_max_seats-IsPlan max_seats).0)
