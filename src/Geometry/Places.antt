-- ===== src/Geometry/Places.antt =====
-- layout/utils/geometry-engine.ts: where sections, tables and seats are put. A place of a table is
-- relative to its section's centre, that of a seat to its table's.
use Prim.Native.Nat.{◌/◌, ◌%◌}
use omnixys_seat_service.Base.{
  ℕ, zero, suc, ◌+◌, ◌-◌, ◌*◌, String, str_eq, List, [], ◌∷◌, ◌++◌, if◌then◌else◌,
}
use omnixys_seat_service.Base.Int.{ℤ}
use omnixys_seat_service.Store.Exec.{Floats}
use omnixys_seat_service.Layout.Plan.{ceil_div}

pub record Place : Type 0 where
  pub x : ℤ
  pub y : ℤ

pub record SeatPlace : Type 0 where
  pub x : ℤ
  pub y : ℤ
  pub rotation : ℤ

module _ {A : Type 0} where
  -- The values at the numbers from the first on.
  abbrev pub tabulate : (ℕ → A) → ℕ → ℕ → List A
  tabulate f first zero = []
  tabulate f first (suc n) = f first ∷ tabulate f (suc first) n

module _ (f : Floats) where
  -- `2 * Math.PI`
  abbrev pub turn : ℤ
  turn = f.mul (f.of_ℕ 2) f.pi

  abbrev pub place_at : ℤ → ℤ → Place
  place_at angle radius = record { x = f.mul (f.cos angle) radius; y = f.mul (f.sin angle) radius }

  -- `(2 * Math.PI * i) / n`
  abbrev pub angle_of : ℕ → ℕ → ℤ
  angle_of n i = f.div (f.mul turn (f.of_ℕ i)) (f.of_ℕ n)

  -- computeTableRing and computeSeatRing
  abbrev pub compute_table_ring : ℕ → ℤ
  compute_table_ring n = f.max (f.of_ℕ 200) (f.div (f.of_ℕ (n * (100 + 40))) turn)

  abbrev pub compute_seat_ring : ℕ → ℤ
  compute_seat_ring count = f.max (f.of_ℕ 60) (f.div (f.of_ℕ (count * (36 + 12))) turn)

  abbrev pub place_tables_circle : ℕ → List Place
  place_tables_circle n = tabulate (λ t. place_at (angle_of n t) (compute_table_ring n)) 0 n

  -- The columns, and a place by its row and column.
  abbrev pub columns : ℕ → ℕ
  columns n = f.ceil (f.sqrt (f.of_ℕ n))

  abbrev pub grid_place : ℕ → ℕ → Place
  grid_place cols i = record {
    x = f.sub (f.of_ℕ (i % cols * 180)) (f.div (f.of_ℕ (cols * 180)) (f.of_ℕ 2));
    y = f.sub (f.of_ℕ (i / cols * 180)) (f.of_ℕ 180);
  }

  abbrev pub place_tables_grid : ℕ → List Place
  place_tables_grid n = tabulate (grid_place (columns n)) 0 n

  abbrev pub row_place : ℤ → ℕ → Place
  row_place y i = record { x = f.of_ℕ (i * 200); y = y }

  abbrev pub place_tables_u : ℕ → List Place
  place_tables_u n =
      tabulate (row_place (f.neg (f.of_ℕ 200))) 0 (ceil_div n 2)
      ++ tabulate (row_place (f.of_ℕ 200)) 0 (n - ceil_div n 2)

  -- `Math.ceil(n * 0.6)`, and `(j + 0.5) * spacing`
  abbrev pub top_count : ℕ → ℕ
  top_count n = f.ceil (f.mul (f.of_ℕ n) (f.div (f.of_ℕ 3) (f.of_ℕ 5)))

  abbrev pub bottom_place : ℕ → Place
  bottom_place j = record {
    x = f.mul (f.add (f.of_ℕ j) (f.div (f.of_ℕ 1) (f.of_ℕ 2))) (f.of_ℕ 200);
    y = f.of_ℕ 200;
  }

  abbrev pub place_tables_horseshoe : ℕ → List Place
  place_tables_horseshoe n =
      tabulate (row_place (f.of_ℕ 0)) 0 (top_count n) ++ tabulate bottom_place 0 (n - top_count n)

  abbrev pub place_tables_vip : ℕ → List Place
  place_tables_vip n = tabulate (λ t. place_at (angle_of n t) (f.of_ℕ 200)) 0 n

  -- getTablePositions
  unfoldable pub get_table_positions : ℕ → String → List Place
  get_table_positions n shape =
      if str_eq shape "grid"
      then place_tables_grid n
      else if str_eq shape "u"
      then place_tables_u n
      else if str_eq shape "horseshoe"
      then place_tables_horseshoe n
      else if str_eq shape "vip"
      then place_tables_vip n
      else place_tables_circle n

  -- offsetRowTable, with the width of the table
  abbrev pub offset_row_table : String → Place → ℕ → Place
  offset_row_table facing p width =
      let d = f.add (f.div (f.of_ℕ width) (f.of_ℕ 2)) (f.of_ℕ 70) in
      if str_eq facing "south"
      then record p { y = f.add p.y d }
      else if str_eq facing "east"
      then record p { x = f.add p.x d }
      else if str_eq facing "west"
      then record p { x = f.sub p.x d }
      else record p { y = f.sub p.y d }

  abbrev pub circle_seat : ℕ → ℕ → SeatPlace
  circle_seat count s =
      let angle = angle_of count s in
      record {
        x = f.mul (f.cos angle) (compute_seat_ring count);
        y = f.mul (f.sin angle) (compute_seat_ring count);
        rotation = f.add (f.div (f.mul angle (f.of_ℕ 180)) f.pi) (f.of_ℕ 90);
      }

  -- `(i - n / 2) * spacing`, of a row of n
  abbrev pub row_x : ℕ → ℕ → ℤ
  row_x n i = f.mul (f.sub (f.of_ℕ i) (f.div (f.of_ℕ n) (f.of_ℕ 2))) (f.of_ℕ 44)

  abbrev pub place_seats_circle : ℕ → List SeatPlace
  place_seats_circle count = tabulate (circle_seat count) 0 count

  -- placeSeatsGridBankStyle: two rows that face each other
  abbrev pub place_seats_grid : ℕ → List SeatPlace
  place_seats_grid count =
      let half = ceil_div count 2 in
      tabulate (λ i. record { x = row_x half i; y = f.neg (f.of_ℕ 60); rotation = f.of_ℕ 180 }) 0
        half
      ++ tabulate (λ i. record { x = row_x (count - half) i; y = f.of_ℕ 60; rotation = f.of_ℕ 0 }) 0
          (count - half)

  abbrev pub row_offset : String → ℤ
  row_offset facing =
      if str_eq facing "south"
      then f.neg (f.of_ℕ 50)
      else if str_eq facing "north"
      then f.of_ℕ 50
      else if str_eq facing "east"
      then f.neg (f.of_ℕ 50)
      else f.of_ℕ 50

  abbrev pub place_seats_row : ℕ → String → List SeatPlace
  place_seats_row count facing =
      tabulate (λ i. record { x = row_x count i; y = row_offset facing; rotation = f.of_ℕ 0 }) 0
        count

  -- The `switch` of generateSeats.
  unfoldable pub seat_positions : ℕ → String → String → List SeatPlace
  seat_positions count shape facing =
      if str_eq shape "grid"
      then place_seats_grid count
      else if str_eq shape "row"
      then place_seats_row count facing
      else place_seats_circle count
