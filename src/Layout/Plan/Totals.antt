-- ===== src/Layout/Plan/Totals.antt =====
-- How many seats and tables the generator is asked for (layout/services/layout-write.service.ts).
use native.Mathlib.Nat.{div-add-mod, mod-lt}
use omnixys_seat_service.Base.{
  ℕ, zero, suc, ◌+◌, ◌-◌, ◌*◌, ◌≤◌, ◌<◌, min, List, [], ◌∷◌, some, arith, ◌==◌, length, All,
  Bool-cases, inl, inr, ◌≡◌, refl,
}
use omnixys_seat_service.Store.Rows.{TableConfigInput, SectionInput, AutoGenerateSeatMapInput}
use omnixys_seat_service.Layout.Plan.{
  ceil_div, numbered, plan_tables, plan_sections, build_from_max_seats, map_tables, seat_map_input,
}

abbrev pub seats_at : List TableConfigInput → ℕ
seats_at [] = 0
seats_at (t ∷ ts) = t.seats.count + seats_at ts

abbrev pub seats_in : List SectionInput → ℕ
seats_in [] = 0
seats_in (s ∷ ss) = seats_at s.tables + seats_in ss

abbrev pub tables_in : List SectionInput → ℕ
tables_in [] = 0
tables_in (s ∷ ss) = length s.tables + tables_in ss

-- One to ten seats.
abbrev pub IsTable : TableConfigInput → Type 0
IsTable t = (1 ≤ t.seats.count) × (t.seats.count ≤ 10)

-- The tables bear the numbers from the given one on, in their names and as their orders.
abbrev pub IsNumbered : ℕ → List TableConfigInput → Type 0
IsNumbered n [] = Unit
IsNumbered n (t ∷ ts) =
    (t.name ≡ some (numbered "Table" n)) × (t.order ≡ some n) × IsNumbered (n + 1) ts

-- One to five tables of one to ten seats, and the numbers go on from section to section.
abbrev pub IsPlan : ℕ → ℕ → List SectionInput → Type 0
IsPlan n k [] = Unit
IsPlan n k (s ∷ ss) =
    (1 ≤ length s.tables)
    × (length s.tables ≤ 5)
    × All IsTable s.tables
    × IsNumbered n s.tables
    × (s.name ≡ numbered "Section" k)
    × (s.order ≡ some k)
    × IsPlan (n + length s.tables) (k + 1) ss

-- What the inner loop makes of the seats that remain.
record IsFilled (rounds remaining order : ℕ) (r : List TableConfigInput × ℕ × ℕ) : Type 0 where
  seats : seats_at r.0 + r.1 ≡ remaining
  left : r.1 ≡ remaining - 10 * rounds
  next : r.2 ≡ order + length r.0
  few : length r.0 ≤ rounds
  some_table : 0 < remaining → 0 < rounds → 1 ≤ length r.0
  whole : All IsTable r.0
  names : IsNumbered order r.0

plan_tables-IsFilled :
    (rounds remaining order : ℕ)
    → IsFilled rounds remaining order (plan_tables rounds remaining order)
unfolding plan_tables
plan_tables-IsFilled zero remaining order = record {
  seats = omega arith;
  left = omega arith;
  next = omega arith;
  few = omega arith;
  some_table = λ h k. absurd (omega arith);
  whole = tt;
  names = tt;
}
plan_tables-IsFilled (suc rounds) remaining order =
    let ih = plan_tables-IsFilled rounds (remaining - min 10 remaining) (order + 1) in
    elim (Bool-cases (remaining == 0)) [
      | inl e ↦ rw e (record {
        seats = omega arith;
        left = ground arith;
        next = omega arith;
        few = omega arith;
        some_table = λ h k. absurd (ground arith);
        whole = tt;
        names = tt;
      })
      | inr e ↦ rw e (record {
        seats = omega (arith, ih.seats);
        left = omega (arith, ih.left);
        next = omega (arith, ih.next);
        few = omega (arith, ih.few);
        some_table = λ h k. omega arith;
        whole = ((ground arith, omega arith), ih.whole);
        names = (refl, refl, ih.names);
      })
    ]

record IsPlanned (n k remaining : ℕ) (ss : List SectionInput) : Type 0 where
  seats : seats_in ss ≡ remaining
  plan : IsPlan n k ss

plan_sections-IsPlanned :
    (rounds remaining n k : ℕ)
    → remaining ≤ 50 * rounds
    → 50 * rounds < remaining + 50
    → IsPlanned n k remaining (plan_sections rounds remaining n k)
unfolding plan_sections
plan_sections-IsPlanned zero remaining n k h l = record { seats = omega arith; plan = tt }
plan_sections-IsPlanned (suc rounds) remaining n k h l =
    let f = plan_tables-IsFilled 5 remaining n in
    let ih : IsPlanned _ _ _ _ =
      plan_sections-IsPlanned rounds (plan_tables 5 remaining n).1 (plan_tables 5 remaining n).2
        (k + 1) (omega (arith, f.left)) (omega (arith, f.left)) in
    record {
      seats = omega (arith, f.seats, ih.seats);
      plan = (
        f.some_table (omega arith) (omega arith),
        f.few,
        f.whole,
        f.names,
        refl,
        refl,
        rw (← f.next) ih.plan,
      );
    }

-- The layout for a number of seats has that many seats, in sections of one to five tables with one to
-- ten seats each; the tables are numbered from one on through all sections, and so are the sections.
pub build_from_max_seats-IsPlan :
    (max_seats : ℕ)
    → (seats_in (build_from_max_seats max_seats) ≡ max_seats)
      × IsPlan 1 1 (build_from_max_seats max_seats)
unfolding build_from_max_seats
build_from_max_seats-IsPlan max_seats =
    let p =
      plan_sections-IsPlanned (ceil_div (ceil_div max_seats 10) 5) max_seats 1 1 (omega arith)
        (omega arith) in
    (p.seats, p.plan)

map_tables-seats :
    (input : AutoGenerateSeatMapInput) (i n : ℕ)
    → (seats_at (map_tables input i n) ≡ n * ceil_div input.seat_count input.table_count)
      × (length (map_tables input i n) ≡ n)
unfolding map_tables
map_tables-seats input i zero = (omega arith, refl)
map_tables-seats input i (suc n) =
    let ih = map_tables-seats input (i + 1) n in (grind arith, omega (arith, ih.1))

-- The layout of a seat map has the number of tables that was asked for, and as many seats as were
-- asked for at least, but fewer than one more for each table.
pub seat_map_input-seats :
    (input : AutoGenerateSeatMapInput)
    → 0 < input.table_count
    → (tables_in (seat_map_input input).sections ≡ input.table_count)
      × (input.seat_count ≤ seats_in (seat_map_input input).sections)
      × (seats_in (seat_map_input input).sections < input.seat_count + input.table_count)
unfolding seat_map_input
seat_map_input-seats input h =
    let ih = map_tables-seats input 0 input.table_count in
    let d = div-add-mod (input.seat_count + (input.table_count - 1)) input.table_count in
    let m = mod-lt (input.seat_count + (input.table_count - 1)) h in
    (omega (arith, ih.1), omega (arith, ih.0, d, m), omega (arith, ih.0, d, m))
