-- ===== src/Layout/Plan.antt =====
-- layout/services/layout-write.service.ts: buildAutoGenerateInputFromMaxSeats and the input that
-- autoGenerateSeatMap makes.
pub mod Totals
use Prim.Native.String.{◌++◌ as str_append}
use omnixys_seat_service.Base.{
  ℕ, zero, suc, ◌+◌, ◌-◌, ◌/◌, min, String, List, [], ◌∷◌, some, ◌==◌, if◌then◌else◌, true,
}
use omnixys_seat_service.Base.Text.{decimal}
use omnixys_seat_service.Meta.{obj, end, null}
use omnixys_seat_service.Store.Rows.{
  TableShape, SectionShape, TableConfigInput, SectionInput, AutoGenerateLayoutInput,
  AutoGenerateSeatMapInput,
}

-- `Math.ceil(n / d)`, for d above 0
abbrev pub ceil_div : ℕ → ℕ → ℕ
ceil_div n d = (n + (d - 1)) / d

-- `${prefix} ${n}`
pub numbered : String → ℕ → String
unfolding decimal
numbered prefix n = str_append prefix (str_append " " (decimal n))

abbrev pub plan_table : ℕ → ℕ → TableConfigInput
plan_table order count = record {
  name = some (numbered "Table" order);
  shape = "ROUND";
  seats = record { count = count; shape = "CIRCLE"; meta = obj end };
  order = some order;
  meta = obj end;
}

-- The inner loop, with the rounds left: the tables, the seats that remain and the next number.
unfoldable pub plan_tables : ℕ → ℕ → ℕ → List TableConfigInput × ℕ × ℕ
plan_tables zero remaining order = ([], remaining, order)
plan_tables (suc rounds) remaining order =
    let count = min 10 remaining in
    let (tables, left, next) = plan_tables rounds (remaining - count) (order + 1) in
    if remaining == 0 then ([], remaining, order) else (plan_table order count ∷ tables, left, next)

abbrev pub plan_section : ℕ → List TableConfigInput → SectionInput
plan_section order tables = record {
  name = numbered "Section" order;
  shape = "CIRCLE";
  tables = tables;
  order = some order;
  meta = obj end;
}

-- The outer loop.
unfoldable pub plan_sections : ℕ → ℕ → ℕ → ℕ → List SectionInput
plan_sections zero remaining table_order section_order = []
plan_sections (suc rounds) remaining table_order section_order =
    let (tables, left, next) = plan_tables 5 remaining table_order in
    plan_section section_order tables ∷ plan_sections rounds left next (section_order + 1)

-- buildAutoGenerateInputFromMaxSeats
unfoldable pub build_from_max_seats : ℕ → List SectionInput
unfolding plan_sections
build_from_max_seats max_seats = plan_sections (ceil_div (ceil_div max_seats 10) 5) max_seats 1 1

-- The values of the enumerations.
abbrev pub table_shape_text : TableShape → String
table_shape_text TableShape.round = "ROUND"
table_shape_text TableShape.rectangle = "RECTANGLE"
table_shape_text TableShape.oval = "OVAL"
table_shape_text TableShape.row = "ROW"

abbrev pub section_shape_text : SectionShape → String
section_shape_text SectionShape.rectangle = "RECTANGLE"
section_shape_text SectionShape.circle = "CIRCLE"
section_shape_text SectionShape.polygon = "POLYGON"

abbrev pub map_table : AutoGenerateSeatMapInput → ℕ → TableConfigInput
map_table input i = record {
  name = some (numbered "Table" (i + 1));
  shape = table_shape_text input.table_shape;
  seats = record {
    count = ceil_div input.seat_count input.table_count;
    shape = "CIRCLE";
    meta = null;
  };
  order = some (i + 1);
  meta = null;
}

-- `Array.from({ length }, (_, i) => …)`, from the i-th on
unfoldable pub map_tables : AutoGenerateSeatMapInput → ℕ → ℕ → List TableConfigInput
map_tables input i zero = []
map_tables input i (suc n) = map_table input i ∷ map_tables input (i + 1) n

-- The configuration of autoGenerateSeatMap.
unfoldable pub seat_map_input : AutoGenerateSeatMapInput → AutoGenerateLayoutInput
unfolding map_tables
seat_map_input input = record {
  event_id = input.event_id;
  adaptive_radius = true;
  sections =
      record {
        name = input.section_name;
        shape = section_shape_text input.section_layout;
        tables = map_tables input 0 input.table_count;
        order = some 1;
        meta = null;
      }
      ∷ [];
}
