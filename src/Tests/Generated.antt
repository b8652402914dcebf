-- ===== src/Tests/Generated.antt =====
-- The theorems on the layout generator at concrete inputs.
use omnixys_seat_service.Base.{true, false, ◌≡◌, refl, [], ◌∷◌, some, length}
use omnixys_seat_service.Base.Int.{pos}
use omnixys_seat_service.Meta.{obj, end}
use omnixys_seat_service.Store.Rows.{SeatType, AutoGenerateLayoutInput}
use omnixys_seat_service.Store.Exec.{err, invalid_value, transaction, or_raise, ◌>>=◌}
use omnixys_seat_service.Layout.Plan.{build_from_max_seats}
use omnixys_seat_service.Geometry.Ids.{
  table_id, split, to_number, to_number-decimal, split-table_id,
}
use omnixys_seat_service.Geometry.Engine.{
  GeometrySection, GeometryTable, GeometrySeat, GeometryOutput, generate, find_config, config_at,
}
use omnixys_seat_service.Geometry.Engine
use omnixys_seat_service.Geometry.Places
use omnixys_seat_service.Geometry.Ids
use omnixys_seat_service.Base.Text
use omnixys_seat_service.Base.Int
use omnixys_seat_service.Geometry.Counts.{
  IsAsked, generate-IsAsked, generate-max_seats, find_config-table_id,
}
use omnixys_seat_service.Store.Sets
use omnixys_seat_service.Store.Tables
use omnixys_seat_service.Layout.Generate
use omnixys_seat_service.Layout.Generate.{write_geometry, wipe, auto_generate_layout}
use omnixys_seat_service.Layout.Generated.{IsWiped, auto_generate_layout-IsWiped}
use omnixys_seat_service.Tests.Data.{env, floats, event_db}

generate-IsAsked_example :
    (g : GeometryOutput) × (generate floats true (build_from_max_seats 12) ≡ some g)
    × IsAsked (build_from_max_seats 12) g
generate-IsAsked_example = generate-IsAsked floats true (build_from_max_seats 12)

-- A hall with one table and one seat, in a row.
abbrev hall : AutoGenerateLayoutInput
hall = record {
  event_id = 9;
  sections =
      record {
        name = "Hall";
        shape = "CIRCLE";
        tables =
            record {
              name = some "T1";
              shape = "ROUND";
              seats = record { count = 1; shape = "row"; meta = obj end };
              order = some 1;
              meta = obj end;
            }
            ∷ [];
        order = some 1;
        meta = obj end;
      }
      ∷ [];
  adaptive_radius = false;
}

abbrev generated_hall : GeometryOutput
generated_hall = record {
  sections =
      record {
        id = "sec_0";
        name = "Hall";
        x = pos 0;
        y = pos 0;
        width = pos 182;
        height = pos 182;
        radius = pos 500;
        order = 1;
        shape = "CIRCLE";
        facing = "north";
        config = obj end;
      }
      ∷ [];
  tables =
      record {
        id = "tbl_0_0";
        section_id = "sec_0";
        name = "T1";
        x = pos 2;
        y = pos 2;
        order = 1;
        capacity = 1;
        shape = "ROUND";
        config = obj end;
        facing = "north";
      }
      ∷ [];
  seats =
      record {
        id = "seat_0_0_0";
        table_id = "tbl_0_0";
        number = 1;
        label = "S1";
        x = pos 0;
        y = pos 50;
        rotation = pos 0;
        seat_shape = "row";
        seat_type = SeatType.standard;
        status = "AVAILABLE";
      }
      ∷ [];
}

hall_generated : generate floats false hall.sections ≡ some generated_hall
unfolding generate Engine.generate_seats Engine.generate_tables Engine.generate_sections
    Places.get_table_positions split Text.decimal Ids.read_number Int.◌+ℤ◌ Places.seat_positions
hall_generated = refl

-- The client does not take the shape of the seat.
hall_refused : (write_geometry env 9 generated_hall (wipe 9 event_db).1).0 ≡ err invalid_value
unfolding write_geometry transaction Generate.write_rows ◌>>=◌ Generate.create_sections wipe
    Sets.delete_seats Sets.delete_tables Sets.delete_sections Tables.new_id
    Generate.create_section_unless Tables.create_section_row Tables.keys_ok Generate.create_tables
    Tables.create_table_row Generate.geometry_rows or_raise
hall_refused = refl

auto_generate_layout-IsWiped_example :
    ((auto_generate_layout env hall 4 event_db).0 ≡ err invalid_value)
    × IsWiped 9 (auto_generate_layout env hall 4 event_db).1
auto_generate_layout-IsWiped_example =
    auto_generate_layout-IsWiped env hall 4 event_db generated_hall invalid_value hall_generated
      hall_refused

find_config-table_id_example :
    find_config (build_from_max_seats 1234) (split (table_id 24 1))
    ≡ config_at (build_from_max_seats 1234) 24 1
find_config-table_id_example = find_config-table_id (build_from_max_seats 1234) 24 1

generate-max_seats_example :
    (g : GeometryOutput) × (generate floats true (build_from_max_seats 61) ≡ some g)
    × (length g.seats ≡ 61)
generate-max_seats_example = generate-max_seats floats 61
