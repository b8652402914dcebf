-- ===== src/Tests/Layouts.antt =====
-- The theorems on layouts at the sample event.
use omnixys_seat_service.Base.{
  ℕ, ◌+◌, ◌<◌, ◌≤◌, ◌≡◌, ◌==◌, refl, true, false, none, [], ◌∷◌, arith, select,
}
use omnixys_seat_service.Store.Rows.{
  TableShape, SectionShape, LayoutVersion, AutoGenerateSeatMapInput, Db,
}
use omnixys_seat_service.Store.Exec.{ok, ◌>>=◌, transaction}
use omnixys_seat_service.Store.Tables.{
  create_seat_row, keys_ok, new_id, create_section_row, create_table_row,
}
use omnixys_seat_service.Store.Sets
use omnixys_seat_service.Layout.Plan.{build_from_max_seats, seat_map_input}
use omnixys_seat_service.Layout.Plan.Totals.{
  seats_in, tables_in, IsPlan, build_from_max_seats-IsPlan, seat_map_input-seats,
}
use omnixys_seat_service.Layout.Versions.{
  undo, redo, restore_found, serialize, restore_version, rebuild, restore_sections, restore_tables,
  seat_rows,
}
use omnixys_seat_service.Layout.Edit.{delete_events}
use omnixys_seat_service.Layout.History.{IsUndone, redo-nothing, undo_twice}
use omnixys_seat_service.Layout.Holders.{Emptied, undo-Emptied}
use omnixys_seat_service.Layout.Cleared.{IsCleared, delete_events-IsCleared}
use omnixys_seat_service.Tests.Data.{env, event_db}

build_from_max_seats-IsPlan_example :
    (seats_in (build_from_max_seats 123) ≡ 123) × IsPlan 1 1 (build_from_max_seats 123)
build_from_max_seats-IsPlan_example = build_from_max_seats-IsPlan 123

abbrev hall : AutoGenerateSeatMapInput
hall = record {
  event_id = 9;
  section_name = "Hall";
  seat_count = 11;
  table_count = 5;
  table_shape = TableShape.round;
  section_layout = SectionShape.circle;
}

five_tables : 0 < hall.table_count
five_tables = omega arith

seat_map_input-seats_example :
    (tables_in (seat_map_input hall).sections ≡ 5)
    × (11 ≤ seats_in (seat_map_input hall).sections)
    × (seats_in (seat_map_input hall).sections < 11 + 5)
seat_map_input-seats_example = seat_map_input-seats hall five_tables

abbrev version : ℕ → LayoutVersion
version n = record {
  id = n;
  event_id = 9;
  version = n;
  label = none;
  snapshot = serialize 9 event_db;
  created_at = n;
}

abbrev saved_db : Db
saved_db = record event_db { layout_versions = version 1 ∷ version 2 ∷ [] }

redo-nothing_example : redo env 9 saved_db ≡ (ok false, saved_db)
redo-nothing_example = redo-nothing env 9 saved_db

undo_twice_example :
    let db' = (undo env 9 saved_db).1 in
    (v : _) × IsUndone 9 saved_db.layout_versions v
    × (undo env 9 saved_db ≡ restore_found env 9 v saved_db)
    × (db'.layout_versions ≡ saved_db.layout_versions)
    × (undo env 9 db' ≡ restore_found env 9 v db')
undo_twice_example = undo_twice env env 9 saved_db

delete_events-IsCleared_example :
    ((delete_events (9 ∷ []) saved_db).0 ≡ ok tt)
    × IsCleared (9 ∷ []) (delete_events (9 ∷ []) saved_db).1
    × (select (λ r. r.event_id == 8) (delete_events (9 ∷ []) saved_db).1.change_logs
        ≡ select (λ r. r.event_id == 8) saved_db.change_logs)
    × (select (λ r. r.event_id == 8) (delete_events (9 ∷ []) saved_db).1.layout_versions
        ≡ select (λ r. r.event_id == 8) saved_db.layout_versions)
    × (select (λ r. r.event_id == 8) (delete_events (9 ∷ []) saved_db).1.assignment_logs
        ≡ select (λ r. r.event_id == 8) saved_db.assignment_logs)
delete_events-IsCleared_example = delete_events-IsCleared 9 8 [] saved_db refl

undone : undo env 9 saved_db ≡ (ok true, (undo env 9 saved_db).1)
unfolding undo restore_version transaction ◌>>=◌ Sets.find_highest rebuild Sets.delete_seats
    Sets.delete_tables Sets.delete_sections restore_sections new_id create_section_row keys_ok
    restore_tables create_table_row seat_rows Sets.create_many_seats create_seat_row
undone = refl

undo-Emptied_example : Emptied 9 (undo env 9 saved_db).1
undo-Emptied_example = undo-Emptied env 9 saved_db (undo env 9 saved_db).1 undone
