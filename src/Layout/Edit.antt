-- ===== src/Layout/Edit.antt =====
-- layout/services/layout-write.service.ts: moveSeat, moveSection, moveTable and deleteSeats.
use omnixys_seat_service.Base.{Bool, not, some, List, [], ◌∷◌, ◌==◌, any, select, or_else}
use omnixys_seat_service.Store.Rows.{
  Uuid, Seat, Section, Table, MoveSeatInput, MoveSectionInput, MoveTableInput, LayoutChangeType,
  seat_moved, section_moved, table_moved, moved_seat, moved_section, moved_table, difference,
  CurrentLayout, Db,
}
use omnixys_seat_service.Store.Exec.{
  Entity, entity_not_found, seat_not_found, Env, Exec, pure, gets, modify, or_raise, transaction,
  ◌>>=◌, ◌>>◌,
}
use omnixys_seat_service.Store.Tables.{
  find_seat, find_section, find_table, update_seat_at, update_section_at, update_table_at,
}
use omnixys_seat_service.Store.Sets.{delete_seats, delete_tables, delete_sections}
use omnixys_seat_service.Audit.{log_change}

-- loadCurrentLayout
abbrev pub load_current : Uuid → Db → CurrentLayout
load_current event s = record {
  sections = select (λ r. r.event_id == event) s.sections;
  tables = select (λ r. r.event_id == event) s.tables;
  seats = select (λ r. r.event_id == event) s.seats;
}

-- logDiff
unfoldable pub log_diff :
    Env → Uuid → Uuid → LayoutChangeType → CurrentLayout → CurrentLayout → Exec Unit
log_diff e event actor change before after =
    log_change e event actor change (difference (e.compare before after))

abbrev pub place_seat : MoveSeatInput → Seat → Seat → Seat
place_seat input seat s = record s {
  x = some input.x;
  y = some input.y;
  rotation = or_else input.rotation seat.rotation;
}

-- moveSeat
unfoldable pub move_seat : Env → MoveSeatInput → Uuid → Exec Seat
move_seat e input actor = do
  seat ← or_raise (← gets (find_seat input.id)) (seat_not_found input.id)
  before ← gets (load_current seat.event_id)
  updated ← update_seat_at input.id (place_seat input seat)
  log_change e seat.event_id actor seat_moved (moved_seat input)
  after ← gets (load_current seat.event_id)
  log_diff e seat.event_id actor seat_moved before after
  pure updated

abbrev pub place_section : MoveSectionInput → Section → Section
place_section input s = record s { x = input.x; y = input.y }

-- moveSection
unfoldable pub move_section : Env → MoveSectionInput → Uuid → Exec Section
move_section e input actor = do
  section ← or_raise (← gets (find_section input.id)) (entity_not_found Entity.section input.id)
  before ← gets (load_current section.event_id)
  updated ← update_section_at input.id (place_section input)
  log_change e section.event_id actor section_moved (moved_section input)
  after ← gets (load_current section.event_id)
  log_diff e section.event_id actor section_moved before after
  pure updated

abbrev pub place_table : MoveTableInput → Table → Table
place_table input s = record s { x = input.x; y = input.y }

-- moveTable
unfoldable pub move_table : Env → MoveTableInput → Uuid → Exec Table
move_table e input actor = do
  table ← or_raise (← gets (find_table input.id)) (entity_not_found Entity.table input.id)
  before ← gets (load_current table.event_id)
  updated ← update_table_at input.id (place_table input)
  log_change e table.event_id actor table_moved (moved_table input)
  after ← gets (load_current table.event_id)
  log_diff e table.event_id actor table_moved before after
  pure updated

abbrev pub is_in : List Uuid → Uuid → Bool
is_in events event = any (λ id. id == event) events

unfoldable pub delete_logs : List Uuid → Exec Unit
delete_logs events = modify λ s. record s {
  change_logs = select (λ r. not (is_in events r.event_id)) s.change_logs;
  layout_versions = select (λ r. not (is_in events r.event_id)) s.layout_versions;
}

unfoldable pub delete_assignment_logs : List Uuid → Exec Unit
delete_assignment_logs events = modify λ s. record s {
  assignment_logs = select (λ r. not (is_in events r.event_id)) s.assignment_logs;
}

-- deleteSeats
unfoldable pub delete_events : List Uuid → Exec Unit
unfolding delete_logs delete_assignment_logs
delete_events [] = pure tt
delete_events (event ∷ events) = transaction do
  delete_assignment_logs (event ∷ events)
  delete_seats (λ r. is_in (event ∷ events) r.event_id)
  delete_tables (λ r. is_in (event ∷ events) r.event_id)
  delete_sections (λ r. is_in (event ∷ events) r.event_id)
  delete_logs (event ∷ events)
