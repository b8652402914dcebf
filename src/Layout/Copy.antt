-- ===== src/Layout/Copy.antt =====
-- layout/services/layout-write.service.ts: duplicateTable and cloneSection.
use Prim.Native.String.{◌++◌ as str_append}
use omnixys_seat_service.Base.{
  Option, none, some, String, List, [], ◌∷◌, ◌==◌, select, map, holds, or_default,
}
use omnixys_seat_service.Base.Int.{ℤ, pos}
use omnixys_seat_service.Meta.{prepare_meta}
use omnixys_seat_service.AutoOrder.{next_order}
use omnixys_seat_service.Store.Rows.{
  Uuid, SeatShape, TableShape, SectionShape, Seat, Section, Table, DuplicateTableInput,
  CloneSectionInput, table_duplicated, section_cloned, copied, Db,
}
use omnixys_seat_service.Store.Exec.{
  Entity, entity_not_found, Env, Exec, pure, gets, or_raise, ◌>>=◌, ◌>>◌,
}
use omnixys_seat_service.Store.Tables.{
  new_id, find_section, find_table, create_section_row, create_table_row,
}
use omnixys_seat_service.Store.Sets.{create_many_seats}
use omnixys_seat_service.Audit.{log_change}
use omnixys_seat_service.Layout.Versions.{save_layout_version}

-- `${name}_copy`
abbrev pub copy_name : String → String
copy_name name = str_append name "_copy"

-- A copy takes the status of the seat, but neither its holder nor its shape.
abbrev pub copied_seat : Env → Uuid → Uuid → Uuid → ℤ → ℤ → Seat → Seat
copied_seat e id section table dx dy s = record {
  id = id;
  status = s.status;
  event_id = s.event_id;
  section_id = section;
  table_id = some table;
  number = s.number;
  label = s.label;
  note = none;
  seat_type = s.seat_type;
  shape = SeatShape.circle;
  x = some (e.floats.add (or_default s.x (pos 0)) dx);
  y = some (e.floats.add (or_default s.y (pos 0)) dy);
  rotation = s.rotation;
  guest_id = none;
  invitation_id = none;
  meta = prepare_meta s.meta;
  created_at = e.now;
}

-- The rows of the copies, in the section that is given or in that of each seat.
unfoldable pub copy_rows : Env → Option Uuid → Uuid → ℤ → ℤ → List Seat → Exec (List Seat)
copy_rows e section table dx dy [] = pure []
copy_rows e section table dx dy (s ∷ rest) = do
  id ← new_id e
  more ← copy_rows e section table dx dy rest
  pure (copied_seat e id (or_default section s.section_id) table dx dy s ∷ more)

abbrev pub copied_table : Env → Uuid → Uuid → Uuid → ℤ → ℤ → ℤ → Table → Table
copied_table e id event section order dx dy t = record {
  id = id;
  event_id = event;
  section_id = section;
  name = copy_name t.name;
  order = order;
  capacity = t.capacity;
  shape = TableShape.round;
  x = e.floats.add t.x dx;
  y = e.floats.add t.y dy;
  width = none;
  height = none;
  rotation = some (pos 0);
  meta = prepare_meta t.meta;
}

abbrev pub seats_of : Uuid → Db → List Seat
seats_of table s = select (λ r. holds r.table_id table) s.seats

-- duplicateTable
unfoldable pub duplicate_table : Env → DuplicateTableInput → Uuid → Exec Table
duplicate_table e input actor = do
  table ←
      or_raise (← gets (find_table input.table_id)) (entity_not_found Entity.table input.table_id)
  seats ← gets (seats_of table.id)
  auto_order ←
      gets (λ s. next_order (λ r. r.section_id == table.section_id) (λ r. r.order) s.tables)
  id ← new_id e
  clone ← create_table_row (
      copied_table e id table.event_id table.section_id (or_default (some table.order) auto_order)
        input.offset_x input.offset_y table)
  rows ← copy_rows e none clone.id input.offset_x input.offset_y seats
  create_many_seats rows
  log_change e table.event_id actor table_duplicated (copied table.id clone.id)
  saved ←
      save_layout_version e
        (record { event_id = table.event_id; version = e.now; label = some "DuplicateTable" }) actor
  pure clone

abbrev pub copied_section : Env → Uuid → ℤ → ℤ → ℤ → Section → Section
copied_section e id order dx dy s = record {
  id = id;
  event_id = s.event_id;
  name = copy_name s.name;
  order = order;
  capacity = none;
  shape = SectionShape.rectangle;
  x = e.floats.add s.x dx;
  y = e.floats.add s.y dy;
  width = none;
  height = none;
  meta = prepare_meta s.meta;
}

-- `include: { tables: { include: { seats: true } } }`
abbrev pub tables_of : Uuid → Db → List (Table × List Seat)
tables_of section s =
    map (λ t. (t, seats_of t.id s)) (select (λ t. t.section_id == section) s.tables)

unfoldable pub copy_tables :
    Env → CloneSectionInput → Uuid → Uuid → List (Table × List Seat) → Exec Unit
copy_tables e input event section [] = pure tt
copy_tables e input event section ((t, seats) ∷ rest) = do
  id ← new_id e
  clone ← create_table_row (copied_table e id event section t.order input.offset_x input.offset_y t)
  rows ← copy_rows e (some section) clone.id input.offset_x input.offset_y seats
  create_many_seats rows
  copy_tables e input event section rest

-- cloneSection
unfoldable pub clone_section : Env → CloneSectionInput → Uuid → Exec Section
clone_section e input actor = do
  section ←
      or_raise (← gets (find_section input.section_id))
        (entity_not_found Entity.section input.section_id)
  tables ← gets (tables_of section.id)
  auto_order ←
      gets (λ s. next_order (λ r. r.event_id == section.event_id) (λ r. r.order) s.sections)
  id ← new_id e
  clone ← create_section_row (
      copied_section e id (or_default (some section.order) auto_order) input.offset_x input.offset_y
        section)
  copy_tables e input section.event_id clone.id tables
  log_change e section.event_id actor section_cloned (copied section.id clone.id)
  saved ←
      save_layout_version e
        (record { event_id = section.event_id; version = e.now; label = some "CloneSection" }) actor
  pure clone
