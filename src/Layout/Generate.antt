-- ===== src/Layout/Generate.antt =====
-- layout/services/layout-write.service.ts: writeGeometry, autoGenerate, autoGenerateFromMaxSeats and
-- autoGenerateSeatMap, and the handlers of handlers/event.handler.ts.
use Prim.Native.String.{◌++◌ as str_append}
use omnixys_seat_service.Base.{
  ℕ, Bool, true, String, str_eq, List, [], ◌∷◌, ◌++◌, Option, none, some, ◌==◌, find, select, any,
  if◌then◌else◌,
}
use omnixys_seat_service.Base.Int.{pos}
use omnixys_seat_service.Base.Text.{decimal}
use omnixys_seat_service.Meta.{str, obj, field, end}
use omnixys_seat_service.Audit.{log_change}
use omnixys_seat_service.Store.Rows.{
  Uuid, SeatStatus, SeatShape, TableShape, SectionShape, Seat, Section, Table,
  AutoGenerateLayoutInput, AutoGenerateSeatMapInput, auto_generate, generated,
}
use omnixys_seat_service.Store.Exec.{
  invalid_value, Env, Exec, pure, gets, or_raise, transaction, ◌>>=◌, ◌>>◌,
}
use omnixys_seat_service.Store.Tables.{new_id, sections_clash, create_section_row, create_table_row}
use omnixys_seat_service.Store.Sets.{
  delete_seats, delete_tables, delete_sections, create_many_seats,
}
use omnixys_seat_service.Geometry.Engine.{
  GeometrySection, GeometryTable, GeometrySeat, GeometryOutput, generate,
}
use omnixys_seat_service.Layout.Plan.{build_from_max_seats, seat_map_input}
use omnixys_seat_service.Layout.Versions.{save_layout_version}
use omnixys_seat_service.Layout.Edit.{delete_events}

abbrev pub has_name : String → Section → Bool
has_name name s = str_eq s.name name

abbrev pub section_of : Uuid → Uuid → GeometrySection → Section
section_of event id s = record {
  id = id;
  event_id = event;
  name = s.name;
  order = pos s.order;
  capacity = none;
  shape = SectionShape.rectangle;
  x = s.x;
  y = s.y;
  width = some s.width;
  height = some s.height;
  meta =
      obj
        (field "shape" (str s.shape) (field "facing" (str s.facing) (field "config" s.config end)));
}

-- `section.createMany` with `skipDuplicates`, of one row.
unfoldable pub create_section_unless : Section → Exec Unit
create_section_unless r = do
  rows ← gets (λ s. s.sections)
  if any (sections_clash r) rows then pure tt else (do created ← create_section_row r; pure tt)

-- 2. Sections whose names are not there yet.
unfoldable pub create_sections : Env → Uuid → List Section → List GeometrySection → Exec Unit
create_sections e event existing [] = pure tt
create_sections e event existing (s ∷ rest) =
    if any (has_name s.name) existing then create_sections e event existing rest else (do
      id ← new_id e
      create_section_unless (section_of event id s)
      create_sections e event existing rest)

-- A map from the ids of the generator to rows; what is set later hides what was set before.
abbrev pub Found : Type 0 → Type 0
Found A = List (String × A)

abbrev pub get_row : {A : Type 0} → String → Found A → Option A
get_row key [] = none
get_row key ((k, a) ∷ rest) = if str_eq k key then some a else get_row key rest

abbrev pub set_row : {A : Type 0} → String → Option A → Found A → Found A
set_row key none found = found
set_row key (some a) found = (key, a) ∷ found

-- 3. and 5. The rows by the generator's ids, found by their names.
abbrev pub sections_by_id : List Section → List GeometrySection → Found Section → Found Section
sections_by_id rows [] found = found
sections_by_id rows (s ∷ rest) found =
    sections_by_id rows rest (set_row s.id (find (has_name s.name) rows) found)

abbrev pub tables_by_id : List Table → List GeometryTable → Found Table → Found Table
tables_by_id rows [] found = found
tables_by_id rows (t ∷ rest) found =
    tables_by_id rows rest (set_row t.id (find (λ r. str_eq r.name t.name) rows) found)

abbrev pub table_of : Uuid → Uuid → Uuid → GeometryTable → Table
table_of event id section t = record {
  id = id;
  event_id = event;
  section_id = section;
  name = t.name;
  order = pos t.order;
  capacity = some (pos t.capacity);
  shape = TableShape.round;
  x = t.x;
  y = t.y;
  width = none;
  height = none;
  rotation = some (pos 0);
  meta =
      obj
        (field "shape" (str t.shape) (field "config" t.config (field "facing" (str t.facing) end)));
}

-- 4. A table whose section was not found is passed over.
abbrev pub create_table_in : Env → Uuid → GeometryTable → Option Section → Exec Unit
create_table_in e event t none = pure tt
create_table_in e event t (some s) = do
  id ← new_id e
  created ← create_table_row (table_of event id s.id t)
  pure tt

unfoldable pub create_tables : Env → Uuid → Found Section → List GeometryTable → Exec Unit
create_tables e event sections [] = pure tt
create_tables e event sections (t ∷ rest) = do
  create_table_in e event t (get_row t.section_id sections)
  create_tables e event sections rest

-- toSeatStatus
abbrev pub to_seat_status : String → SeatStatus
to_seat_status text =
    if str_eq text "RESERVED"
    then SeatStatus.reserved
    else if str_eq text "ASSIGNED"
    then SeatStatus.assigned
    else if str_eq text "BLOCKED"
    then SeatStatus.blocked
    else SeatStatus.available

-- The values of the column's type; the client takes no other.
abbrev pub seat_shape : String → Option SeatShape
seat_shape text =
    if str_eq text "CIRCLE"
    then some SeatShape.circle
    else if str_eq text "SQUARE"
    then some SeatShape.square
    else if str_eq text "RECTANGLE"
    then some SeatShape.rectangle
    else none

abbrev pub section_name : Option Section → String
section_name none = ""
section_name (some s) = s.name

-- The section of the table that a seat was made for.
abbrev pub source_section : Found Section → Option GeometryTable → Option Section
source_section sections none = none
source_section sections (some t) = get_row t.section_id sections

abbrev pub seat_label : Option Section → Table → ℕ → String
seat_label section t number =
    str_append (section_name section)
      (str_append " • " (str_append t.name (str_append " • Seat " (decimal number))))

abbrev pub seat_of : Env → Uuid → Uuid → Option Section → Table → SeatShape → GeometrySeat → Seat
seat_of e event id section t shape s = record {
  id = id;
  status = to_seat_status s.status;
  event_id = event;
  section_id = t.section_id;
  table_id = some t.id;
  number = some (pos s.number);
  label = some (seat_label section t s.number);
  note = none;
  seat_type = some s.seat_type;
  shape = shape;
  x = some s.x;
  y = some s.y;
  rotation = some s.rotation;
  guest_id = none;
  invitation_id = none;
  meta = obj (field "shape" (str s.seat_shape) end);
  created_at = e.now;
}

-- 6. The rows of the seats; a seat whose table was not found is left out.
abbrev pub geometry_row :
    Env → Uuid → Option Section → GeometrySeat → Option Table → Exec (List Seat)
geometry_row e event section s none = pure []
geometry_row e event section s (some t) = do
  shape ← or_raise (seat_shape s.seat_shape) invalid_value
  id ← new_id e
  pure (seat_of e event id section t shape s ∷ [])

unfoldable pub geometry_rows :
    Env → Uuid → GeometryOutput → Found Section → Found Table → List GeometrySeat → Exec (List Seat)
geometry_rows e event g sections tables [] = pure []
geometry_rows e event g sections tables (s ∷ rest) = do
  let section = source_section sections (find (λ r. str_eq r.id s.table_id) g.tables)
  row ← geometry_row e event section s (get_row s.table_id tables)
  more ← geometry_rows e event g sections tables rest
  pure (row ++ more)

-- The body of writeGeometry's transaction.
unfoldable pub write_rows : Env → Uuid → GeometryOutput → Exec Unit
write_rows e event g = do
  existing ← gets (λ s. select (λ r. r.event_id == event) s.sections)
  create_sections e event existing g.sections
  rows ← gets (λ s. select (λ r. r.event_id == event) s.sections)
  let sections = sections_by_id rows g.sections []
  create_tables e event sections g.tables
  all ← gets (λ s. select (λ r. r.event_id == event) s.tables)
  seats ← geometry_rows e event g sections (tables_by_id all g.tables []) g.seats
  create_many_seats seats

-- writeGeometry
unfoldable pub write_geometry : Env → Uuid → GeometryOutput → Exec Unit
write_geometry e event g = transaction (write_rows e event g)

-- The three `deleteMany` of autoGenerate, each by itself.
unfoldable pub wipe : Uuid → Exec Unit
wipe event = do
  delete_seats (λ r. r.event_id == event)
  delete_tables (λ r. r.event_id == event)
  delete_sections (λ r. r.event_id == event)

-- autoGenerate
unfoldable pub auto_generate_layout : Env → AutoGenerateLayoutInput → Uuid → Exec Bool
auto_generate_layout e input actor = do
  wipe input.event_id
  geometry ← or_raise (generate e.floats input.adaptive_radius input.sections) invalid_value
  write_geometry e input.event_id geometry
  log_change e input.event_id actor auto_generate (generated input)
  saved ←
      save_layout_version e
        (record { event_id = input.event_id; version = e.now; label = some "AutoLayout" }) actor
  pure true

-- autoGenerateFromMaxSeats
unfoldable pub auto_generate_from_max_seats : Env → Uuid → ℕ → Uuid → Exec Bool
auto_generate_from_max_seats e event max_seats actor =
    auto_generate_layout e
      (record {
        event_id = event;
        sections = build_from_max_seats max_seats;
        adaptive_radius = true;
      })
      actor

-- autoGenerateSeatMap
unfoldable pub auto_generate_seat_map : Env → AutoGenerateSeatMapInput → Uuid → Exec Bool
auto_generate_seat_map e input actor = auto_generate_layout e (seat_map_input input) actor

-- handleCreateSeat and handleDeleteSeat, which throw what the service throws
unfoldable pub handle_create_seat : Env → Uuid → ℕ → Uuid → Exec Unit
handle_create_seat e event max_seats actor = do
  done ← auto_generate_from_max_seats e event max_seats actor
  pure tt

unfoldable pub handle_delete_seat : List Uuid → Exec Unit
handle_delete_seat events = delete_events events
