-- ===== src/Layout/Versions.antt =====
-- layout/services/layout-write.service.ts: saveLayoutVersion, undo, redo and restoreVersion, with
-- layout/utils/snapshot-serializer.ts.
use omnixys_seat_service.Base.{
  Bool, true, false, ◌&&◌, Option, none, some, List, [], ◌∷◌, ◌++◌, ◌==◌, ltb, if◌then◌else◌,
  or_default, select, map,
}
use omnixys_seat_service.Base.Int.{pos}
use omnixys_seat_service.Meta.{or_empty}
use omnixys_seat_service.Store.Rows.{
  Uuid, SeatType, SeatShape, TableShape, SectionShape, Seat, Section, Table, SectionSnapshot,
  TableSnapshot, SeatSnapshot, LayoutSnapshot, LayoutVersion, SaveLayoutVersionInput,
  layout_version_saved, saved_version, Db,
}
use omnixys_seat_service.Store.Exec.{Env, Exec, pure, gets, transaction, ◌>>=◌, ◌>>◌}
use omnixys_seat_service.Store.Tables.{new_id, create_section_row, create_table_row}
use omnixys_seat_service.Store.Sets.{
  delete_seats, delete_tables, delete_sections, create_many_seats, create_version_row, find_highest,
  find_lowest,
}
use omnixys_seat_service.Audit.{log_change}

abbrev pub section_snapshot : Section → SectionSnapshot
section_snapshot s = record {
  id = s.id;
  name = s.name;
  order = s.order;
  x = s.x;
  y = s.y;
  width = s.width;
  height = s.height;
  meta = or_empty (some s.meta);
}

abbrev pub table_snapshot : Table → TableSnapshot
table_snapshot t = record {
  id = t.id;
  section_id = t.section_id;
  name = t.name;
  order = t.order;
  x = t.x;
  y = t.y;
  capacity = t.capacity;
  meta = or_empty (some t.meta);
}

abbrev pub seat_snapshot : Seat → SeatSnapshot
seat_snapshot s = record {
  id = s.id;
  table_id = s.table_id;
  section_id = s.section_id;
  number = or_default s.number (pos 0);
  label = s.label;
  x = or_default s.x (pos 0);
  y = or_default s.y (pos 0);
  rotation = or_default s.rotation (pos 0);
  seat_type = s.seat_type;
  status = s.status;
  meta = or_empty (some s.meta);
}

-- serializeCurrentLayout
abbrev pub serialize : Uuid → Db → LayoutSnapshot
serialize event s = record {
  sections = map section_snapshot (select (λ r. r.event_id == event) s.sections);
  tables = map table_snapshot (select (λ r. r.event_id == event) s.tables);
  seats = map seat_snapshot (select (λ r. r.event_id == event) s.seats);
}

-- saveLayoutVersion
unfoldable pub save_layout_version : Env → SaveLayoutVersionInput → Uuid → Exec LayoutVersion
save_layout_version e input actor = do
  snapshot ← gets (serialize input.event_id)
  id ← new_id e
  created ← create_version_row (record {
    id = id;
    event_id = input.event_id;
    version = input.version;
    label = input.label;
    snapshot = snapshot;
    created_at = e.now;
  })
  log_change e input.event_id actor layout_version_saved (saved_version created.version created.id)
  pure created

-- normalizeSnapshot. A seat's type is looked for among the values of `SeatStatus`.
abbrev pub status_value : SeatType → Option SeatType
status_value SeatType.reserved = some SeatType.reserved
status_value _ = none

abbrev pub normal_type : Option SeatType → Option SeatType
normal_type none = none
normal_type (some t) = status_value t

abbrev pub normal_section : SectionSnapshot → SectionSnapshot
normal_section s = record s { meta = or_empty (some s.meta) }

abbrev pub normal_table : TableSnapshot → TableSnapshot
normal_table t = record t { meta = or_empty (some t.meta) }

-- A seat without a table gets the id of none: `createId` makes one that no table has.
abbrev pub normal_seat : SeatSnapshot → SeatSnapshot
normal_seat s = record s { seat_type = normal_type s.seat_type; meta = or_empty (some s.meta) }

abbrev pub normalize : LayoutSnapshot → LayoutSnapshot
normalize raw = record {
  sections = map normal_section raw.sections;
  tables = map normal_table raw.tables;
  seats = map normal_seat raw.seats;
}

-- The maps from the ids of a snapshot to those of the new rows: the latest entry comes first.
abbrev pub Ids : Type 0
Ids = List (Uuid × Uuid)

abbrev pub get_id : Ids → Uuid → Option Uuid
get_id [] k = none
get_id (p ∷ ps) k = if p.0 == k then some p.1 else get_id ps k

abbrev pub get_id? : Ids → Option Uuid → Option Uuid
get_id? ids none = none
get_id? ids (some k) = get_id ids k

abbrev pub restored_section : Uuid → Uuid → SectionSnapshot → Section
restored_section event id s = record {
  id = id;
  event_id = event;
  name = s.name;
  order = s.order;
  capacity = none;
  shape = SectionShape.rectangle;
  x = s.x;
  y = s.y;
  width = s.width;
  height = s.height;
  meta = or_empty (some s.meta);
}

unfoldable pub restore_sections : Env → Uuid → Ids → List SectionSnapshot → Exec Ids
restore_sections e event ids [] = pure ids
restore_sections e event ids (s ∷ rest) = do
  id ← new_id e
  created ← create_section_row (restored_section event id s)
  restore_sections e event ((s.id, created.id) ∷ ids) rest

abbrev pub restored_table : Uuid → Uuid → Uuid → TableSnapshot → Table
restored_table event id section t = record {
  id = id;
  event_id = event;
  section_id = section;
  name = t.name;
  order = t.order;
  capacity = t.capacity;
  shape = TableShape.round;
  x = t.x;
  y = t.y;
  width = none;
  height = none;
  rotation = some (pos 0);
  meta = or_empty (some t.meta);
}

-- A table whose section was not restored is passed over.
abbrev pub restore_table : Env → Uuid → Ids → TableSnapshot → Option Uuid → Exec Ids
restore_table e event ids t none = pure ids
restore_table e event ids t (some section) = do
  id ← new_id e
  created ← create_table_row (restored_table event id section t)
  pure ((t.id, created.id) ∷ ids)

unfoldable pub restore_tables : Env → Uuid → Ids → Ids → List TableSnapshot → Exec Ids
restore_tables e event sections ids [] = pure ids
restore_tables e event sections ids (t ∷ rest) = do
  next ← restore_table e event ids t (get_id sections t.section_id)
  restore_tables e event sections next rest

abbrev pub restored_seat : Env → Uuid → Uuid → Uuid → Uuid → SeatSnapshot → Seat
restored_seat e event id section table s = record {
  id = id;
  status = s.status;
  event_id = event;
  section_id = section;
  table_id = some table;
  number = some s.number;
  label = s.label;
  note = none;
  seat_type = some (or_default s.seat_type SeatType.standard);
  shape = SeatShape.circle;
  x = some s.x;
  y = some s.y;
  rotation = some s.rotation;
  guest_id = none;
  invitation_id = none;
  meta = or_empty (some s.meta);
  created_at = e.now;
}

-- A seat whose section or table was not restored is left out.
abbrev pub seat_row : Env → Uuid → Uuid → Option Uuid → Option Uuid → SeatSnapshot → List Seat
seat_row e event id none table s = []
seat_row e event id (some section) none s = []
seat_row e event id (some section) (some table) s = restored_seat e event id section table s ∷ []

unfoldable pub seat_rows : Env → Uuid → Ids → Ids → List SeatSnapshot → Exec (List Seat)
seat_rows e event sections tables [] = pure []
seat_rows e event sections tables (s ∷ rest) = do
  id ← new_id e
  more ← seat_rows e event sections tables rest
  pure (seat_row e event id (get_id sections s.section_id) (get_id? tables s.table_id) s ++ more)

-- The body of restoreVersion's transaction.
unfoldable pub rebuild : Env → Uuid → LayoutSnapshot → Exec Unit
rebuild e event snapshot = do
  delete_seats (λ r. r.event_id == event)
  delete_tables (λ r. r.event_id == event)
  delete_sections (λ r. r.event_id == event)
  sections ← restore_sections e event [] snapshot.sections
  tables ← restore_tables e event sections [] snapshot.tables
  rows ← seat_rows e event sections tables snapshot.seats
  create_many_seats rows

-- restoreVersion
unfoldable pub restore_version : Env → Uuid → LayoutVersion → Exec Unit
restore_version e event version = transaction (rebuild e event (normalize version.snapshot))

abbrev pub restore_found : Env → Uuid → Option LayoutVersion → Exec Bool
restore_found e event none = pure false
restore_found e event (some version) = do restore_version e event version; pure true

-- loadLatestVersion
abbrev pub load_latest : Uuid → Db → Option LayoutVersion
load_latest event s = find_highest (λ v. v.event_id == event) s.layout_versions

abbrev pub undo_from : Env → Uuid → Option LayoutVersion → Exec Bool
undo_from e event none = pure false
undo_from e event (some latest) = do
  previous ← gets (λ s.
      find_highest (λ v. v.event_id == event && ltb v.version latest.version) s.layout_versions)
  restore_found e event previous

-- undo
unfoldable pub undo : Env → Uuid → Exec Bool
undo e event = do latest ← gets (load_latest event); undo_from e event latest

abbrev pub redo_from : Env → Uuid → Option LayoutVersion → Exec Bool
redo_from e event none = pure false
redo_from e event (some latest) = do
  next ← gets (λ s.
      find_lowest (λ v. v.event_id == event && ltb latest.version v.version) s.layout_versions)
  restore_found e event next

-- redo
unfoldable pub redo : Env → Uuid → Exec Bool
redo e event = do latest ← gets (load_latest event); redo_from e event latest
