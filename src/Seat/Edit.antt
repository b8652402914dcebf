-- ===== src/Seat/Edit.antt =====
-- seat/services/seat-write.service.ts: createSeat, updateSeat and deleteSeat.
use omnixys_seat_service.Base.{Bool, true, none, if◌then◌else◌, or_else}
use omnixys_seat_service.Meta.{is_truthy, prepare_meta}
use omnixys_seat_service.Store.Rows.{
  Uuid, available, circle, Seat, CreateSeatInput, UpdateSeatInput, seat_create, seat_update,
  seat_delete, created_seat, updated_seat, deleted,
}
use omnixys_seat_service.Store.Exec.{seat_not_found, Env, Exec, pure, gets, or_raise, ◌>>=◌, ◌>>◌}
use omnixys_seat_service.Store.Tables.{
  new_id, find_seat, update_seat_at, create_seat_row, delete_seat_row,
}
use omnixys_seat_service.Audit.{log_change}

-- createSeat; the status and the shape are the defaults of the table.
unfoldable pub create_seat : Env → CreateSeatInput → Uuid → Exec Seat
create_seat e input actor = do
  id ← new_id e
  created ← create_seat_row (record {
    id = id;
    status = available;
    event_id = input.event_id;
    section_id = input.section_id;
    table_id = input.table_id;
    number = input.number;
    label = input.label;
    note = input.note;
    seat_type = input.seat_type;
    shape = circle;
    x = input.x;
    y = input.y;
    rotation = input.rotation;
    guest_id = none;
    invitation_id = none;
    meta = prepare_meta input.meta;
    created_at = e.now;
  })
  log_change e input.event_id actor seat_create (created_seat created)
  pure created

-- updateSeat
abbrev pub edit_seat : UpdateSeatInput → Seat → Seat
edit_seat input s = record s {
  label = or_else input.label s.label;
  note = or_else input.note s.note;
  number = or_else input.number s.number;
  seat_type = or_else input.seat_type s.seat_type;
  x = or_else input.x s.x;
  y = or_else input.y s.y;
  rotation = or_else input.rotation s.rotation;
  meta = if is_truthy input.meta then prepare_meta input.meta else s.meta;
}

unfoldable pub update_seat : Env → UpdateSeatInput → Uuid → Exec Seat
update_seat e input actor = do
  exists ← or_raise (← gets (find_seat input.id)) (seat_not_found input.id)
  updated ← update_seat_at input.id (edit_seat input)
  log_change e exists.event_id actor seat_update (updated_seat input)
  pure updated

-- deleteSeat
unfoldable pub delete_seat : Env → Uuid → Uuid → Exec Bool
delete_seat e seat_id actor = do
  exists ← or_raise (← gets (find_seat seat_id)) (seat_not_found seat_id)
  delete_seat_row seat_id
  log_change e exists.event_id actor seat_delete (deleted seat_id)
  pure true
