-- ===== src/Table/Write.antt =====
-- table/services/table-write.service.ts: createTable, updateTable and deleteTable.
use omnixys_seat_service.Base.{Bool, true, some, ◌==◌, if◌then◌else◌, or_else, or_default}
use omnixys_seat_service.Base.Int.{pos}
use omnixys_seat_service.Meta.{is_truthy, prepare_meta}
use omnixys_seat_service.AutoOrder.{next_order}
use omnixys_seat_service.Store.Rows.{
  Uuid, Table, round, CreateTableInput, UpdateTableInput, table_create, table_update, table_delete,
  created_table, updated_table, deleted,
}
use omnixys_seat_service.Store.Exec.{
  Entity, entity_not_found, Env, Exec, pure, gets, or_raise, ◌>>=◌, ◌>>◌,
}
use omnixys_seat_service.Store.Tables.{
  new_id, find_table, update_table_at, create_table_row, delete_table_row,
}
use omnixys_seat_service.Audit.{log_change}

-- createTable
unfoldable pub create_table : Env → CreateTableInput → Uuid → Exec Table
create_table e input actor = do
  auto_order ←
      gets (λ s. next_order (λ r. r.section_id == input.section_id) (λ r. r.order) s.tables)
  id ← new_id e
  created ← create_table_row (record {
    id = id;
    event_id = input.event_id;
    section_id = input.section_id;
    name = input.name;
    order = or_default input.order auto_order;
    capacity = input.capacity;
    shape = or_default input.shape round;
    x = or_default input.x (pos 0);
    y = or_default input.y (pos 0);
    width = input.width;
    height = input.height;
    rotation = some (or_default input.rotation (pos 0));
    meta = prepare_meta input.meta;
  })
  log_change e input.event_id actor table_create (created_table created)
  pure created

abbrev pub edit_table : UpdateTableInput → Table → Table
edit_table input s = record s {
  name = or_default input.name s.name;
  order = or_default input.order s.order;
  capacity = or_else input.capacity s.capacity;
  shape = or_default input.shape s.shape;
  x = or_default input.x s.x;
  y = or_default input.y s.y;
  width = or_else input.width s.width;
  height = or_else input.height s.height;
  rotation = or_else input.rotation s.rotation;
  meta = if is_truthy input.meta then prepare_meta input.meta else s.meta;
}

-- updateTable
unfoldable pub update_table : Env → UpdateTableInput → Uuid → Exec Table
update_table e input actor = do
  exists ← or_raise (← gets (find_table input.id)) (entity_not_found Entity.table input.id)
  updated ← update_table_at input.id (edit_table input)
  log_change e exists.event_id actor table_update (updated_table input)
  pure updated

-- deleteTable
unfoldable pub delete_table : Env → Uuid → Uuid → Exec Bool
delete_table e id actor = do
  exists ← or_raise (← gets (find_table id)) (entity_not_found Entity.table id)
  delete_table_row id
  log_change e exists.event_id actor table_delete (deleted id)
  pure true
