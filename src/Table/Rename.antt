-- ===== src/Table/Rename.antt =====
-- table/services/table-write.service.ts: renameTable and bulkRenameTables.
use omnixys_seat_service.Base.{
  ℕ, ◌+◌, Bool, true, not, ◌&&◌, String, List, [], ◌∷◌, ◌++◌, Option, none, some, str_eq, ◌==◌,
  if◌then◌else◌, find, holds, is_some, count_if,
}
use omnixys_seat_service.Section.Rename.{RenamePayload, RenameConflict, same_name}
use omnixys_seat_service.Store.Rows.{Uuid, Table, RenameTableInput, table_rename, renamed}
use omnixys_seat_service.Store.Exec.{
  Entity, entity_not_found, seating_conflict, Env, Exec, pure, raise, gets, or_raise, ◌>>=◌, ◌>>◌,
  when,
}
use omnixys_seat_service.Store.Tables.{find_table, update_table_at}
use omnixys_seat_service.Audit.{log_change}

abbrev pub set_name : String → Table → Table
set_name name s = record s { name = name }

-- What is done once the names differ.
unfoldable pub rename_row : Env → Table → String → Uuid → Exec RenamePayload
rename_row e exists new_name actor = do
  updated ← update_table_at exists.id (set_name new_name)
  affected ←
      gets
        (λ s. count_if (λ r. r.event_id == exists.event_id && holds r.table_id updated.id) s.seats)
  log_change e exists.event_id actor table_rename (renamed exists.name new_name updated.id)
  pure (record { success = true; affected_seats = affected })

-- renameTable
unfoldable pub rename_table : Env → RenameTableInput → Uuid → Exec RenamePayload
rename_table e input actor = do
  exists ←
      or_raise (← gets (find_table input.table_id)) (entity_not_found Entity.table input.table_id)
  conflict ←
      gets (λ s. find (λ r. r.event_id == exists.event_id && str_eq r.name input.new_name) s.tables)
  when (is_some conflict) (raise (seating_conflict Entity.table input.new_name))
  if same_name exists.name input.new_name
      then pure (record { success = true; affected_seats = 0 })
      else rename_row e exists input.new_name actor

pub record BulkTables : Type 0 where
  pub affected_tables : ℕ
  pub affected_seats : ℕ
  pub conflicts : List RenameConflict

-- Another table of the section has the name.
abbrev pub is_taken : Table → String → Table → Bool
is_taken table name r =
    r.section_id == table.section_id && (str_eq r.name name && not (r.id == table.id))

-- The body of the loop, for a table that is there. Its seats are counted when it is read.
unfoldable pub rename_found :
    Env → Uuid → String → BulkTables → Table → ℕ → Option Table → Exec BulkTables
rename_found e actor name acc table seats (some taken) = pure (record acc {
  conflicts = acc.conflicts ++ record { entity = Entity.table; id = table.id; name = name } ∷ [];
})
rename_found e actor name acc table seats none = do
  updated ← update_table_at table.id (set_name name)
  log_change e table.event_id actor table_rename (renamed table.name name table.id)
  pure (record acc {
    affected_tables = acc.affected_tables + 1;
    affected_seats = acc.affected_seats + seats;
  })

abbrev pub bulk_step : Env → Uuid → String → BulkTables → Option Table → Exec BulkTables
bulk_step e actor name acc none = pure acc
bulk_step e actor name acc (some table) = if same_name table.name name then pure acc else do
  seats ← gets (λ s. count_if (λ r. holds r.table_id table.id) s.seats)
  taken ← gets (λ s. find (is_taken table name) s.tables)
  rename_found e actor name acc table seats taken

unfoldable pub bulk_rename : Env → Uuid → BulkTables → List RenameTableInput → Exec BulkTables
bulk_rename e actor acc [] = pure acc
bulk_rename e actor acc (input ∷ rest) = do
  table ← gets (find_table input.table_id)
  next ← bulk_step e actor input.new_name acc table
  bulk_rename e actor next rest

-- bulkRenameTables
unfoldable pub bulk_rename_tables : Env → List RenameTableInput → Uuid → Exec BulkTables
unfolding bulk_rename
bulk_rename_tables e inputs actor =
    bulk_rename e actor (record { affected_tables = 0; affected_seats = 0; conflicts = [] }) inputs
