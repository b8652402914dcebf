-- ===== src/Section/Rename.antt =====
-- section/services/section-write.service.ts: renameSection and bulkRenameSections.
use omnixys_seat_service.Base.{
  ℕ, ◌+◌, Bool, true, not, ◌&&◌, String, List, [], ◌∷◌, ◌++◌, Option, none, some, str_eq, ◌==◌,
  if◌then◌else◌, find, is_some, count_if,
}
use omnixys_seat_service.Base.Text.{trim}
use omnixys_seat_service.Store.Rows.{Uuid, Section, RenameSectionInput, section_rename, renamed}
use omnixys_seat_service.Store.Exec.{
  Entity, entity_not_found, seating_conflict, Env, Exec, pure, raise, gets, or_raise, ◌>>=◌, ◌>>◌,
  when,
}
use omnixys_seat_service.Store.Tables.{find_section, update_section_at}
use omnixys_seat_service.Audit.{log_change}

-- RenamePayload
pub record RenamePayload : Type 0 where
  pub success : Bool
  pub affected_seats : ℕ

-- RenameConflict
pub record RenameConflict : Type 0 where
  pub entity : Entity
  pub id : Uuid
  pub name : String

abbrev pub set_name : String → Section → Section
set_name name s = record s { name = name }

-- The names are equal but for the white space round them.
abbrev pub same_name : String → String → Bool
same_name a b = str_eq (trim a) (trim b)

-- What is done once the names differ.
unfoldable pub rename_row : Env → Section → String → Uuid → Exec RenamePayload
rename_row e exists new_name actor = do
  updated ← update_section_at exists.id (set_name new_name)
  affected ←
      gets
        (λ s. count_if (λ r. r.event_id == exists.event_id && r.section_id == updated.id) s.seats)
  log_change e exists.event_id actor section_rename (renamed exists.name new_name updated.id)
  pure (record { success = true; affected_seats = affected })

-- renameSection
unfoldable pub rename_section : Env → RenameSectionInput → Uuid → Exec RenamePayload
rename_section e input actor = do
  exists ←
      or_raise (← gets (find_section input.section_id))
        (entity_not_found Entity.section input.section_id)
  conflict ←
      gets
        (λ s. find (λ r. r.event_id == exists.event_id && str_eq r.name input.new_name) s.sections)
  when (is_some conflict) (raise (seating_conflict Entity.section input.new_name))
  if same_name exists.name input.new_name
      then pure (record { success = true; affected_seats = 0 })
      else rename_row e exists input.new_name actor

pub record BulkSections : Type 0 where
  pub affected_sections : ℕ
  pub affected_seats : ℕ
  pub conflicts : List RenameConflict

-- Another section of the event has the name.
abbrev pub is_taken : Section → String → Section → Bool
is_taken section name r =
    r.event_id == section.event_id && (str_eq r.name name && not (r.id == section.id))

-- The body of the loop, for a section that is there. Its seats are counted when it is read.
unfoldable pub rename_found :
    Env → Uuid → String → BulkSections → Section → ℕ → Option Section → Exec BulkSections
rename_found e actor name acc section seats (some taken) = pure (record acc {
  conflicts =
      acc.conflicts ++ record { entity = Entity.section; id = section.id; name = name } ∷ [];
})
rename_found e actor name acc section seats none = do
  updated ← update_section_at section.id (set_name name)
  log_change e section.event_id actor section_rename (renamed section.name name section.id)
  pure (record acc {
    affected_sections = acc.affected_sections + 1;
    affected_seats = acc.affected_seats + seats;
  })

abbrev pub bulk_step : Env → Uuid → String → BulkSections → Option Section → Exec BulkSections
bulk_step e actor name acc none = pure acc
bulk_step e actor name acc (some section) = if same_name section.name name then pure acc else do
  seats ← gets (λ s. count_if (λ r. r.section_id == section.id) s.seats)
  taken ← gets (λ s. find (is_taken section name) s.sections)
  rename_found e actor name acc section seats taken

unfoldable pub bulk_rename : Env → Uuid → BulkSections → List RenameSectionInput → Exec BulkSections
bulk_rename e actor acc [] = pure acc
bulk_rename e actor acc (input ∷ rest) = do
  section ← gets (find_section input.section_id)
  next ← bulk_step e actor input.new_name acc section
  bulk_rename e actor next rest

-- bulkRenameSections
unfoldable pub bulk_rename_sections : Env → List RenameSectionInput → Uuid → Exec BulkSections
unfolding bulk_rename
bulk_rename_sections e inputs actor =
    bulk_rename e actor (record { affected_sections = 0; affected_seats = 0; conflicts = [] })
      inputs
