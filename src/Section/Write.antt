-- ===== src/Section/Write.antt =====
-- section/services/section-write.service.ts: createSection, updateSection and deleteSection.
use omnixys_seat_service.Base.{Bool, true, ◌==◌, if◌then◌else◌, or_else, or_default}
use omnixys_seat_service.Base.Int.{pos}
use omnixys_seat_service.Meta.{is_truthy, prepare_meta}
use omnixys_seat_service.AutoOrder.{next_order}
use omnixys_seat_service.Store.Rows.{
  Uuid, Section, SectionShape, CreateSectionInput, UpdateSectionInput, section_create,
  section_update, section_delete, created_section, updated_section, deleted,
}
use omnixys_seat_service.Store.Exec.{
  Entity, entity_not_found, Env, Exec, pure, gets, or_raise, ◌>>=◌, ◌>>◌,
}
use omnixys_seat_service.Store.Tables.{
  new_id, find_section, update_section_at, create_section_row, delete_section_row,
}
use omnixys_seat_service.Audit.{log_change}

-- createSection; the shape is the default of the table.
unfoldable pub create_section : Env → CreateSectionInput → Uuid → Exec Section
create_section e input actor = do
  auto_order ← gets (λ s. next_order (λ r. r.event_id == input.event_id) (λ r. r.order) s.sections)
  id ← new_id e
  created ← create_section_row (record {
    id = id;
    event_id = input.event_id;
    name = input.name;
    order = or_default input.order auto_order;
    capacity = input.capacity;
    shape = SectionShape.rectangle;
    x = or_default input.x (pos 0);
    y = or_default input.y (pos 0);
    width = input.width;
    height = input.height;
    meta = prepare_meta input.meta;
  })
  log_change e input.event_id actor section_create (created_section created)
  pure created

abbrev pub edit_section : UpdateSectionInput → Section → Section
edit_section input s = record s {
  name = or_default input.name s.name;
  order = or_default input.order s.order;
  capacity = or_else input.capacity s.capacity;
  shape = or_default input.shape s.shape;
  x = or_default input.x s.x;
  y = or_default input.y s.y;
  width = or_else input.width s.width;
  height = or_else input.height s.height;
  meta = if is_truthy input.meta then prepare_meta input.meta else s.meta;
}

-- updateSection
unfoldable pub update_section : Env → UpdateSectionInput → Uuid → Exec Section
update_section e input actor = do
  exists ← or_raise (← gets (find_section input.id)) (entity_not_found Entity.section input.id)
  updated ← update_section_at input.id (edit_section input)
  log_change e exists.event_id actor section_update (updated_section input)
  pure updated

-- deleteSection
unfoldable pub delete_section : Env → Uuid → Uuid → Exec Bool
delete_section e id actor = do
  exists ← or_raise (← gets (find_section id)) (entity_not_found Entity.section id)
  delete_section_row id
  log_change e exists.event_id actor section_delete (deleted id)
  pure true
