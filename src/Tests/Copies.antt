-- ===== src/Tests/Copies.antt =====
-- The theorems on copies at the sample event.
use omnixys_seat_service.Base.{◌≡◌, refl, some, select, holds, inl}
use omnixys_seat_service.Base.Int.{pos}
use omnixys_seat_service.Store.Rows.{
  Seat, Section, Table, Db, DuplicateTableInput, CloneSectionInput,
}
use omnixys_seat_service.Store.Exec.{Result, ok, err, transaction, or_raise, ◌>>=◌}
use omnixys_seat_service.Store.Tables
use omnixys_seat_service.Store.Tables.{seats_ok, keys_ok}
use omnixys_seat_service.Store.Sets
use omnixys_seat_service.Audit
use omnixys_seat_service.Layout.Versions
use omnixys_seat_service.Layout.Copy
use omnixys_seat_service.Layout.Copy.{copy_name, duplicate_table, clone_section}
use omnixys_seat_service.Layout.Copies.Growth.{Among, Grows}
use omnixys_seat_service.Layout.Copies.{AreCopied, clone_section-copies}
use omnixys_seat_service.Tests.Data.{env, event_db, section_row, table_row}

abbrev result_or : {A : Type 0} → A → Result A → A
result_or a (ok b) = b
result_or a (err x) = a

abbrev duplicate : DuplicateTableInput
duplicate = record { table_id = 2; offset_x = pos 5; offset_y = pos 0 }

abbrev new_table : Table
new_table = result_or (table_row 2) (duplicate_table env duplicate 1 event_db).0

abbrev duplicated_db : Db
duplicated_db = (duplicate_table env duplicate 1 event_db).1

abbrev clone : CloneSectionInput
clone = record { section_id = 1; offset_x = pos 5; offset_y = pos 0 }

abbrev new_section : Section
new_section = result_or (section_row 1) (clone_section env clone 1 event_db).0

abbrev cloned_db : Db
cloned_db = (clone_section env clone 1 event_db).1

cloned : clone_section env clone 1 event_db ≡ (ok new_section, cloned_db)
unfolding clone_section ◌>>=◌ or_raise Tables.new_id Tables.create_section_row keys_ok
    Copy.copy_tables Tables.create_table_row Copy.copy_rows Sets.create_many_seats transaction
    Tables.create_seat_row Audit.log_change Versions.save_layout_version Sets.create_version_row
cloned = refl

clone_section-copies_example :
    Grows event_db cloned_db
    × (new_section.event_id ≡ 9)
    × (new_section.name ≡ copy_name "Hall")
    × ((t' : Table) × Among t' cloned_db.tables
        × (t'.section_id ≡ new_section.id)
        × (t'.name ≡ copy_name "Table 1")
        × AreCopied
            (some new_section.id)
            t'.id
            (select (λ r. holds r.table_id 2) event_db.seats)
            cloned_db.seats)
clone_section-copies_example =
    clone_section-copies env clone 1 event_db cloned_db (section_row 1) new_section (table_row 2)
      refl cloned (inl refl) refl
