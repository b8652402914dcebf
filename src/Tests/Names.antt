-- ===== src/Tests/Names.antt =====
-- The theorems on the names of sections at the sample event.
use omnixys_seat_service.Base.{refl, ◌≡◌}
use omnixys_seat_service.Store.Rows.{RenameSectionInput}
use omnixys_seat_service.Store.Exec.{Entity, seating_conflict, err}
use omnixys_seat_service.Store.Post.{Post}
use omnixys_seat_service.Section.Rename.{rename_section}
use omnixys_seat_service.Section.Names.{rename_section_own}
use omnixys_seat_service.Tests.Data.{env, event_db, section_row}

rename_section_own_example :
    rename_section env (record { section_id = 1; new_name = "Hall" }) 1 event_db
    ≡ (err (seating_conflict Entity.section "Hall"), event_db)
rename_section_own_example = rename_section_own env 1 event_db (section_row 1) 1 refl

abbrev to_garden : RenameSectionInput
to_garden = record { section_id = 1; new_name = "Garden" }
