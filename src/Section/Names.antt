-- ===== src/Section/Names.antt =====
-- What renameSection does with a name that is in use and with one that is not
-- (section/services/section-write.service.ts).
use omnixys_seat_service.Base.{
  Bool, true, false, ◌&&◌, ◌≡◌, refl, String, List, [], ◌∷◌, some, str_eq, eq_iff, ◌==◌, find, any,
  is_some, count_if, update_if, Bool-cases, inl, inr, arith,
}
use omnixys_seat_service.Store.Rows.{Uuid, Section, RenameSectionInput, Db}
use omnixys_seat_service.Store.Exec.{Entity, seating_conflict, Env, err, or_raise, when, ◌>>=◌}
use omnixys_seat_service.Store.Post.{Post}
use omnixys_seat_service.Store.Tables.{sections_ok, find_section}
use omnixys_seat_service.Store.Unique.{find-any}
use omnixys_seat_service.Section.Rename.{RenamePayload, rename_section, set_name}

-- A section of the event has the name.
abbrev pub has_name : Uuid → String → Section → Bool
has_name event name r = r.event_id == event && str_eq r.name name

find-is_some :
    (q : Section → Bool) (xs : List Section) → any q xs ≡ true → is_some (find q xs) ≡ true
find-is_some q [] h = h
find-is_some q (x ∷ xs) h = elim (Bool-cases (q x)) [
  | inl e ↦ rw e refl
  | inr e ↦ rw e (find-is_some q xs (rw e at h))
]

-- A name that a section of the event has, be it the same section, is refused, and nothing changes.
pub rename_section_taken :
    (e : Env) (input : RenameSectionInput) (actor : Uuid) (db : Db) (exists : Section)
    → find_section input.section_id db ≡ some exists
    → any (has_name exists.event_id input.new_name) db.sections ≡ true
    → rename_section e input actor db ≡ (err (seating_conflict Entity.section input.new_name), db)
unfolding rename_section ◌>>=◌ or_raise when
rename_section_taken e input actor db exists f taken =
    rw (f, find-is_some (has_name exists.event_id input.new_name) db.sections taken) refl

-- A rename of a section that is there to the name that it has already throws a conflict and leaves
-- the database as it was.
pub rename_section_own :
    (e : Env) (actor : Uuid) (db : Db) (exists : Section) (id : Uuid)
    → find_section id db ≡ some exists
    → rename_section e (record { section_id = id; new_name = exists.name }) actor db
      ≡ (err (seating_conflict Entity.section exists.name), db)
rename_section_own e actor db exists id f =
    rename_section_taken e (record { section_id = id; new_name = exists.name }) actor db exists f
      (find-any _ (has_name exists.event_id exists.name) db.sections f
        (ground (arith, eq_iff exists.name exists.name)))

abbrev Fits : Section → String → Section → Type 0
Fits exists name r =
    ((r.id == exists.id) ≡ true → r.event_id ≡ exists.event_id)
    × (has_name exists.event_id name r ≡ false)

-- The answer to a rename, and the sections and seats after it.
abbrev pub IsRenamed : Section → String → Db → RenamePayload → Db → Type 0
IsRenamed exists name db answer db' =
    (answer.success ≡ true)
    × (answer.affected_seats
        ≡ count_if (λ s. s.event_id == exists.event_id && s.section_id == exists.id) db.seats)
    × (db'.sections ≡ update_if (λ r. r.id == exists.id) (set_name name) db.sections)
    × (sections_ok db'.sections ≡ true)
    × (db'.seats ≡ db.seats)
