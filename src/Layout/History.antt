-- ===== src/Layout/History.antt =====
-- Which version undo and redo restore (layout/services/layout-write.service.ts).
use omnixys_seat_service.Base.{
  Bool, true, false, ◌&&◌, ◌≡◌, refl, List, [], ◌∷◌, Option, none, some, arith, ◌==◌, ltb, ◌≤◌, All,
  Bool-cases, inl, inr,
}
use omnixys_seat_service.Store.Rows.{Uuid, Seat, Section, Table, LayoutVersion, Db}
use omnixys_seat_service.Store.Exec.{Env, ok, ◌>>=◌}
use omnixys_seat_service.Store.Keeps.{Keeps}
use omnixys_seat_service.Store.Unique.{All-weaken}
use omnixys_seat_service.Store.Tables.{
  new_id, create_seat_row, create_section_row, create_table_row,
}
use omnixys_seat_service.Store.Sets.{
  find_highest, find_lowest, higher, delete_seats, delete_tables, delete_sections,
}
use omnixys_seat_service.Layout.Restore.{RowLaws, restore_found-Keeps}
use omnixys_seat_service.Layout.Versions.{
  restore_found, load_latest, undo_from, undo, redo_from, redo,
}

-- The version passes, and no version that passes is higher; or no version passes.
abbrev pub IsHighest : (LayoutVersion → Bool) → List LayoutVersion → Option LayoutVersion → Type 0
IsHighest p vs none = All (λ v. p v ≡ false) vs
IsHighest p vs (some v) = (p v ≡ true) × All (λ w. p w ≡ true → w.version ≤ v.version) vs

higher-IsHighest :
    (p : LayoutVersion → Bool) (v : LayoutVersion) (vs : List LayoutVersion)
    (o : Option LayoutVersion)
    → p v ≡ true
    → IsHighest p vs o
    → IsHighest p (v ∷ vs) (higher v o)
higher-IsHighest p v vs none e h = (e, ((λ _. omega arith), All-weaken _ _ vs (λ w n c. cc) h))
higher-IsHighest p v vs (some w) e h = elim (Bool-cases (ltb v.version w.version)) [
  | inl d ↦ rw d (h.0, ((λ _. ground arith), h.1))
  | inr d ↦
      rw d (e, ((λ _. omega arith), All-weaken _ _ vs (λ u l c. let k = l c in ground arith) h.1))
]

skip-IsHighest :
    (p : LayoutVersion → Bool) (v : LayoutVersion) (vs : List LayoutVersion)
    (o : Option LayoutVersion)
    → p v ≡ false
    → IsHighest p vs o
    → IsHighest p (v ∷ vs) o
skip-IsHighest p v vs none e h = (e, h)
skip-IsHighest p v vs (some w) e h = (h.0, ((λ c. cc), h.1))

pub find_highest-IsHighest :
    (p : LayoutVersion → Bool) (vs : List LayoutVersion) → IsHighest p vs (find_highest p vs)
unfolding find_highest
find_highest-IsHighest p [] = tt
find_highest-IsHighest p (v ∷ vs) = elim (Bool-cases (p v)) [
  | inl e ↦ rw e (higher-IsHighest p v vs (find_highest p vs) e (find_highest-IsHighest p vs))
  | inr e ↦ rw e (skip-IsHighest p v vs (find_highest p vs) e (find_highest-IsHighest p vs))
]

find_lowest-none :
    (p : LayoutVersion → Bool) (vs : List LayoutVersion)
    → All (λ v. p v ≡ false) vs
    → find_lowest p vs ≡ none
unfolding find_lowest
find_lowest-none p [] h = refl
find_lowest-none p (v ∷ vs) h = rw (h.0, find_lowest-none p vs h.1) refl

-- A redo never restores a version: it answers false and changes nothing.
pub redo-nothing : (e : Env) (event : Uuid) (db : Db) → redo e event db ≡ (ok false, db)
unfolding redo ◌>>=◌
redo-nothing e event db = from (load_latest event db) (find_highest-IsHighest _ db.layout_versions)
  where
    from :
        (latest : Option LayoutVersion)
        → IsHighest (λ v. v.event_id == event) db.layout_versions latest
        → redo_from e event latest db ≡ (ok false, db)
    from none h = refl
    from (some latest) h =
        rw
          (find_lowest-none (λ v. v.event_id == event && ltb latest.version v.version)
            db.layout_versions (All-weaken _ _ db.layout_versions (λ v l. above latest v l) h.1))
          refl
      where
        above :
            (latest v : LayoutVersion)
            → ((v.event_id == event) ≡ true → v.version ≤ latest.version)
            → (v.event_id == event) && ltb latest.version v.version ≡ false
        above latest v l = elim (Bool-cases (v.event_id == event)) [
          | inl e ↦ let k = l e in rw e (ground arith)
          | inr e ↦ rw e refl
        ]

-- The version that an undo is to restore: the highest of the event below the latest.
abbrev pub IsBelow :
    Uuid → List LayoutVersion → Option LayoutVersion → Option LayoutVersion → Type 0
IsBelow event vs none v = v ≡ none
IsBelow event vs (some latest) v =
    IsHighest (λ w. w.event_id == event && ltb w.version latest.version) vs v

abbrev pub IsUndone : Uuid → List LayoutVersion → Option LayoutVersion → Type 0
IsUndone event vs v =
    (latest : Option LayoutVersion) × IsHighest (λ w. w.event_id == event) vs latest
    × IsBelow event vs latest v

abbrev pub target_from : Uuid → List LayoutVersion → Option LayoutVersion → Option LayoutVersion
target_from event vs none = none
target_from event vs (some latest) =
    find_highest (λ w. w.event_id == event && ltb w.version latest.version) vs

abbrev pub target : Uuid → List LayoutVersion → Option LayoutVersion
target event vs = target_from event vs (find_highest (λ w. w.event_id == event) vs)

target-IsUndone : (event : Uuid) (vs : List LayoutVersion) → IsUndone event vs (target event vs)
target-IsUndone event vs = (
  find_highest (λ w. w.event_id == event) vs,
  find_highest-IsHighest (λ w. w.event_id == event) vs,
  below (find_highest (λ w. w.event_id == event) vs),
)
  where
    below : (latest : Option LayoutVersion) → IsBelow event vs latest (target_from event vs latest)
    below none = refl
    below (some latest) =
        find_highest-IsHighest (λ w. w.event_id == event && ltb w.version latest.version) vs

pub undo-target :
    (e : Env) (event : Uuid) (db : Db)
    → undo e event db ≡ restore_found e event (target event db.layout_versions) db
unfolding undo ◌>>=◌
undo-target e event db = from (load_latest event db)
  where
    from :
        (latest : Option LayoutVersion)
        → undo_from e event latest db
          ≡ restore_found e event (target_from event db.layout_versions latest) db
    from none = refl
    from (some latest) = refl

-- The versions are those.
abbrev Same : List LayoutVersion → Db → Type 0
Same vs db = db.layout_versions ≡ vs

module _ (vs : List LayoutVersion) where
  new_id-Same : (e : Env) → Keeps (Same vs) (new_id e)
  unfolding new_id ◌>>=◌
  new_id-Same e = record { at = λ db h. h }

  create_seat_row-Same : (r : Seat) → Keeps (Same vs) (create_seat_row r)
  unfolding create_seat_row
  create_seat_row-Same r = record { at = λ db h. ground arith }

  create_section_row-Same : (r : Section) → Keeps (Same vs) (create_section_row r)
  unfolding create_section_row
  create_section_row-Same r = record { at = λ db h. ground arith }

  create_table_row-Same : (r : Table) → Keeps (Same vs) (create_table_row r)
  unfolding create_table_row
  create_table_row-Same r = record { at = λ db h. ground arith }

  delete_seats-Same : (p : Seat → Bool) → Keeps (Same vs) (delete_seats p)
  unfolding delete_seats
  delete_seats-Same p = record { at = λ db h. h }

  delete_tables-Same : (p : Table → Bool) → Keeps (Same vs) (delete_tables p)
  unfolding delete_tables
  delete_tables-Same p = record { at = λ db h. h }

  delete_sections-Same : (p : Section → Bool) → Keeps (Same vs) (delete_sections p)
  unfolding delete_sections
  delete_sections-Same p = record { at = λ db h. h }

  Same-laws : RowLaws (Same vs)
  Same-laws = record {
    new = record {
      id = new_id-Same;
      section = create_section_row-Same;
      table = create_table_row-Same;
    };
    seat = create_seat_row-Same;
    no_seats = delete_seats-Same;
    no_tables = delete_tables-Same;
    no_sections = delete_sections-Same;
  }

undo-Same :
    (e : Env) (event : Uuid) (db : Db) → (undo e event db).1.layout_versions ≡ db.layout_versions
undo-Same e event db = rw (undo-target e event db) (
    (restore_found-Keeps (Same-laws db.layout_versions) e event
        (target event db.layout_versions)).at
      db refl)

-- An undo restores the highest version of the event below the latest, if there is one, and leaves
-- the versions as they are, so that another undo restores the same version.
pub undo_twice :
    (e later : Env) (event : Uuid) (db : Db)
    → let db' = (undo e event db).1 in
      (v : Option LayoutVersion) × IsUndone event db.layout_versions v
      × (undo e event db ≡ restore_found e event v db)
      × (db'.layout_versions ≡ db.layout_versions)
      × (undo later event db' ≡ restore_found later event v db')
undo_twice e later event db = (
  target event db.layout_versions,
  target-IsUndone event db.layout_versions,
  undo-target e event db,
  undo-Same e event db,
  again (undo e event db).1 (undo-Same e event db),
)
  where
    again :
        (db' : Db)
        → db'.layout_versions ≡ db.layout_versions
        → undo later event db' ≡ restore_found later event (target event db.layout_versions) db'
    again db' h = rw (← h) (undo-target later event db')
