-- ===== src/Layout/Holders.antt =====
-- What a restore makes of the holders and the types of seats (restoreVersion of
-- layout/services/layout-write.service.ts and normalizeSnapshot of layout/utils/snapshot-serializer.ts).
use omnixys_seat_service.Base.{
  Bool, true, not, ◌&&◌, ◌≡◌, ◌⊎◌, refl, sym, ◌∙◌, ap, List, [], ◌∷◌, ◌++◌, Option, none, some,
  arith, ◌==◌, select, map, All, Bool-cases, inl, inr, or_default, is_some,
}
use omnixys_seat_service.Store.Rows.{
  Uuid, SeatType, Seat, Section, Table, SeatSnapshot, LayoutSnapshot, LayoutVersion, Db,
}
use omnixys_seat_service.Store.Exec.{Error, Result, Env, Exec, ok, err, ◌>>=◌, continue}
use omnixys_seat_service.Store.Post.{Post, Post-continue, Post-transaction}
use omnixys_seat_service.Store.Keeps.{Keeps, Keeps-pure, Keeps-bind, Keeps-transaction}
use omnixys_seat_service.Store.Unique.{All-select}
use omnixys_seat_service.Store.Tables.{
  new_id, create_seat_row, create_section_row, create_table_row, seats_ok, find_section, has_table,
  in_tables,
}
use omnixys_seat_service.Store.Sets.{
  delete_seats, delete_tables, delete_sections, goes_with, in_sections, create_each,
  create_many_seats,
}
use omnixys_seat_service.Layout.Restore.{
  NewLaws, restore_sections-Keeps, restore_tables-Keeps, seat_rows-Keeps,
}
use omnixys_seat_service.Layout.Versions.{
  Ids, get_id, get_id?, seat_row, seat_rows, rebuild, normalize, normal_type, normal_seat,
  restore_version, restore_found, undo,
}
use omnixys_seat_service.Layout.History.{target, undo-target}

-- The seat is held by nobody, and of one of the two types that a restore leaves.
abbrev pub IsEmptied : Seat → Type 0
IsEmptied s =
    (s.guest_id ≡ none)
    × (s.invitation_id ≡ none)
    × ((s.seat_type ≡ some SeatType.standard) ⊎ (s.seat_type ≡ some SeatType.reserved))

-- So are all seats of the event.
abbrev pub Emptied : Uuid → Db → Type 0
Emptied event db = All (λ s. (s.event_id == event) ≡ true → IsEmptied s) db.seats

All-snoc {ℓ κ} :
    {A : Type ℓ} (P : A → Type κ) (xs : List A) (x : A) → All P xs → P x → All P (xs ++ x ∷ [])
All-snoc P [] x h p = (p, tt)
All-snoc P (y ∷ ys) x h p = (h.0, All-snoc P ys x h.1 p)

All-append {ℓ κ} :
    {A : Type ℓ} (P : A → Type κ) (xs ys : List A) → All P xs → All P ys → All P (xs ++ ys)
All-append P [] ys h k = k
All-append P (x ∷ xs) ys h k = (h.0, All-append P xs ys h.1 k)

create_section_row-seats : (r : Section) (db : Db) → (create_section_row r db).1.seats ≡ db.seats
unfolding create_section_row
create_section_row-seats r db = ground arith

create_table_row-seats : (r : Table) (db : Db) → (create_table_row r db).1.seats ≡ db.seats
unfolding create_table_row
create_table_row-seats r db = ground arith

module _ (event : Uuid) where
  create_seat_row-Emptied : (r : Seat) → IsEmptied r → Keeps (Emptied event) (create_seat_row r)
  unfolding create_seat_row
  create_seat_row-Emptied r f = record {
    at = λ db h.
        elim (Bool-cases (is_some (find_section r.section_id db) && has_table r.table_id db)) [
          | inr e ↦ rw e h
          | inl e ↦ rw e (elim (Bool-cases (seats_ok (db.seats ++ r ∷ []))) [
            | inr c ↦ rw c h
            | inl c ↦ rw c (All-snoc _ db.seats r h (λ _. f))
          ])
        ];
  }

  create_each-Emptied :
      (rows : List Seat) → All IsEmptied rows → Keeps (Emptied event) (create_each rows)
  unfolding create_each
  create_each-Emptied [] f = Keeps-pure tt
  create_each-Emptied (r ∷ rest) f =
      Keeps-bind _ _ (create_seat_row-Emptied r f.0) λ row. create_each-Emptied rest f.1

  new_id-Emptied : (e : Env) → Keeps (Emptied event) (new_id e)
  unfolding new_id ◌>>=◌
  new_id-Emptied e = record { at = λ db h. h }

  create_section_row-Emptied : (r : Section) → Keeps (Emptied event) (create_section_row r)
  create_section_row-Emptied r = record { at = λ db h. rw (create_section_row-seats r db) h }

  create_table_row-Emptied : (r : Table) → Keeps (Emptied event) (create_table_row r)
  create_table_row-Emptied r = record { at = λ db h. rw (create_table_row-seats r db) h }

  Emptied-laws : NewLaws (Emptied event)
  Emptied-laws = record {
    id = new_id-Emptied;
    section = create_section_row-Emptied;
    table = create_table_row-Emptied;
  }

seat_row-IsEmptied :
    (e : Env) (event id : Uuid) (section table : Option Uuid) (s : SeatSnapshot)
    → All IsEmptied (seat_row e event id section table (normal_seat s))
seat_row-IsEmptied e event id none table s = tt
seat_row-IsEmptied e event id (some section) none s = tt
seat_row-IsEmptied e event id (some section) (some table) s = ((refl, refl, plain s.seat_type), tt)
  where
    plain :
        (t : Option SeatType)
        → (some (or_default (normal_type t) SeatType.standard) ≡ some SeatType.standard)
          ⊎ (some (or_default (normal_type t) SeatType.standard) ≡ some SeatType.reserved)
    plain none = inl refl
    plain (some SeatType.standard) = inl refl
    plain (some SeatType.vip) = inl refl
    plain (some SeatType.staff) = inl refl
    plain (some SeatType.standing) = inl refl
    plain (some SeatType.child) = inl refl
    plain (some SeatType.reserved) = inr refl

abbrev Any : Error → Type 0
Any _ = Unit {0}

Keeps-Post :
    {A : Type 0} (P : Db → Type 0) (m : Exec A) (s : Db)
    → Keeps P m
    → P s
    → Post (λ _ s'. P s') Any (m s)
Keeps-Post {A} P m s k h = go (m s) (k.at s h)
  where
    go : (r : Result A × Db) → P r.1 → Post (λ _ s'. P s') Any r
    go (ok a, s') p = p
    go (err e, s') p = tt

-- The rows come out empty, whatever state they are made in.
seat_rows-IsEmptied :
    (e : Env) (event : Uuid) (sections tables : Ids) (raw : List SeatSnapshot) (s : Db)
    → Post
        (λ rows _. All IsEmptied rows)
        Any
        (seat_rows e event sections tables (map normal_seat raw) s)
unfolding seat_rows ◌>>=◌ new_id
seat_rows-IsEmptied e event sections tables [] s = tt
seat_rows-IsEmptied e event sections tables (x ∷ raw) s =
    Post-continue (λ rows _. All IsEmptied rows) _ Any _ _
      (seat_rows-IsEmptied e event sections tables raw _)
      (λ more s' h.
        All-append IsEmptied _ more
          (seat_row-IsEmptied e event _ (get_id sections x.section_id) (get_id? tables x.table_id)
            x)
          h)

Post-both :
    {A : Type 0} (Q R : A → Db → Type 0) (r : Result A × Db)
    → Post Q Any r
    → Post R Any r
    → Post (λ a s. Q a s × R a s) Any r
Post-both Q R (ok a, s) h k = (h, k)
Post-both Q R (err e, s) h k = tt

Post-bind :
    {A B : Type 0} (Q : A → Db → Type 0) (R : B → Db → Type 0) (m : Exec A) (f : A → Exec B)
    (s : Db)
    → Post Q Any (m s)
    → ((a : A) (s' : Db) → Q a s' → Post R Any (f a s'))
    → Post R Any ((m >>= f) s)
unfolding ◌>>=◌
Post-bind Q R m f s h k = Post-continue Q R Any (m s) f h k

cleared :
    (event : Uuid) (db : Db)
    → Post (λ _ s'. Emptied event s') Any (delete_seats (λ r. r.event_id == event) db)
unfolding delete_seats
cleared event db = from db.seats
  where
    from :
        (xs : List Seat)
        → All
            (λ s. (s.event_id == event) ≡ true → IsEmptied s)
            (select (λ r. not (r.event_id == event)) xs)
    from [] = tt
    from (x ∷ xs) = elim (Bool-cases (x.event_id == event)) [
      | inl e ↦ rw e (from xs)
      | inr e ↦ rw e ((λ c. absurd (ground arith)), from xs)
    ]

delete_tables-Emptied : (event : Uuid) (p : Table → Bool) → Keeps (Emptied event) (delete_tables p)
unfolding delete_tables
delete_tables-Emptied event p = record {
  at = λ db h.
      All-select _ _ (λ r. not (in_tables (select p db.tables) r.table_id)) db.seats (λ s q _. q) h;
}

delete_sections-Emptied :
    (event : Uuid) (p : Section → Bool) → Keeps (Emptied event) (delete_sections p)
unfolding delete_sections
delete_sections-Emptied event p = record {
  at = λ db h.
      All-select _ _
        (λ r. not (
          goes_with (select p db.sections)
            (select (λ t. in_sections (select p db.sections) t.section_id) db.tables) r))
        db.seats (λ s q _. q) h;
}

create_many_seats-Emptied :
    (event : Uuid) (rows : List Seat)
    → All IsEmptied rows
    → Keeps (Emptied event) (create_many_seats rows)
unfolding create_many_seats
create_many_seats-Emptied event rows f = Keeps-transaction _ (create_each-Emptied event rows f)

rebuild-Emptied :
    (e : Env) (event : Uuid) (raw : LayoutSnapshot) (db : Db)
    → Post (λ _ s'. Emptied event s') Any (rebuild e event (normalize raw) db)
unfolding rebuild
rebuild-Emptied e event raw db =
    let P = λ (u : Unit {0}) (s' : Db). Emptied event s' in
    let keep = Emptied-laws event in
    Post-bind P P _ _ db (cleared event db) λ _ s0 h0.
      Post-bind P P _ _ s0 (Keeps-Post _ _ s0 (delete_tables-Emptied event _) h0) λ _ s1 h1.
        Post-bind P P _ _ s1 (Keeps-Post _ _ s1 (delete_sections-Emptied event _) h1) λ _ s2 h2.
          Post-bind (λ _ s'. Emptied event s') P _ _ s2
            (Keeps-Post _ _ s2 (restore_sections-Keeps keep e event [] _) h2)
            λ sections s3 h3.
              Post-bind (λ _ s'. Emptied event s') P _ _ s3
                (Keeps-Post _ _ s3 (restore_tables-Keeps keep e event sections [] _) h3)
                λ tables s4 h4.
                  Post-bind (λ rows s'. All IsEmptied rows × Emptied event s') P _ _ s4
                    (Post-both (λ rows _. All IsEmptied rows) (λ _ s'. Emptied event s') _
                      (seat_rows-IsEmptied e event sections tables raw.seats s4)
                      (Keeps-Post _ _ s4 (seat_rows-Keeps keep e event sections tables _) h4))
                    λ rows s5 h5. Keeps-Post _ _ s5 (create_many_seats-Emptied event rows h5.0) h5.1

-- After an undo that restored a version nobody holds a seat of the event, and every seat of the event
-- is of the standard type or reserved, whatever the seats and the version were.
pub undo-Emptied :
    (e : Env) (event : Uuid) (db db' : Db) → undo e event db ≡ (ok true, db') → Emptied event db'
unfolding restore_version ◌>>=◌
undo-Emptied e event db db' h =
    restored (target event db.layout_versions) (sym (undo-target e event db) ∙ h)
  where
    read :
        (r : Result Unit × Db)
        → Post (λ _ s'. Emptied event s') Any r
        → continue r (λ _ s. (ok true, s)) ≡ (ok true, db')
        → Emptied event db'
    read (ok tt, s) p q = rw (← ap (λ r. r.1) q) p
    read (err x, s) p q = cc

    restored :
        (v : Option LayoutVersion) → restore_found e event v db ≡ (ok true, db') → Emptied event db'
    restored none q = cc
    restored (some v) q =
        read _ (Post-transaction _ Any _ db (rebuild-Emptied e event v.snapshot db)) q
