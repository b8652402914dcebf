-- ===== src/Layout/Copies.antt =====
-- What duplicateTable and cloneSection leave (layout/services/layout-write.service.ts): the rows that
-- were there, and a copy of each seat.
pub mod Growth
use omnixys_seat_service.Base.{
  Bool, true, false, ◌&&◌, ◌≡◌, refl, sym, ◌∙◌, ap, subst, ◌⊎◌, inl, inr, Option, none, some,
  String, List, [], ◌∷◌, ◌++◌, All, Bool-cases, Option-cases, or_default, if◌then◌else◌, is_some, ℕ,
  select, map, holds, ◌==◌, ==_iff,
}
use omnixys_seat_service.Base.Int.{ℤ}
use omnixys_seat_service.Store.Rows.{
  Uuid, Seat, Section, Table, Db, DuplicateTableInput, CloneSectionInput, SaveLayoutVersionInput,
  LayoutChangeType, ChangePayload, LayoutVersion, SeatStatus, SeatType,
}
use omnixys_seat_service.Store.Exec.{
  Error, Env, Exec, Result, ok, err, gets, continue, pure, or_raise, ◌>>=◌, ◌>>◌,
}
use omnixys_seat_service.Store.Unique.{All-weaken}
use omnixys_seat_service.Store.Post.{
  Post, Post-continue, Post-weaken, Post-transaction, Post-or_raise,
}
use omnixys_seat_service.Store.Tables.{
  new_id, keys_ok, seats_ok, tables_ok, sections_ok, has_table, find_section, find_table,
  create_seat_row, create_section_row, create_table_row,
}
use omnixys_seat_service.Store.Sets.{
  create_each, create_many_seats, create_version_row, versions_clash,
}
use omnixys_seat_service.Audit.{log_change}
use omnixys_seat_service.Layout.Versions.{save_layout_version}
use omnixys_seat_service.Layout.Copy.{
  copy_name, copied_seat, copied_table, copied_section, copy_rows, copy_tables, seats_of, tables_of,
  duplicate_table, clone_section,
}
use omnixys_seat_service.Layout.Copies.Growth.{
  Among, Among-All, Among-select, Grows, Leaves, Grows-refl, Grows-trans, Leaves-bind, Leaves-gets,
  Leaves-or_raise, new_id-Leaves, log_change-Leaves, create_table_row-Leaves,
  create_section_row-Leaves, create_many_seats-Leaves, save_layout_version-Leaves,
}

-- A copy has what a seat says of itself, nobody who holds it, and a place of its own.
pub record IsCopy (s : Seat) (section table : Uuid) (c : Seat) : Type 0 where
  pub section_id : c.section_id ≡ section
  pub table_id : c.table_id ≡ some table
  pub event : c.event_id ≡ s.event_id
  pub status : c.status ≡ s.status
  pub kind : c.seat_type ≡ s.seat_type
  pub number : c.number ≡ s.number
  pub label : c.label ≡ s.label
  pub guest : c.guest_id ≡ none
  pub invitation : c.invitation_id ≡ none

-- There is a copy of each of the seats, at the table and in the section that is given or in the seat's.
abbrev pub AreCopied : Option Uuid → Uuid → List Seat → List Seat → Type 0
AreCopied section table seats rows =
    All (λ s. (c : Seat) × Among c rows × IsCopy s (or_default section s.section_id) table c) seats

module _ (e : Env) where
  copy_rows-Leaves :
      (section : Option Uuid) (table : Uuid) (dx dy : ℤ) (seats : List Seat) (s : Db)
      → Leaves
          (λ rows _. AreCopied section table seats rows)
          s
          (copy_rows e section table dx dy seats s)
  unfolding copy_rows
  copy_rows-Leaves section table dx dy [] s = (Grows-refl s, tt)
  copy_rows-Leaves section table dx dy (x ∷ rest) s =
      Leaves-bind (λ _ _. Unit) _ _ _ s (new_id-Leaves e s)
        λ id s1 _ _.
          Leaves-bind (λ rows _. AreCopied section table rest rows) _ _ _ s1
            (copy_rows-Leaves section table dx dy rest s1)
            λ more s2 _ h. (
              Grows-refl s2,
              (
                (
                  copied_seat e id (or_default section x.section_id) table dx dy x,
                  inl refl,
                  record {
                    section_id = refl;
                    table_id = refl;
                    event = refl;
                    status = refl;
                    kind = refl;
                    number = refl;
                    label = refl;
                    guest = refl;
                    invitation = refl;
                  },
                ),
                All-weaken _ _ rest (λ y k. (k.0, inr k.1, k.2)) h,
              ),
            )

  copied-grow :
      (section : Option Uuid) (table : Uuid) (seats rows rows' : List Seat)
      → ((r : Seat) → Among r rows → Among r rows')
      → AreCopied section table seats rows
      → AreCopied section table seats rows'
  copied-grow section table seats rows rows' grow h =
      All-weaken _ _ seats (λ s k. (k.0, grow k.0 k.1, k.2)) h

  copy_seats-Leaves :
      {B : Type 0} (section : Option Uuid) (table : Uuid) (dx dy : ℤ) (seats : List Seat)
      (R : B → Db → Type 0) (f : Exec B) (s : Db)
      → ((s' : Db) → Grows s s' → AreCopied section table seats s'.seats → Leaves R s' (f s'))
      → Leaves R s ((do rows ← copy_rows e section table dx dy seats; create_many_seats rows; f) s)
  copy_seats-Leaves section table dx dy seats R f s next =
      Leaves-bind (λ rows _. AreCopied section table seats rows) R _ _ s
        (copy_rows-Leaves section table dx dy seats s)
        λ rows s1 g h.
          Leaves-bind (λ _ s2. (r : Seat) → Among r rows → Among r s2.seats) R _ _ s1
            (create_many_seats-Leaves rows s1)
            λ _ s2 g2 k.
              next s2 (Grows-trans s s1 s2 g g2) (copied-grow section table seats rows s2.seats k h)

  -- Each table has a copy in the section, and each seat of it has one at that table and in that section.
  abbrev pub AreTablesCopied : Uuid → List (Table × List Seat) → Db → Type 0
  AreTablesCopied section tables s =
      All
        (λ p.
          (t : Table) × Among t s.tables
          × (t.section_id ≡ section)
          × (t.name ≡ copy_name p.0.name)
          × AreCopied (some section) t.id p.1 s.seats)
        tables

  grown-AreTablesCopied :
      (section : Uuid) (tables : List (Table × List Seat)) (s s' : Db)
      → Grows s s'
      → AreTablesCopied section tables s
      → AreTablesCopied section tables s'
  grown-AreTablesCopied section tables s s' g h =
      All-weaken _ _ tables
        (λ p k. (
          k.0,
          g.tables k.0 k.1,
          k.2,
          k.3,
          copied-grow (some section) k.0.id p.1 s.seats s'.seats g.seats k.4,
        ))
        h

  copy_tables-Leaves :
      (input : CloneSectionInput) (event section : Uuid) (tables : List (Table × List Seat))
      (s : Db)
      → Leaves
          (λ _ s'. AreTablesCopied section tables s')
          s
          (copy_tables e input event section tables s)
  unfolding copy_tables
  copy_tables-Leaves input event section [] s = (Grows-refl s, tt)
  copy_tables-Leaves input event section ((t, seats) ∷ rest) s =
      let R : Unit {0} → Db → Type 0 = λ _ s'. AreTablesCopied section ((t, seats) ∷ rest) s' in
      Leaves-bind (λ _ _. Unit) R _ _ s (new_id-Leaves e s)
        λ id s1 _ _.
          let row = copied_table e id event section t.order input.offset_x input.offset_y t in
          Leaves-bind (λ r s'. (r ≡ row) × Among row s'.tables) R _ _ s1
            (create_table_row-Leaves row s1)
            λ clone s2 _ h.
              copy_seats-Leaves (some section) clone.id input.offset_x input.offset_y seats R _ s2
                λ s3 g3 k.
                  Post-weaken _ _ _ (copy_tables e input event section rest s3)
                    (copy_tables-Leaves input event section rest s3)
                    λ _ s4 m. (
                      m.0,
                      (
                        (
                          clone,
                          subst (λ r. Among r s4.tables) (sym h.0)
                              (m.0.tables row (g3.tables row h.1)),
                          ap (λ r. r.section_id) h.0,
                          ap (λ r. r.name) h.0,
                          copied-grow (some section) clone.id seats s3.seats s4.seats m.0.seats k,
                        ),
                        m.1,
                      ),
                    )

  -- The log and the version at the end of both.
  close-Leaves :
      {B : Type 0} (event actor : Uuid) (change : LayoutChangeType) (payload : ChangePayload)
      (input : SaveLayoutVersionInput) (R : B → Db → Type 0) (b : B) (s : Db)
      → ((s' : Db) → Grows s s' → R b s')
      → Leaves R s (
          (do
            log_change e event actor change payload
            saved ← save_layout_version e input actor
            pure b)
            s)
  close-Leaves event actor change payload input R b s h =
      Leaves-bind (λ _ _. Unit) R _ _ s (log_change-Leaves e event actor change payload s)
        λ _ s1 g1 _.
          Leaves-bind (λ _ _. Unit) R _ _ s1 (save_layout_version-Leaves e input actor s1)
            λ _ s2 g2 _. (Grows-refl s2, h s2 (Grows-trans s s1 s2 g1 g2))

  clone_section-Leaves :
      (input : CloneSectionInput) (actor : Uuid) (db : Db) (section : Section)
      → find_section input.section_id db ≡ some section
      → Leaves
          (λ clone s.
            (clone.event_id ≡ section.event_id)
            × (clone.name ≡ copy_name section.name)
            × AreTablesCopied clone.id (tables_of section.id db) s)
          db
          (clone_section e input actor db)
  unfolding clone_section
  clone_section-Leaves input actor db section found =
      let R : Section → Db → Type 0 = λ clone s.
        (clone.event_id ≡ section.event_id)
        × (clone.name ≡ copy_name section.name)
        × AreTablesCopied clone.id (tables_of section.id db) s in
      Leaves-gets R _ db _ (
        Leaves-or_raise R _ db _ _ section found (
          Leaves-gets R _ db _ (
            Leaves-gets R _ db _ (
              Leaves-bind (λ _ _. Unit) R _ _ db (new_id-Leaves e db)
                λ id s1 _ _.
                  Leaves-bind _ R _ _ s1 (create_section_row-Leaves _ s1) λ clone s2 _ same.
                    Leaves-bind _ R _ _ s2
                      (copy_tables-Leaves input section.event_id clone.id (tables_of section.id db)
                        s2)
                      λ _ s3 _ h. close-Leaves section.event_id actor _ _ _ R clone s3 λ s4 g. (
                        ap (λ c. c.event_id) same,
                        ap (λ c. c.name) same,
                        grown-AreTablesCopied clone.id (tables_of section.id db) s3 s4 g h,
                      )))))

  pub duplicate_table-Leaves :
      (input : DuplicateTableInput) (actor : Uuid) (db : Db) (table : Table)
      → find_table input.table_id db ≡ some table
      → Leaves
          (λ clone s. AreCopied none clone.id (seats_of table.id db) s.seats)
          db
          (duplicate_table e input actor db)
  unfolding duplicate_table
  duplicate_table-Leaves input actor db table found =
      let R : Table → Db → Type 0 =
        λ clone s. AreCopied none clone.id (seats_of table.id db) s.seats in
      Leaves-gets R _ db _ (
        Leaves-or_raise R _ db _ _ table found (
          Leaves-gets R _ db _ (
            Leaves-gets R _ db _ (
              Leaves-bind (λ _ _. Unit) R _ _ db (new_id-Leaves e db)
                λ id s1 _ _. Leaves-bind _ R _ _ s1 (create_table_row-Leaves _ s1) λ clone s2 _ _.
                  copy_seats-Leaves none clone.id input.offset_x input.offset_y
                    (seats_of table.id db) R _ s2
                    λ s3 _ h. close-Leaves table.event_id actor _ _ _ R clone s3 λ s4 g.
                      copied-grow none clone.id (seats_of table.id db) s3.seats s4.seats g.seats
                        h))))

module _ {A B : Type 0} where
  pub Among-map : (f : A → B) (a : A) (xs : List A) → Among a xs → Among (f a) (map f xs)
  Among-map f a [] m = absurd m
  Among-map f a (x ∷ xs) (inl e) = inl (ap f e)
  Among-map f a (x ∷ xs) (inr m) = inr (Among-map f a xs m)

-- The action returned, so that its condition holds.
pub Leaves-ok :
    {A : Type 0} (Q : A → Db → Type 0) (s s' : Db) (a : A) (r : Result A × Db)
    → Leaves Q s r
    → r ≡ (ok a, s')
    → Grows s s' × Q a s'
Leaves-ok Q s s' a r h e = subst (Leaves Q s) e h

-- When cloneSection returns a section, this has the event of the one that is cloned and its name with
-- "_copy" after it; each table of that section has a copy in the new one, with "_copy" after its name; each
-- seat at the table has a copy at the table's copy and in the new section, of the same status, type, number
-- and label, which nobody holds; and the tables and seats that were there are there still.
pub clone_section-copies :
    (e : Env) (input : CloneSectionInput) (actor : Uuid) (db db' : Db) (section clone : Section)
    (t : Table)
    → find_section input.section_id db ≡ some section
    → clone_section e input actor db ≡ (ok clone, db')
    → Among t db.tables
    → t.section_id ≡ section.id
    → Grows db db'
      × (clone.event_id ≡ section.event_id)
      × (clone.name ≡ copy_name section.name)
      × ((t' : Table) × Among t' db'.tables
          × (t'.section_id ≡ clone.id)
          × (t'.name ≡ copy_name t.name)
          × AreCopied
              (some clone.id)
              t'.id
              (select (λ r. holds r.table_id t.id) db.seats)
              db'.seats)
clone_section-copies e input actor db db' section clone t found done there own =
    let h =
      Leaves-ok _ db db' clone (clone_section e input actor db)
        (clone_section-Leaves e input actor db section found) done in
    (
      h.0,
      h.1.0,
      h.1.1,
      Among-All _ (t, seats_of t.id db) (tables_of section.id db) h.1.2
          (Among-map (λ t. (t, seats_of t.id db)) t _
            (Among-select (λ t. t.section_id == section.id) t db.tables there
              ((==_iff t.section_id section.id).1 own))),
    )
