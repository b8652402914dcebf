-- ===== src/Layout/Restore.antt =====
-- What the statements of a restore keep, the restore keeps (restoreVersion of
-- layout/services/layout-write.service.ts).
use omnixys_seat_service.Base.{Bool, Option, none, some, List, [], ◌∷◌}
use omnixys_seat_service.Store.Rows.{
  Uuid, Seat, Section, Table, SectionSnapshot, TableSnapshot, SeatSnapshot, LayoutSnapshot,
  LayoutVersion, Db,
}
use omnixys_seat_service.Store.Exec.{Env}
use omnixys_seat_service.Store.Keeps.{Keeps, Keeps-pure, Keeps-bind, Keeps-transaction}
use omnixys_seat_service.Store.Tables.{
  new_id, create_seat_row, create_section_row, create_table_row,
}
use omnixys_seat_service.Store.Sets.{
  delete_seats, delete_tables, delete_sections, create_each, create_many_seats,
}
use omnixys_seat_service.Layout.Versions.{
  Ids, restore_sections, restore_table, restore_tables, seat_rows, rebuild, restore_version,
  restore_found,
}

-- The statements that insert sections and tables keep the invariant.
pub record NewLaws (P : Db → Type 0) : Type 0 where
  pub id : (e : Env) → Keeps P (new_id e)
  pub section : (r : Section) → Keeps P (create_section_row r)
  pub table : (r : Table) → Keeps P (create_table_row r)

-- All statements of a restore do.
pub record RowLaws (P : Db → Type 0) : Type 0 where
  pub new : NewLaws P
  pub seat : (r : Seat) → Keeps P (create_seat_row r)
  pub no_seats : (p : Seat → Bool) → Keeps P (delete_seats p)
  pub no_tables : (p : Table → Bool) → Keeps P (delete_tables p)
  pub no_sections : (p : Section → Bool) → Keeps P (delete_sections p)

module _ {P : Db → Type 0} (laws : NewLaws P) (e : Env) (event : Uuid) where
  pub restore_sections-Keeps :
      (ids : Ids) (rest : List SectionSnapshot) → Keeps P (restore_sections e event ids rest)
  unfolding restore_sections
  restore_sections-Keeps ids [] = Keeps-pure ids
  restore_sections-Keeps ids (s ∷ rest) =
      Keeps-bind _ _ (laws.id e)
        λ id. Keeps-bind _ _ (laws.section _) λ created. restore_sections-Keeps _ rest

  restore_table-Keeps :
      (ids : Ids) (t : TableSnapshot) (section : Option Uuid)
      → Keeps P (restore_table e event ids t section)
  restore_table-Keeps ids t none = Keeps-pure ids
  restore_table-Keeps ids t (some section) =
      Keeps-bind _ _ (laws.id e) λ id. Keeps-bind _ _ (laws.table _) λ created. Keeps-pure _

  pub restore_tables-Keeps :
      (sections ids : Ids) (rest : List TableSnapshot)
      → Keeps P (restore_tables e event sections ids rest)
  unfolding restore_tables
  restore_tables-Keeps sections ids [] = Keeps-pure ids
  restore_tables-Keeps sections ids (t ∷ rest) =
      Keeps-bind _ _ (restore_table-Keeps ids t _) λ next. restore_tables-Keeps sections next rest

  pub seat_rows-Keeps :
      (sections tables : Ids) (rest : List SeatSnapshot)
      → Keeps P (seat_rows e event sections tables rest)
  unfolding seat_rows
  seat_rows-Keeps sections tables [] = Keeps-pure []
  seat_rows-Keeps sections tables (s ∷ rest) =
      Keeps-bind _ _ (laws.id e)
        λ id. Keeps-bind _ _ (seat_rows-Keeps sections tables rest) λ more. Keeps-pure _

module _ {P : Db → Type 0} (laws : RowLaws P) where
  create_each-Keeps : (rows : List Seat) → Keeps P (create_each rows)
  unfolding create_each
  create_each-Keeps [] = Keeps-pure tt
  create_each-Keeps (r ∷ rest) = Keeps-bind _ _ (laws.seat r) λ row. create_each-Keeps rest

  pub create_many_seats-Keeps : (rows : List Seat) → Keeps P (create_many_seats rows)
  unfolding create_many_seats
  create_many_seats-Keeps rows = Keeps-transaction _ (create_each-Keeps rows)

  module _ (e : Env) (event : Uuid) where
    rebuild-Keeps : (snapshot : LayoutSnapshot) → Keeps P (rebuild e event snapshot)
    unfolding rebuild
    rebuild-Keeps snapshot = Keeps-bind _ _ (laws.no_seats _) λ _.
        Keeps-bind _ _ (laws.no_tables _) λ _. Keeps-bind _ _ (laws.no_sections _) λ _.
          Keeps-bind _ _ (restore_sections-Keeps laws.new e event [] snapshot.sections) λ sections.
            Keeps-bind _ _ (restore_tables-Keeps laws.new e event sections [] snapshot.tables)
              λ tables.
                Keeps-bind _ _ (seat_rows-Keeps laws.new e event sections tables snapshot.seats)
                  λ rows. create_many_seats-Keeps rows

    pub restore_found-Keeps : (v : Option LayoutVersion) → Keeps P (restore_found e event v)
    unfolding restore_version
    restore_found-Keeps none = Keeps-pure _
    restore_found-Keeps (some v) =
        Keeps-bind _ _ (Keeps-transaction _ (rebuild-Keeps _)) λ done. Keeps-pure _
