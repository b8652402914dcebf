-- ===== src/Store/Sets.antt =====
-- The queries of the Prisma client on sets of rows (`deleteMany` with the cascades of
-- prisma/schema.prisma, `createMany`), and those on layout versions.
use omnixys_seat_service.Base.{
  Bool, not, ◌&&◌, ◌||◌, Option, none, some, List, [], ◌∷◌, ◌++◌, ◌==◌, ltb, if◌then◌else◌, select,
  any,
}
use omnixys_seat_service.Store.Rows.{Uuid, Seat, Section, Table, LayoutVersion}
use omnixys_seat_service.Store.Exec.{
  unique_violation, Exec, pure, raise, gets, modify, transaction, ◌>>=◌, ◌>>◌,
}
use omnixys_seat_service.Store.Tables.{keys_ok, in_tables, create_seat_row}

-- `where: { id: … }` of a cascade, among the sections that are deleted.
abbrev pub in_sections : List Section → Uuid → Bool
in_sections rows id = any (λ r. r.id == id) rows

unfoldable pub delete_seats : (Seat → Bool) → Exec Unit
delete_seats p = modify λ s. record s { seats = select (λ r. not (p r)) s.seats }

-- The seats at a table go with it.
unfoldable pub delete_tables : (Table → Bool) → Exec Unit
delete_tables p = modify λ s. record s {
  tables = select (λ t. not (p t)) s.tables;
  seats = select (λ r. not (in_tables (select p s.tables) r.table_id)) s.seats;
}

-- The tables of a section go with it, its seats, and the seats at such tables.
abbrev pub goes_with : List Section → List Table → Seat → Bool
goes_with sections tables r = in_sections sections r.section_id || in_tables tables r.table_id

unfoldable pub delete_sections : (Section → Bool) → Exec Unit
delete_sections p = modify λ s.
    let gone = select p s.sections in
    record s {
      sections = select (λ r. not (p r)) s.sections;
      tables = select (λ t. not (in_sections gone t.section_id)) s.tables;
      seats =
          select
            (λ r. not (goes_with gone (select (λ t. in_sections gone t.section_id) s.tables) r))
            s.seats;
    }

-- `seat.createMany`: all rows, or none and an error.
unfoldable pub create_each : List Seat → Exec Unit
create_each [] = pure tt
create_each (r ∷ rest) = do created ← create_seat_row r; create_each rest

unfoldable pub create_many_seats : List Seat → Exec Unit
unfolding create_each
create_many_seats rows = transaction (create_each rows)

-- The unique keys of `LayoutVersion`: its id and [eventId, version].
abbrev pub versions_clash : LayoutVersion → LayoutVersion → Bool
versions_clash v w = v.id == w.id || (v.event_id == w.event_id && v.version == w.version)

unfoldable pub create_version_row : LayoutVersion → Exec LayoutVersion
unfolding ◌>>=◌
create_version_row v = do
  rows ← gets (λ s. s.layout_versions)
  if keys_ok versions_clash (rows ++ v ∷ [])
      then (do modify (λ s. record s { layout_versions = rows ++ v ∷ [] }); pure v)
      else raise unique_violation

-- `findFirst … orderBy: { version: 'desc' }`, and `'asc'`
abbrev pub higher : LayoutVersion → Option LayoutVersion → Option LayoutVersion
higher v none = some v
higher v (some w) = if ltb v.version w.version then some w else some v

abbrev pub lower : LayoutVersion → Option LayoutVersion → Option LayoutVersion
lower v none = some v
lower v (some w) = if ltb w.version v.version then some w else some v

unfoldable pub find_highest : (LayoutVersion → Bool) → List LayoutVersion → Option LayoutVersion
find_highest p [] = none
find_highest p (v ∷ vs) = let best = find_highest p vs in if p v then higher v best else best

unfoldable pub find_lowest : (LayoutVersion → Bool) → List LayoutVersion → Option LayoutVersion
find_lowest p [] = none
find_lowest p (v ∷ vs) = let best = find_lowest p vs in if p v then lower v best else best
