-- ===== src/Store/Tables.antt =====
-- The queries of the Prisma client on the tables that hold seats, with the unique keys, the
-- foreign keys and the cascades that prisma/schema.prisma declares. Where a query has no
-- `orderBy` the rows come in the order in which they were inserted.
use omnixys_seat_service.Base.{
  ℕ, suc, Bool, true, false, not, ◌&&◌, ◌||◌, Option, none, some, List, [], ◌∷◌, ◌++◌, ◌==◌, str_eq,
  ltb, if◌then◌else◌, find, select, any, every, count_if, update_if, holds, is_some,
}
use omnixys_seat_service.Store.Rows.{Uuid, Seat, Section, Table, SeatAssignmentAction, LogData, Db}
use omnixys_seat_service.Store.Exec.{
  unique_violation, foreign_key_violation, record_not_found, Env, Exec, pure, raise, gets, modify,
  ◌>>=◌, ◌>>◌,
}

-- `@default(uuid())`
unfoldable pub new_id : Env → Exec Uuid
unfolding ◌>>=◌
new_id e = do n ← gets (λ s. s.draws); modify (λ s. record s { draws = suc n }); pure (e.uuid n)

-- No two rows clash.
unfoldable pub keys_ok : {A : Type 0} → (A → A → Bool) → List A → Bool
keys_ok clash [] = true
keys_ok clash (x ∷ rest) = every (λ y. not (clash x y)) rest && keys_ok clash rest

-- Both columns hold a value and it is the same one: nulls are distinct in a unique key.
abbrev pub collide : Option Uuid → Option Uuid → Bool
collide none b = false
collide (some m) none = false
collide (some m) (some n) = m == n

-- The unique keys of `Seat`: its id, [eventId, guestId] and [eventId, invitationId].
abbrev pub seats_clash : Seat → Seat → Bool
seats_clash s t =
    s.id == t.id
    || (s.event_id == t.event_id
        && (collide s.guest_id t.guest_id || collide s.invitation_id t.invitation_id))

abbrev pub seats_ok : List Seat → Bool
seats_ok rows = keys_ok seats_clash rows

-- The unique keys of `Section` and `Table`.
abbrev pub sections_clash : Section → Section → Bool
sections_clash s t = s.id == t.id || (s.event_id == t.event_id && str_eq s.name t.name)

abbrev pub sections_ok : List Section → Bool
sections_ok rows = keys_ok sections_clash rows

abbrev pub tables_clash : Table → Table → Bool
tables_clash s t = s.id == t.id || (s.section_id == t.section_id && str_eq s.name t.name)

abbrev pub tables_ok : List Table → Bool
tables_ok rows = keys_ok tables_clash rows

-- A statement that would break a unique key is refused as a whole.
unfoldable pub write_seats : List Seat → Exec Unit
write_seats rows s =
    if seats_ok rows then modify (λ s. record s { seats = rows }) s else raise unique_violation s

unfoldable pub write_sections : List Section → Exec Unit
write_sections rows s =
    if sections_ok rows
    then modify (λ s. record s { sections = rows }) s
    else raise unique_violation s

unfoldable pub write_tables : List Table → Exec Unit
write_tables rows s =
    if tables_ok rows then modify (λ s. record s { tables = rows }) s else raise unique_violation s

abbrev pub find_seat : Uuid → Db → Option Seat
find_seat id s = find (λ r. r.id == id) s.seats

abbrev pub find_section : Uuid → Db → Option Section
find_section id s = find (λ r. r.id == id) s.sections

abbrev pub find_table : Uuid → Db → Option Table
find_table id s = find (λ r. r.id == id) s.tables

-- `seat.updateMany`: the number of rows that were changed.
unfoldable pub update_many_seats : (Seat → Bool) → (Seat → Seat) → Exec ℕ
unfolding write_seats ◌>>=◌
update_many_seats p f = do
  rows ← gets (λ s. s.seats)
  write_seats (update_if p f rows)
  pure (count_if p rows)

-- `seat.update` by id
abbrev pub update_seat_row : Uuid → (Seat → Seat) → Option Seat → Exec Seat
unfolding ◌>>=◌
update_seat_row id f none = raise record_not_found
update_seat_row id f (some r) = do count ← update_many_seats (λ s. s.id == id) f; pure (f r)

unfoldable pub update_seat_at : Uuid → (Seat → Seat) → Exec Seat
unfolding update_many_seats ◌>>=◌
update_seat_at id f = do found ← gets (find_seat id); update_seat_row id f found

abbrev pub update_section_row : Uuid → (Section → Section) → Option Section → Exec Section
unfolding ◌>>=◌
update_section_row id f none = raise record_not_found
update_section_row id f (some r) = do
  rows ← gets (λ s. s.sections)
  write_sections (update_if (λ s. s.id == id) f rows)
  pure (f r)

unfoldable pub update_section_at : Uuid → (Section → Section) → Exec Section
unfolding write_sections ◌>>=◌
update_section_at id f = do found ← gets (find_section id); update_section_row id f found

abbrev pub update_table_row : Uuid → (Table → Table) → Option Table → Exec Table
unfolding ◌>>=◌
update_table_row id f none = raise record_not_found
update_table_row id f (some r) = do
  rows ← gets (λ s. s.tables)
  write_tables (update_if (λ s. s.id == id) f rows)
  pure (f r)

unfoldable pub update_table_at : Uuid → (Table → Table) → Exec Table
unfolding write_tables ◌>>=◌
update_table_at id f = do found ← gets (find_table id); update_table_row id f found

-- The foreign keys of a seat: its section, and its table if it has one.
abbrev pub has_table : Option Uuid → Db → Bool
has_table none s = true
has_table (some id) s = is_some (find_table id s)

unfoldable pub create_seat_row : Seat → Exec Seat
unfolding write_seats ◌>>=◌
create_seat_row r = do
  known ← gets (λ s. is_some (find_section r.section_id s) && has_table r.table_id s)
  rows ← gets (λ s. s.seats)
  if known then (do write_seats (rows ++ r ∷ []); pure r) else raise foreign_key_violation

unfoldable pub create_section_row : Section → Exec Section
unfolding write_sections ◌>>=◌
create_section_row r = do rows ← gets (λ s. s.sections); write_sections (rows ++ r ∷ []); pure r

unfoldable pub create_table_row : Table → Exec Table
unfolding write_tables ◌>>=◌
create_table_row r = do
  known ← gets (λ s. is_some (find_section r.section_id s))
  rows ← gets (λ s. s.tables)
  if known then (do write_tables (rows ++ r ∷ []); pure r) else raise foreign_key_violation

abbrev pub lacks_seat : Uuid → Seat → Bool
lacks_seat id r = not (r.id == id)

unfoldable pub delete_seat_row : Uuid → Exec Unit
delete_seat_row id = modify (λ s. record s { seats = select (lacks_seat id) s.seats })

-- A seat goes with its table.
abbrev pub outside_table : Uuid → Seat → Bool
outside_table id r = not (holds r.table_id id)

unfoldable pub delete_table_row : Uuid → Exec Unit
delete_table_row id = modify λ s. record s {
  tables = select (λ t. not (t.id == id)) s.tables;
  seats = select (outside_table id) s.seats;
}

-- A table and a seat go with their section, and a seat with such a table.
abbrev pub in_tables : List Table → Option Uuid → Bool
in_tables ts none = false
in_tables ts (some id) = any (λ t. t.id == id) ts

abbrev pub outside_section : Uuid → List Table → Seat → Bool
outside_section id gone r = not (r.section_id == id) && not (in_tables gone r.table_id)

unfoldable pub delete_section_row : Uuid → Exec Unit
delete_section_row id = modify λ s. record s {
  sections = select (λ r. not (r.id == id)) s.sections;
  tables = select (λ t. not (t.section_id == id)) s.tables;
  seats = select (outside_section id (select (λ t. t.section_id == id) s.tables)) s.seats;
}

-- `findFirst … orderBy: { createdAt: 'asc' }`
earlier : Seat → Option Seat → Option Seat
earlier r none = some r
earlier r (some best) = if ltb best.created_at r.created_at then some best else some r

unfoldable pub find_earliest : (Seat → Bool) → List Seat → Option Seat
unfolding earlier
find_earliest p [] = none
find_earliest p (r ∷ rs) = let best = find_earliest p rs in if p r then earlier r best else best

unfoldable pub log_assignment :
    Env → Uuid → Uuid → Option Uuid → Option Uuid → SeatAssignmentAction → LogData → Exec Unit
unfolding new_id ◌>>=◌
log_assignment e event seat guest invitation action details = do
  id ← new_id e
  modify λ s. record s {
    assignment_logs =
        s.assignment_logs
        ++ record {
          id = id;
          event_id = event;
          seat_id = seat;
          guest_id = guest;
          invitation_id = invitation;
          action = action;
          details = details;
          created_at = e.now;
        }
          ∷ [];
  }
