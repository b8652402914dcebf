-- ===== src/Tests/Data.antt =====
-- A request context and a small event: section 1 with table 2, and seats 10 (free), 11 (held by
-- guest 100) and 12 (held by invitation 200).
use omnixys_seat_service.Base.{ℕ, ◌+◌, true, Option, none, some, [], ◌∷◌}
use omnixys_seat_service.Base.Int.{pos, ◌+ℤ◌}
use omnixys_seat_service.Meta.{null}
use omnixys_seat_service.Store.Rows.{
  SeatStatus, SeatShape, TableShape, SectionShape, Seat, Section, Table, Db, AssignSeatInput,
}
use omnixys_seat_service.Store.Exec.{Env, Floats}

abbrev pub floats : Floats
floats = record {
  of_ℕ = pos;
  add = λ a b. a +ℤ b;
  sub = λ a b. a;
  mul = λ a b. a;
  div = λ a b. a;
  neg = λ a. a;
  min = λ a b. a;
  max = λ a b. b;
  cos = λ a. a;
  sin = λ a. a;
  sqrt = λ a. a;
  pi = pos 3;
  infinity = pos 999999;
  ceil = λ a. 2;
}

abbrev pub env : Env
env = record {
  now = 1000;
  uuid = λ n. 5000 + n;
  tenant_id = some 7;
  is_uuid = λ _. true;
  accepts = λ _. true;
  correlation_id = none;
  principal_id = some 1;
  compare = λ _ _. null;
  floats = floats;
}

abbrev pub seat_row : ℕ → SeatStatus → Option ℕ → Option ℕ → Seat
seat_row id status guest invitation = record {
  id = id;
  status = status;
  event_id = 9;
  section_id = 1;
  table_id = some 2;
  number = none;
  label = none;
  note = none;
  seat_type = none;
  shape = SeatShape.circle;
  x = none;
  y = none;
  rotation = none;
  guest_id = guest;
  invitation_id = invitation;
  meta = null;
  created_at = id;
}

abbrev pub free_seat_row : Seat
free_seat_row = seat_row 10 SeatStatus.available none none

abbrev pub held_seat_row : Seat
held_seat_row = seat_row 11 SeatStatus.assigned (some 100) none

abbrev pub section_row : ℕ → Section
section_row id = record {
  id = id;
  event_id = 9;
  name = "Hall";
  order = pos 1;
  capacity = none;
  shape = SectionShape.rectangle;
  x = pos 0;
  y = pos 0;
  width = none;
  height = none;
  meta = null;
}

abbrev pub table_row : ℕ → Table
table_row id = record {
  id = id;
  event_id = 9;
  section_id = 1;
  name = "Table 1";
  order = pos 1;
  capacity = none;
  shape = TableShape.round;
  x = pos 0;
  y = pos 0;
  width = none;
  height = none;
  rotation = none;
  meta = null;
}

abbrev pub event_db : Db
event_db = record {
  sections = section_row 1 ∷ [];
  tables = table_row 2 ∷ [];
  seats = free_seat_row ∷ held_seat_row ∷ seat_row 12 SeatStatus.assigned none (some 200) ∷ [];
  assignment_logs = [];
  change_logs = [];
  layout_versions = [];
  outbox = [];
  draws = 0;
}

-- Guest 100 takes seat 10, and guest 101 asks for seat 11.
abbrev pub move_guest : AssignSeatInput
move_guest = record { seat_id = 10; guest_id = some 100; invitation_id = none; note = none }

abbrev pub take_held : AssignSeatInput
take_held = record { seat_id = 11; guest_id = some 101; invitation_id = none; note = none }
