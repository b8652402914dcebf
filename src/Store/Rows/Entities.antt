-- ===== src/Store/Rows/Entities.antt =====
-- The rows of sections, tables, seats and assignment logs (prisma/schema.prisma).
-- An id is a UUID: it is only compared, and is a number here. Coordinates are integers.
use omnixys_seat_service.Base.{ℕ, String, Option}
use omnixys_seat_service.Base.Int.{ℤ}
use omnixys_seat_service.Meta.{Json}

abbrev pub Uuid : Type 0
Uuid = ℕ

-- Milliseconds since the epoch.
abbrev pub Time : Type 0
Time = ℕ

pub data SeatStatus : Type 0 where
  available reserved assigned blocked : SeatStatus

pub data SeatType : Type 0 where
  standard vip staff standing child reserved : SeatType

pub data SeatShape : Type 0 where
  circle square rectangle : SeatShape

pub data TableShape : Type 0 where
  round rectangle oval row : TableShape

pub data SectionShape : Type 0 where
  rectangle circle polygon : SectionShape

pub record Seat : Type 0 where
  pub id : Uuid
  pub status : SeatStatus
  pub event_id : Uuid
  pub section_id : Uuid
  pub table_id : Option Uuid
  pub number : Option ℤ
  pub label : Option String
  pub note : Option String
  pub seat_type : Option SeatType
  pub shape : SeatShape
  pub x : Option ℤ
  pub y : Option ℤ
  pub rotation : Option ℤ
  pub guest_id : Option Uuid
  pub invitation_id : Option Uuid
  pub meta : Json
  pub created_at : Time

pub record Section : Type 0 where
  pub id : Uuid
  pub event_id : Uuid
  pub name : String
  pub order : ℤ
  pub capacity : Option ℤ
  pub shape : SectionShape
  pub x : ℤ
  pub y : ℤ
  pub width : Option ℤ
  pub height : Option ℤ
  pub meta : Json

pub record Table : Type 0 where
  pub id : Uuid
  pub event_id : Uuid
  pub section_id : Uuid
  pub name : String
  pub order : ℤ
  pub capacity : Option ℤ
  pub shape : TableShape
  pub x : ℤ
  pub y : ℤ
  pub width : Option ℤ
  pub height : Option ℤ
  pub rotation : Option ℤ
  pub meta : Json

pub data SeatAssignmentAction : Type 0 where
  assigned unassigned moved : SeatAssignmentAction

-- `data` is `{}` but for a seat that was freed for its holder's next one.
pub data LogData : Type 0 where
  empty : LogData
  reassigned : Uuid → LogData

pub record SeatAssignmentLog : Type 0 where
  pub id : Uuid
  pub event_id : Uuid
  pub seat_id : Uuid
  pub guest_id : Option Uuid
  pub invitation_id : Option Uuid
  pub action : SeatAssignmentAction
  pub details : LogData
  pub created_at : Time
