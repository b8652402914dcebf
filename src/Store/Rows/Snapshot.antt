-- ===== src/Store/Rows/Snapshot.antt =====
-- layout/utils/snapshot-serializer.ts: the content of a layout version. A seat's table is `none` where
-- the row has none.
use omnixys_seat_service.Base.{ℕ, String, Option, List}
use omnixys_seat_service.Base.Int.{ℤ}
use omnixys_seat_service.Meta.{Json}
use omnixys_seat_service.Store.Rows.Entities.{
  Uuid, Time, SeatType, SeatStatus, Section, Table, Seat,
}

pub record SectionSnapshot : Type 0 where
  pub id : Uuid
  pub name : String
  pub order : ℤ
  pub x : ℤ
  pub y : ℤ
  pub width : Option ℤ
  pub height : Option ℤ
  pub meta : Json

pub record TableSnapshot : Type 0 where
  pub id : Uuid
  pub section_id : Uuid
  pub name : String
  pub order : ℤ
  pub x : ℤ
  pub y : ℤ
  pub capacity : Option ℤ
  pub meta : Json

pub record SeatSnapshot : Type 0 where
  pub id : Uuid
  pub table_id : Option Uuid
  pub section_id : Uuid
  pub number : ℤ
  pub label : Option String
  pub x : ℤ
  pub y : ℤ
  pub rotation : ℤ
  pub seat_type : Option SeatType
  pub status : SeatStatus
  pub meta : Json

pub record LayoutSnapshot : Type 0 where
  pub sections : List SectionSnapshot
  pub tables : List TableSnapshot
  pub seats : List SeatSnapshot

-- The row of a version. Its patches are never written.
pub record LayoutVersion : Type 0 where
  pub id : Uuid
  pub event_id : Uuid
  pub version : ℕ
  pub label : Option String
  pub snapshot : LayoutSnapshot
  pub created_at : Time

-- The rows of an event, as `loadCurrentLayout` of layout/services/layout-write.service.ts reads them.
pub record CurrentLayout : Type 0 where
  pub sections : List Section
  pub tables : List Table
  pub seats : List Seat
