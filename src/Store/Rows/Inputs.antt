-- ===== src/Store/Rows/Inputs.antt =====
-- The inputs of the mutations on seats, sections, tables and layouts.
use omnixys_seat_service.Base.{ℕ, String, Bool, Option, List}
use omnixys_seat_service.Base.Int.{ℤ}
use omnixys_seat_service.Meta.{Json}
use omnixys_seat_service.Store.Rows.Entities.{Uuid, SeatType, TableShape, SectionShape}

pub record CreateSeatInput : Type 0 where
  pub event_id : Uuid
  pub section_id : Uuid
  pub table_id : Option Uuid
  pub number : Option ℤ
  pub label : Option String
  pub note : Option String
  pub x : Option ℤ
  pub y : Option ℤ
  pub rotation : Option ℤ
  pub seat_type : Option SeatType
  pub meta : Json

pub record UpdateSeatInput : Type 0 where
  pub id : Uuid
  pub label : Option String
  pub note : Option String
  pub number : Option ℤ
  pub seat_type : Option SeatType
  pub x : Option ℤ
  pub y : Option ℤ
  pub rotation : Option ℤ
  pub meta : Json

pub record AssignSeatInput : Type 0 where
  pub seat_id : Uuid
  pub guest_id : Option Uuid
  pub invitation_id : Option Uuid
  pub note : Option String

pub record AssignSeatDto : Type 0 where
  pub seat_id : Option Uuid
  pub guest_id : Uuid
  pub invitation_id : Option Uuid
  pub event_id : Uuid
  pub note : Option String
  pub actor_id : Uuid

pub record CreateSectionInput : Type 0 where
  pub event_id : Uuid
  pub name : String
  pub order : Option ℤ
  pub capacity : Option ℤ
  pub meta : Json
  pub x : Option ℤ
  pub y : Option ℤ
  pub width : Option ℤ
  pub height : Option ℤ

pub record UpdateSectionInput : Type 0 where
  pub id : Uuid
  pub name : Option String
  pub order : Option ℤ
  pub capacity : Option ℤ
  pub shape : Option SectionShape
  pub x : Option ℤ
  pub y : Option ℤ
  pub width : Option ℤ
  pub height : Option ℤ
  pub meta : Json

pub record RenameSectionInput : Type 0 where
  pub section_id : Uuid
  pub new_name : String

pub record CreateTableInput : Type 0 where
  pub event_id : Uuid
  pub section_id : Uuid
  pub name : String
  pub order : Option ℤ
  pub capacity : Option ℤ
  pub shape : Option TableShape
  pub x : Option ℤ
  pub y : Option ℤ
  pub width : Option ℤ
  pub height : Option ℤ
  pub rotation : Option ℤ
  pub meta : Json

pub record UpdateTableInput : Type 0 where
  pub id : Uuid
  pub name : Option String
  pub order : Option ℤ
  pub capacity : Option ℤ
  pub shape : Option TableShape
  pub x : Option ℤ
  pub y : Option ℤ
  pub width : Option ℤ
  pub height : Option ℤ
  pub rotation : Option ℤ
  pub meta : Json

pub record RenameTableInput : Type 0 where
  pub table_id : Uuid
  pub new_name : String

-- layout/models/inputs: what the generator is asked for. The shapes are fields with no declared type,
-- so any text comes through. Counts are not negative here.
pub record SeatConfigInput : Type 0 where
  pub count : ℕ
  pub shape : String
  pub meta : Json

pub record TableConfigInput : Type 0 where
  pub name : Option String
  pub shape : String
  pub seats : SeatConfigInput
  pub order : Option ℕ
  pub meta : Json

pub record SectionInput : Type 0 where
  pub name : String
  pub shape : String
  pub tables : List TableConfigInput
  pub order : Option ℕ
  pub meta : Json

pub record AutoGenerateLayoutInput : Type 0 where
  pub event_id : Uuid
  pub sections : List SectionInput
  pub adaptive_radius : Bool

pub record AutoGenerateSeatMapInput : Type 0 where
  pub event_id : Uuid
  pub section_name : String
  pub seat_count : ℕ
  pub table_count : ℕ
  pub table_shape : TableShape
  pub section_layout : SectionShape

pub record MoveSeatInput : Type 0 where
  pub id : Uuid
  pub x : ℤ
  pub y : ℤ
  pub rotation : Option ℤ

pub record MoveSectionInput : Type 0 where
  pub id : Uuid
  pub x : ℤ
  pub y : ℤ

pub record MoveTableInput : Type 0 where
  pub id : Uuid
  pub x : ℤ
  pub y : ℤ

pub record SaveLayoutVersionInput : Type 0 where
  pub event_id : Uuid
  pub version : ℕ
  pub label : Option String

pub record DuplicateTableInput : Type 0 where
  pub table_id : Uuid
  pub offset_x : ℤ
  pub offset_y : ℤ

pub record CloneSectionInput : Type 0 where
  pub section_id : Uuid
  pub offset_x : ℤ
  pub offset_y : ℤ
