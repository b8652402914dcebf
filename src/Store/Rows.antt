-- ===== src/Store/Rows.antt =====
-- The logs, the outbox and the database as a whole. The names of the rows, inputs and snapshots are
-- passed on.
mod Entities
mod Inputs
mod Snapshot
pub use Entities.*
pub use Inputs.*
pub use Snapshot.*
use omnixys_seat_service.Base.{ℕ, String, Bool, Option, List}
use omnixys_seat_service.Base.Int.{ℤ}
use omnixys_seat_service.Meta.{Json}

pub data LayoutChangeType : Type 0 where
  section_create section_update section_delete section_moved section_rename : LayoutChangeType
  section_cloned table_create table_update table_delete table_moved table_rename : LayoutChangeType
  table_duplicated seat_create seat_update seat_delete seat_assigned : LayoutChangeType
  seat_unassigned seat_moved seat_assign auto_generate layout_version_saved : LayoutChangeType

pub data ChangePayload : Type 0 where
  created_seat : Seat → ChangePayload
  updated_seat : UpdateSeatInput → ChangePayload
  assigned_seat : AssignSeatInput → ChangePayload
  assigned_guest : AssignSeatDto → ChangePayload
  of_seat : Uuid → ChangePayload
  deleted : Uuid → ChangePayload
  created_section : Section → ChangePayload
  updated_section : UpdateSectionInput → ChangePayload
  created_table : Table → ChangePayload
  updated_table : UpdateTableInput → ChangePayload
  renamed : String → String → Uuid → ChangePayload
  saved_version : ℕ → Uuid → ChangePayload
  generated : AutoGenerateLayoutInput → ChangePayload
  moved_seat : MoveSeatInput → ChangePayload
  moved_section : MoveSectionInput → ChangePayload
  moved_table : MoveTableInput → ChangePayload
  difference : Json → ChangePayload
  copied : Uuid → Uuid → ChangePayload

pub record LayoutChangeLog : Type 0 where
  pub id : Uuid
  pub event_id : Uuid
  pub actor_id : Uuid
  pub change : LayoutChangeType
  pub payload : ChangePayload
  pub created_at : Time

-- The facts that are sent to analytics: `properties` is `reason`, `hasInvitation` or neither.
pub data FactProperties : Type 0 where
  plain : FactProperties
  because_reassigned : FactProperties
  has_invitation : Bool → FactProperties

pub record Fact : Type 0 where
  pub event_name : String
  pub aggregate_id : Uuid
  pub subject_id : Uuid
  pub event_id : Uuid
  pub properties : FactProperties
  pub occurred_at : Time

pub record AnalyticsOutbox : Type 0 where
  pub id : Uuid
  pub tenant_id : Uuid
  pub topic : String
  pub payload : Fact
  pub correlation_id : Option Uuid
  pub actor_id : Option Uuid
  pub attempts : ℕ
  pub next_attempt_at : Time
  pub locked_at : Option Time
  pub locked_by : Option Uuid
  pub published_at : Option Time
  pub dead_lettered_at : Option Time
  pub last_error : Option String
  pub created_at : Time

pub record Db : Type 0 where
  pub sections : List Section
  pub tables : List Table
  pub seats : List Seat
  pub assignment_logs : List SeatAssignmentLog
  pub change_logs : List LayoutChangeLog
  pub layout_versions : List LayoutVersion
  pub outbox : List AnalyticsOutbox
  -- How many generated ids have been given out.
  pub draws : ℕ
