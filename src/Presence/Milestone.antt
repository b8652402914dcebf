-- ===== src/Presence/Milestone.antt =====
-- handlers/milestone.handler.ts: handleMilestone on the rows of SeatPresenceProjection. A handler takes
-- the clock first, which the database writes to `updatedAt`.
use omnixys_seat_service.Base.{
  Bool, true, false, not, ◌&&◌, List, Option, none, some, ◌==◌, if◌then◌else◌, find, is_some,
  or_else,
}
use omnixys_seat_service.Store.Rows.{Uuid, Time}
use omnixys_seat_service.Projections.Rows.{upsert}

pub data PresenceState : Type 0 where
  inside outside : PresenceState

pub record SeatPresenceProjection : Type 0 where
  pub seat_id : Uuid
  pub event_id : Uuid
  pub presence_state : PresenceState
  pub checked_in_at : Option Time
  pub revoked : Bool
  pub revoked_at : Option Time
  pub updated_at : Option Time

-- The type of a milestone; `other` is any that the handler passes over.
pub data MilestoneType : Type 0 where
  ticket_scanned ticket_revoked other : MilestoneType

pub record Milestone : Type 0 where
  pub type : MilestoneType
  pub reference_id : Option Uuid
  pub event_id : Uuid
  pub occurred_at : Time

abbrev pub presence_of : Uuid → SeatPresenceProjection → Bool
presence_of seat r = r.seat_id == seat

abbrev pub is_inside : PresenceState → Bool
is_inside inside = true
is_inside outside = false

abbrev pub was_inside : Option SeatPresenceProjection → Bool
was_inside none = false
was_inside (some r) = is_inside r.presence_state

abbrev pub was_checked_in : Option SeatPresenceProjection → Bool
was_checked_in none = false
was_checked_in (some r) = is_some r.checked_in_at

abbrev pub new_state : Option SeatPresenceProjection → PresenceState
new_state existing = if was_inside existing then outside else inside

abbrev pub checked_in : Time → Option SeatPresenceProjection → Option Time
checked_in time existing =
    if is_inside (new_state existing) && not (was_checked_in existing) then some time else none

abbrev pub scanned_row :
    Time → Milestone → Uuid → Option SeatPresenceProjection → SeatPresenceProjection
scanned_row now m seat existing = record {
  seat_id = seat;
  event_id = m.event_id;
  presence_state = new_state existing;
  checked_in_at = checked_in m.occurred_at existing;
  revoked = false;
  revoked_at = none;
  updated_at = some now;
}

abbrev pub scan :
    Time
    → Milestone
    → Option SeatPresenceProjection
    → SeatPresenceProjection
    → SeatPresenceProjection
scan now m existing r = record r {
  presence_state = new_state existing;
  checked_in_at = or_else (checked_in m.occurred_at existing) r.checked_in_at;
  updated_at = some now;
}

abbrev pub revoked_row : Time → Milestone → Uuid → SeatPresenceProjection
revoked_row now m seat = record {
  seat_id = seat;
  event_id = m.event_id;
  presence_state = outside;
  checked_in_at = none;
  revoked = true;
  revoked_at = some m.occurred_at;
  updated_at = some now;
}

abbrev pub revoke : Time → Milestone → SeatPresenceProjection → SeatPresenceProjection
revoke now m r = record r {
  presence_state = outside;
  revoked = true;
  revoked_at = some m.occurred_at;
  updated_at = some now;
}

-- The two branches for a milestone that refers to a seat.
unfoldable pub record_milestone :
    Time
    → Milestone
    → MilestoneType
    → Uuid
    → List SeatPresenceProjection
    → List SeatPresenceProjection
record_milestone now m ticket_scanned seat rows =
    let existing = find (presence_of seat) rows in
    upsert (presence_of seat) (scanned_row now m seat existing) (scan now m existing) rows
record_milestone now m ticket_revoked seat rows =
    upsert (presence_of seat) (revoked_row now m seat) (revoke now m) rows
record_milestone now m other seat rows = rows

abbrev pub record_for :
    Time → Milestone → Option Uuid → List SeatPresenceProjection → List SeatPresenceProjection
record_for now m none rows = rows
record_for now m (some seat) rows = record_milestone now m m.type seat rows

unfoldable pub handle_milestone :
    Time → Milestone → List SeatPresenceProjection → List SeatPresenceProjection
handle_milestone now m rows = record_for now m m.reference_id rows
