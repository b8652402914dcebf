-- ===== src/Seat/Guest.antt =====
-- seat/services/seat-write.service.ts: assignSeatToGuest.
use omnixys_seat_service.Base.{
  ℕ, Bool, true, not, ◌&&◌, Option, none, some, ◌==◌, if◌then◌else◌, find, or_else, is_some, holds,
  same,
}
use omnixys_seat_service.Store.Rows.{
  Uuid, SeatStatus, Seat, SeatAssignmentAction, empty, AssignSeatDto, seat_assigned, assigned_guest,
  has_invitation,
}
use omnixys_seat_service.Store.Exec.{
  seat_not_found, seat_unavailable, seat_event_mismatch, Env, Exec, pure, raise, gets, or_raise,
  transaction, ◌>>=◌, ◌>>◌, when,
}
use omnixys_seat_service.Store.Tables.{find_seat, update_many_seats, find_earliest, log_assignment}
use omnixys_seat_service.Audit.{log_change, enqueue}
use omnixys_seat_service.Seat.Common.{fact}
use omnixys_seat_service.Seat.Assign.{is_available}

-- A filter that is left out when its value is `undefined`.
abbrev pub filter_if : Option Uuid → Option Uuid → Bool
filter_if column none = true
filter_if column (some n) = holds column n

-- The guest's seat for this event and invitation.
abbrev pub is_existing : AssignSeatDto → Seat → Bool
is_existing input s =
    s.event_id == input.event_id
    && (holds s.guest_id input.guest_id && filter_if s.invitation_id input.invitation_id)

-- A seat of the event that nobody holds.
abbrev pub is_open : Uuid → Seat → Bool
is_open event s =
    s.event_id == event
    && (is_available s.status && (same s.guest_id none && same s.invitation_id none))

-- The seat that was asked for, or else the oldest one that is open.
abbrev pub pick_seat : AssignSeatDto → Option Uuid → Exec (Option Seat)
pick_seat input (some id) = gets (find_seat id)
pick_seat input none = gets (λ s. find_earliest (is_open input.event_id) s.seats)

abbrev pub is_reserved_for : AssignSeatDto → Seat → Bool
is_reserved_for input s =
    is_some input.invitation_id
    && (same s.invitation_id input.invitation_id && same s.guest_id none)

abbrev pub can_take : AssignSeatDto → Seat → Seat → Bool
can_take input seat s =
    s.id == seat.id
    && (if is_reserved_for input seat
        then s.event_id == input.event_id
          && (filter_if s.invitation_id input.invitation_id && same s.guest_id none)
        else is_open input.event_id s)

-- Fields that are `undefined` are left as they are.
abbrev pub seat_guest : AssignSeatDto → Seat → Seat
seat_guest input s = record s {
  guest_id = some input.guest_id;
  invitation_id = or_else input.invitation_id s.invitation_id;
  status = SeatStatus.assigned;
  note = or_else input.note s.note;
}

-- What is written when the seat was taken.
abbrev pub record_taken : Env → AssignSeatDto → Seat → Exec Seat
record_taken e input result = do
  log_assignment e input.event_id result.id (some input.guest_id) input.invitation_id
      SeatAssignmentAction.assigned empty
  enqueue e "seat.assigned.v1" (
      fact e "SeatAssigned" result.id input.guest_id input.event_id
        (has_invitation (is_some input.invitation_id)))
  pure result

abbrev pub finish_claim : Env → AssignSeatDto → Seat → ℕ → Exec Seat
finish_claim e input seat claimed = do
  when (not (claimed == 1)) (raise (seat_unavailable input.event_id (some seat.id)))
  result ← or_raise (← gets (find_seat seat.id)) (seat_not_found seat.id)
  record_taken e input result

abbrev pub claim_seat : Env → AssignSeatDto → Seat → Exec Seat
claim_seat e input seat = do
  claimed ← update_many_seats (can_take input seat) (seat_guest input)
  finish_claim e input seat claimed

unfoldable pub take_seat : Env → AssignSeatDto → Seat → Exec Seat
take_seat e input seat = do
  when (not (seat.event_id == input.event_id))
      (raise (seat_event_mismatch seat.id input.event_id seat.event_id))
  claim_seat e input seat

abbrev pub take_picked : Env → AssignSeatDto → Option Seat → Exec Seat
take_picked e input picked = do
  seat ← or_raise picked (seat_unavailable input.event_id input.seat_id)
  take_seat e input seat

abbrev pub reuse_or_take : Env → AssignSeatDto → Option Seat → Exec Seat
reuse_or_take e input (some existing) = pure existing
reuse_or_take e input none = do picked ← pick_seat input input.seat_id; take_picked e input picked

-- The audit record is written whether or not a seat was taken, and outside the transaction.
unfoldable pub assign_seat_to_guest : Env → AssignSeatDto → Exec Seat
assign_seat_to_guest e input = do
  updated ←
      transaction
        do existing ← gets (λ s. find (is_existing input) s.seats); reuse_or_take e input existing
  log_change e input.event_id input.actor_id seat_assigned (assigned_guest input)
  pure updated
