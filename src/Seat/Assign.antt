-- ===== src/Seat/Assign.antt =====
-- seat/services/seat-write.service.ts: assignSeat.
use omnixys_seat_service.Base.{
  ℕ, Bool, true, false, not, ◌&&◌, ◌||◌, none, some, List, [], ◌∷◌, ◌==◌, if◌then◌else◌, select,
  or_else, is_some, same,
}
use omnixys_seat_service.Store.Rows.{
  Uuid, SeatStatus, available, Seat, SeatAssignmentAction, empty, reassigned, AssignSeatInput,
  seat_assigned, seat_unassigned, assigned_seat, because_reassigned, has_invitation,
}
use omnixys_seat_service.Store.Exec.{
  seat_not_found, seat_unavailable, seat_holder_conflict, Env, Exec, pure, raise, gets, or_raise,
  transaction, ◌>>=◌, ◌>>◌, when,
}
use omnixys_seat_service.Store.Tables.{find_seat, update_many_seats, update_seat_at, log_assignment}
use omnixys_seat_service.Audit.{log_change}
use omnixys_seat_service.Seat.Common.{free_seat, held_by, fact, enqueue_for}

-- The other seats of the event that the guest or the invitation holds.
abbrev pub is_conflicting : Seat → AssignSeatInput → Seat → Bool
is_conflicting seat input s =
    s.event_id == seat.event_id
    && (not (s.id == seat.id)
        && (held_by s.guest_id input.guest_id || held_by s.invitation_id input.invitation_id))

-- One round of the loop that frees the other seats.
unfoldable pub release : Env → Seat → Seat → Exec Unit
release e seat s = do
  row ← update_seat_at s.id free_seat
  log_assignment e seat.event_id s.id s.guest_id s.invitation_id SeatAssignmentAction.unassigned
      (reassigned s.id)
  enqueue_for e (or_else s.guest_id s.invitation_id) "seat.unassigned.v1"
      λ subject. fact e "SeatUnassigned" s.id subject seat.event_id because_reassigned

unfoldable pub release_all : Env → Seat → List Seat → Exec Unit
release_all e seat [] = pure tt
release_all e seat (s ∷ rest) = do release e seat s; release_all e seat rest

abbrev pub has_assignment : AssignSeatInput → Bool
has_assignment input = is_some input.guest_id || is_some input.invitation_id

unfoldable pub release_others : Env → Seat → AssignSeatInput → Exec Unit
unfolding release_all
release_others e seat input = do
  rivals ← gets (λ s. select (is_conflicting seat input) s.seats)
  release_all e seat rivals

abbrev pub is_available : SeatStatus → Bool
is_available available = true
is_available _ = false

-- A seat that nobody holds, or the holder's own.
abbrev pub is_claimable : Seat → AssignSeatInput → Seat → Bool
is_claimable seat input s =
    s.id == seat.id
    && (s.event_id == seat.event_id
        && (not (has_assignment input)
            || ((is_available s.status && (same s.guest_id none && same s.invitation_id none))
                || (same s.guest_id input.guest_id && same s.invitation_id input.invitation_id))))

abbrev pub hold_seat : AssignSeatInput → Seat → Seat
hold_seat input s = record s {
  guest_id = input.guest_id;
  invitation_id = input.invitation_id;
  note = input.note;
  status = if has_assignment input then SeatStatus.assigned else available;
}

-- `if (claimed.count !== 1) throw …`, and the row is read again.
abbrev pub read_claimed : Seat → ℕ → Exec Seat
read_claimed seat claimed = do
  when (not (claimed == 1)) (raise (seat_unavailable seat.event_id (some seat.id)))
  or_raise (← gets (find_seat seat.id)) (seat_not_found seat.id)

unfoldable pub claim : Seat → AssignSeatInput → Exec Seat
claim seat input = do
  claimed ← update_many_seats (is_claimable seat input) (hold_seat input)
  read_claimed seat claimed

-- Steps 3 to 5 of `assignSeat`: the assignment log, analytics, and the audit log.
unfoldable pub record_assignment : Env → Seat → AssignSeatInput → Uuid → Exec Unit
record_assignment e seat input actor = do
  let has = has_assignment input
  log_assignment e seat.event_id seat.id (if has then input.guest_id else seat.guest_id)
      (if has then input.invitation_id else seat.invitation_id)
      (if has then SeatAssignmentAction.assigned else SeatAssignmentAction.unassigned) empty
  enqueue_for e
      (if has
        then or_else input.guest_id input.invitation_id
        else or_else seat.guest_id seat.invitation_id)
      (if has then "seat.assigned.v1" else "seat.unassigned.v1")
      λ subject.
        fact e (if has then "SeatAssigned" else "SeatUnassigned") seat.id subject seat.event_id
          (has_invitation (if has then is_some input.invitation_id else is_some seat.invitation_id))
  log_change e seat.event_id actor (if has then seat_assigned else seat_unassigned)
      (assigned_seat input)

unfoldable pub assign_found : Env → AssignSeatInput → Uuid → Seat → Exec Seat
assign_found e input actor seat =
    if not (has_assignment input) && not (is_some (or_else seat.guest_id seat.invitation_id))
    then pure seat
    else do
      when (has_assignment input) (release_others e seat input)
      updated ← claim seat input
      record_assignment e seat input actor
      pure updated

unfoldable pub assign_seat : Env → AssignSeatInput → Uuid → Exec Seat
assign_seat e input actor =
    if is_some input.guest_id && is_some input.invitation_id
    then raise seat_holder_conflict
    else transaction do
      seat ← or_raise (← gets (find_seat input.seat_id)) (seat_not_found input.seat_id)
      assign_found e input actor seat
