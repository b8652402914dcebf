-- ===== src/Seat/Unassign.antt =====
-- seat/services/seat-write.service.ts: unassignSeat and unassignSeatsByGuestId.
use omnixys_seat_service.Base.{Option, none, some, List, [], ◌∷◌, select, or_else, holds}
use omnixys_seat_service.Store.Rows.{
  Uuid, Seat, SeatAssignmentAction, empty, seat_unassigned, of_seat, plain,
}
use omnixys_seat_service.Store.Exec.{Env, Exec, pure, gets, transaction, ◌>>=◌, ◌>>◌}
use omnixys_seat_service.Store.Tables.{find_seat, update_seat_at, log_assignment}
use omnixys_seat_service.Audit.{log_change, enqueue}
use omnixys_seat_service.Seat.Common.{free_seat, fact}

unfoldable pub free_held : Env → Seat → Uuid → Exec Seat
free_held e seat subject = do
  result ← update_seat_at seat.id free_seat
  log_assignment e seat.event_id seat.id seat.guest_id seat.invitation_id
      SeatAssignmentAction.unassigned empty
  enqueue e "seat.unassigned.v1" (fact e "SeatUnassigned" seat.id subject seat.event_id plain)
  pure result

-- The seat as the call finds it: there is nothing to do if nobody holds it.
abbrev pub unassign_found : Env → Uuid → Seat → Option Uuid → Exec (Option Seat)
unassign_found e actor seat none = pure (some seat)
unassign_found e actor seat (some subject) = do
  updated ← transaction (free_held e seat subject)
  log_change e seat.event_id actor seat_unassigned (of_seat seat.id)
  pure (some updated)

abbrev pub unassign_row : Env → Uuid → Option Seat → Exec (Option Seat)
unassign_row e actor none = pure none
unassign_row e actor (some seat) =
    unassign_found e actor seat (or_else seat.guest_id seat.invitation_id)

-- unassignSeat; a seat that is gone is skipped.
unfoldable pub unassign_seat : Env → Uuid → Uuid → Exec (Option Seat)
unassign_seat e seat_id actor = do row ← gets (find_seat seat_id); unassign_row e actor row

unfoldable pub unassign_each : Env → Uuid → List Seat → Exec Unit
unassign_each e actor [] = pure tt
unassign_each e actor (s ∷ rest) = do row ← unassign_seat e s.id actor; unassign_each e actor rest

-- unassignSeatsByGuestId
unfoldable pub unassign_seats_by_guest : Env → Uuid → Uuid → Exec Unit
unassign_seats_by_guest e guest actor = do
  seats ← gets (λ s. select (λ r. holds r.guest_id guest) s.seats)
  unassign_each e actor seats
