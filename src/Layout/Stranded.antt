-- ===== src/Layout/Stranded.antt =====
-- The copies of seats that are not available (layout/services/layout-write.service.ts, duplicateTable).
use omnixys_seat_service.Base.{none, some}
use omnixys_seat_service.Store.Rows.{Uuid, Seat, AssignSeatInput}

-- A guest, or an invitation, asks for a seat by assignSeat.
abbrev pub asks_as_guest : Uuid → Uuid → AssignSeatInput
asks_as_guest seat holder = record {
  seat_id = seat;
  guest_id = some holder;
  invitation_id = none;
  note = none;
}

abbrev pub asks_as_invitation : Uuid → Uuid → AssignSeatInput
asks_as_invitation seat holder = record {
  seat_id = seat;
  guest_id = none;
  invitation_id = some holder;
  note = none;
}
