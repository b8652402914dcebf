-- ===== src/Projections/Invitations.antt =====
-- handlers/invitation-seating.handler.ts: handleSeatingInfoUpdated, and the lookups of
-- seat/services/color-group-matcher.service.ts in the rows that it and the settings handler write.
use omnixys_seat_service.Base.{
  Bool, false, ◌≡◌, refl, ap, ◌∙◌, List, [], ◌∷◌, ◌++◌, Option, none, some, String, ◌==◌, find,
  arith, All,
}
use omnixys_seat_service.Store.Rows.{Uuid, Time}
use omnixys_seat_service.Meta.{Json}
use omnixys_seat_service.ColorGroup.Matching.{
  SeatColorGroup, Lookups, match, match_by_invitation, match_selected,
}
use omnixys_seat_service.Projections.Rows.{
  EventSettingsProjection, Projections, upsert, upserted, find-upsert, find-upsert_other,
}
use omnixys_seat_service.Projections.Settings.{settings_of}

pub record InvitationProjection : Type 0 where
  pub invitation_id : Uuid
  pub guest_id : Option Uuid
  pub selected_invited_by : Option (List String)
  pub updated_at : Option Time

-- A missing and an empty `guestId` are both none.
pub record InvitationSeatingInfoUpdatedDto : Type 0 where
  pub invitation_id : Uuid
  pub guest_id : Option Uuid
  pub selected_invited_by : List String

abbrev pub invitation_of : Uuid → InvitationProjection → Bool
invitation_of invitation r = r.invitation_id == invitation

abbrev pub invitation_row : Time → InvitationSeatingInfoUpdatedDto → InvitationProjection
invitation_row now m = record {
  invitation_id = m.invitation_id;
  guest_id = m.guest_id;
  selected_invited_by = some m.selected_invited_by;
  updated_at = some now;
}

abbrev pub set_invitation :
    Time → InvitationSeatingInfoUpdatedDto → InvitationProjection → InvitationProjection
set_invitation now m r = record r {
  guest_id = m.guest_id;
  selected_invited_by = some m.selected_invited_by;
  updated_at = some now;
}

unfoldable pub handle_seating_info_updated :
    Time → InvitationSeatingInfoUpdatedDto → List InvitationProjection → List InvitationProjection
handle_seating_info_updated now m rows =
    upsert (invitation_of m.invitation_id) (invitation_row now m) (set_invitation now m) rows

abbrev pub groups_in :
    (Json → Option (List SeatColorGroup))
    → Option EventSettingsProjection
    → Option (List SeatColorGroup)
groups_in read none = none
groups_in read (some r) = groups r.seat_color_groups
  where
    groups : Option Json → Option (List SeatColorGroup)
    groups none = none
    groups (some json) = read json

abbrev pub selected_in : Option InvitationProjection → Option (List String)
selected_in none = none
selected_in (some r) = r.selected_invited_by

-- The two `findUnique` of the matcher; `read` takes a document for an array of groups, or not.
abbrev pub lookups :
    (Json → Option (List SeatColorGroup)) → Projections → List InvitationProjection → Lookups
lookups read s rows = record {
  groups_of = λ event. groups_in read (find (settings_of event) s.settings);
  selected_invited_by = λ invitation. selected_in (find (invitation_of invitation) rows);
}

-- Messages, each with the time at which it is handled.
abbrev pub deliver :
    List (Time × InvitationSeatingInfoUpdatedDto)
    → List InvitationProjection
    → List InvitationProjection
deliver [] rows = rows
deliver (m ∷ ms) rows = deliver ms (handle_seating_info_updated m.0 m.1 rows)

selected-handle :
    (now : Time) (m : InvitationSeatingInfoUpdatedDto) (rows : List InvitationProjection)
    → selected_in (find (invitation_of m.invitation_id) (handle_seating_info_updated now m rows))
      ≡ some m.selected_invited_by
unfolding handle_seating_info_updated
selected-handle now m rows =
    ap selected_in (
      find-upsert (invitation_of m.invitation_id) (invitation_row now m) (set_invitation now m) rows
        (ground arith) (λ x h. h))
    ∙ written (find (invitation_of m.invitation_id) rows)
  where
    written :
        (o : Option InvitationProjection)
        → selected_in (some (upserted (invitation_row now m) (set_invitation now m) o))
          ≡ some m.selected_invited_by
    written none = refl
    written (some r) = refl

invitation-deliver_other :
    (invitation : Uuid) (ms : List (Time × InvitationSeatingInfoUpdatedDto))
    (rows : List InvitationProjection)
    → All (λ m. (m.1.invitation_id == invitation) ≡ false) ms
    → find (invitation_of invitation) (deliver ms rows) ≡ find (invitation_of invitation) rows
unfolding handle_seating_info_updated
invitation-deliver_other invitation [] rows h = refl
invitation-deliver_other invitation (m ∷ ms) rows h =
    invitation-deliver_other invitation ms (handle_seating_info_updated m.0 m.1 rows) h.1
    ∙ find-upsert_other (invitation_of m.1.invitation_id) (invitation_of invitation)
        (invitation_row m.0 m.1) (set_invitation m.0 m.1) rows h.0
        (λ x k. (ground arith, ground arith))

deliver-append :
    (ms ns : List (Time × InvitationSeatingInfoUpdatedDto)) (rows : List InvitationProjection)
    → deliver (ms ++ ns) rows ≡ deliver ns (deliver ms rows)
deliver-append [] ns rows = refl
deliver-append (m ∷ ms) ns rows = deliver-append ms ns (handle_seating_info_updated m.0 m.1 rows)

-- The colour of an invitation's seat goes by the inviters that the last message about the invitation
-- names, and by the groups of the event, whatever messages came before it and whatever messages about
-- other invitations came after it.
pub match_by_invitation-deliver :
    (read : Json → Option (List SeatColorGroup)) (event : Uuid) (s : Projections)
    (before later : List (Time × InvitationSeatingInfoUpdatedDto)) (now : Time)
    (m : InvitationSeatingInfoUpdatedDto) (rows : List InvitationProjection)
    → All (λ n. (n.1.invitation_id == m.invitation_id) ≡ false) later
    → let found = lookups read s (deliver (before ++ (now, m) ∷ later) rows) in
      match_by_invitation found event (some m.invitation_id)
      ≡ match found event m.selected_invited_by
unfolding match_by_invitation
match_by_invitation-deliver read event s before later now m rows h =
    ap (match_selected (lookups read s (deliver (before ++ (now, m) ∷ later) rows)) event) selected
  where
    selected :
        selected_in
          (find (invitation_of m.invitation_id) (deliver (before ++ (now, m) ∷ later) rows))
        ≡ some m.selected_invited_by
    selected =
        rw
          (
            deliver-append before ((now, m) ∷ later) rows,
            invitation-deliver_other m.invitation_id later
                (handle_seating_info_updated now m (deliver before rows)) h,
          )
          (selected-handle now m (deliver before rows))
