-- ===== src/Tests/Handlers.antt =====
-- The theorems on settings, invitations, permissions and presence at concrete inputs.
use omnixys_seat_service.Base.{
  ℕ, ◌+◌, true, false, ◌≡◌, refl, List, [], ◌∷◌, ◌++◌, Option, none, some, String, if◌then◌else◌,
}
use omnixys_seat_service.Meta.{Json, null, arr, nil}
use omnixys_seat_service.Base.Int.{pos}
use omnixys_seat_service.Store.Rows.{Time}
use omnixys_seat_service.ColorGroup.Matching.{MatchType, SeatColorGroup, match, match_by_invitation}
use omnixys_seat_service.Projections.Rows.{EventRoleType, Projections}
use omnixys_seat_service.Projections.Roles.{EventAccessDto, handle_event_deleted, is_in}
use omnixys_seat_service.Projections.Settings.{EventCreatedDto, EventUpdatedDto}
use omnixys_seat_service.Projections.Known.{
  SettingsMessage, creation, update, deliver as deliver_settings, settings_at, says, written,
  counted, IsTold, deliver-IsTold,
}
use omnixys_seat_service.Projections.Access.{deliver as deliver_access, access, content, steps}
use omnixys_seat_service.Projections.Permissions.{
  Contracts, get_role_for_user, get_permissions_for_user, permissions_of, permissions-deliver,
}
use omnixys_seat_service.Projections.Invitations.{
  InvitationSeatingInfoUpdatedDto, lookups, deliver as deliver_invitations,
  match_by_invitation-deliver,
}
use omnixys_seat_service.Presence.Milestone.{MilestoneType, Milestone}
use omnixys_seat_service.Presence.Visits.{visits, deliver, visit_at, visit-deliver}
use omnixys_seat_service.Presence.Scans.{scans, toggled, deliver-scans}

abbrev projections : Projections
projections = record {
  roles =
      record { event_id = 9; user_id = 1; role = EventRoleType.guest; updated_at = some 10 } ∷ [];
  accesses = [];
  settings = [];
}

abbrev gala : EventCreatedDto
gala = record {
  event_id = 9;
  name = "Gala";
  ends_at = some 90;
  max_seats = 40;
  allow_guest_seat_selection = true;
  seat_color_groups = some (some (arr nil));
}

abbrev larger : ℕ → Option (Option Json) → EventUpdatedDto
larger time groups = record {
  event_id = 9;
  name = none;
  ends_at = some none;
  max_seats = some 60;
  allow_guest_seat_selection = none;
  seat_color_groups = groups;
  occurred_at = time;
}

-- A creation, an update dated before its handling, one dated after it that says there are no groups, and
-- the creation again.
abbrev messages : List SettingsMessage
messages =
    creation 10 gala
    ∷ update 20 (larger 5 none)
    ∷ update 30 (larger 15 (some none))
    ∷ creation 40 gala
    ∷ []

deliver-IsTold_example :
    IsTold
      (says (settings_at 9 projections))
      (counted true 9 (written (settings_at 9 projections)) messages)
      (says (settings_at 9 (deliver_settings true messages projections)))
deliver-IsTold_example = deliver-IsTold true 9 messages projections

abbrev contracts : Contracts
contracts = record { unique = λ ps. ps; default_permissions = λ role. [] }

abbrev granted : List (Time × EventAccessDto)
granted =
    (
      50,
      record {
        event_id = 9;
        user_id = 1;
        permissions = "seat:read" ∷ [];
        roles = null;
        occurred_at = 40;
      },
    )
    ∷ []

permissions-deliver_example :
    get_permissions_for_user contracts 1 9
      (handle_event_deleted (8 ∷ []) (deliver_access granted projections))
    ≡ (if is_in 9 (8 ∷ [])
        then contracts.default_permissions none
        else permissions_of contracts
            (steps 9 1 granted (content (access 9 1 projections)))
            (get_role_for_user 1 9 projections))
permissions-deliver_example = permissions-deliver contracts (8 ∷ []) 9 1 granted projections

abbrev bride : SeatColorGroup
bride = record {
  id = "g1";
  name = "Bride";
  style = record {
    background = "#fff";
    foreground = "#000";
    border = "#ccc";
    legend_icon = "heart";
  };
  match_type = MatchType.single;
  invited_by_values = "bride" ∷ [];
  priority = pos 1;
  order = pos 1;
  is_orphaned = false;
}

abbrev read : Json → Option (List SeatColorGroup)
read json = some (bride ∷ [])

abbrev invited : ℕ → String → InvitationSeatingInfoUpdatedDto
invited invitation by = record {
  invitation_id = invitation;
  guest_id = none;
  selected_invited_by = by ∷ [];
}

match_by_invitation-deliver_example :
    let found = lookups read (deliver_settings true messages projections) (
      deliver_invitations
        ((1, invited 5 "groom") ∷ [] ++ (2, invited 5 "bride") ∷ (3, invited 6 "groom") ∷ [])
        []) in
    match_by_invitation found 9 (some 5) ≡ match found 9 ("bride" ∷ [])
match_by_invitation-deliver_example =
    match_by_invitation-deliver read 9 (deliver_settings true messages projections)
      ((1, invited 5 "groom") ∷ []) ((3, invited 6 "groom") ∷ []) 2 (invited 5 "bride") []
      (refl, tt)

abbrev milestone : MilestoneType → ℕ → Time × Milestone
milestone type time =
    (time + 1, record { type = type; reference_id = some 3; event_id = 9; occurred_at = time })

-- A guest comes in, the ticket is revoked, and the ticket is scanned again.
abbrev milestones : List (Time × Milestone)
milestones =
    milestone MilestoneType.ticket_scanned 10
    ∷ milestone MilestoneType.ticket_revoked 20
    ∷ milestone MilestoneType.ticket_scanned 30
    ∷ []

visit-deliver_example : visit_at 3 (deliver milestones []) ≡ visits 3 milestones (visit_at 3 [])
visit-deliver_example = visit-deliver 3 milestones []

abbrev rescans : List (Time × Milestone)
rescans = milestone MilestoneType.ticket_scanned 40 ∷ milestone MilestoneType.other 50 ∷ []

deliver-scans_example :
    let before = visit_at 3 (deliver milestones []) in
    let after = visit_at 3 (deliver rescans (deliver milestones [])) in
    (after.inside ≡ toggled (scans 3 rescans) before.inside) × (after.revoked ≡ before.revoked)
deliver-scans_example = deliver-scans 3 rescans (deliver milestones []) (refl, (refl, tt))
