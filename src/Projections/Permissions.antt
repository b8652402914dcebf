-- ===== src/Projections/Permissions.antt =====
-- seat/services/seat-event-role-resolver.service.ts: getRoleForUser and getPermissionsForUser, and what
-- messages do to their answers.
use omnixys_seat_service.Base.{
  ◌≡◌, refl, ◌∙◌, List, [], ◌∷◌, Option, none, some, String, find, if◌then◌else◌, Bool-cases, inl,
  inr,
}
use omnixys_seat_service.Store.Rows.{Uuid, Time}
use omnixys_seat_service.Projections.Rows.{
  EventRoleType, EventRoleProjection, EventAccessProjection, Projections, role_of, access_of,
}
use omnixys_seat_service.Projections.Roles.{
  EventAccessDto, handle_user_access_changed, handle_event_deleted, is_in, is_stale_access,
}
use omnixys_seat_service.Projections.Deleted.{handle_event_deleted-clears}
use omnixys_seat_service.Projections.Access.{
  deliver, access, Content, content, steps, content-deliver,
}

-- What `@omnixys/contracts-ts` gives: uniqueEventPermissions and getDefaultPermissionsForEventRole.
pub record Contracts : Type 0 where
  pub unique : List String → List String
  pub default_permissions : Option EventRoleType → List String

abbrev pub role_field : Option EventRoleProjection → Option EventRoleType
role_field none = none
role_field (some r) = some r.role

unfoldable pub get_role_for_user : Uuid → Uuid → Projections → Option EventRoleType
get_role_for_user user event s = role_field (find (role_of event user) s.roles)

abbrev pub permissions_from :
    Contracts → Option EventAccessProjection → Option EventRoleType → List String
permissions_from contracts none role = contracts.default_permissions role
permissions_from contracts (some r) role = contracts.unique r.permissions

unfoldable pub get_permissions_for_user : Contracts → Uuid → Uuid → Projections → List String
get_permissions_for_user contracts user event s =
    permissions_from contracts (find (access_of event user) s.accesses)
      (get_role_for_user user event s)

-- What is known of a user's access, or else their role, gives their permissions.
abbrev pub permissions_of : Contracts → Option Content → Option EventRoleType → List String
permissions_of contracts none role = contracts.default_permissions role
permissions_of contracts (some (time, (permissions, roles))) role = contracts.unique permissions

permissions-content :
    (contracts : Contracts) (r : Option EventAccessProjection) (role : Option EventRoleType)
    → permissions_from contracts r role ≡ permissions_of contracts (content r) role
permissions-content contracts none role = refl
permissions-content contracts (some r) role = refl

roles-handle :
    (now : Time) (m : EventAccessDto) (s : Projections)
    → (handle_user_access_changed now m s).roles ≡ s.roles
unfolding handle_user_access_changed
roles-handle now m s =
    elim (Bool-cases (is_stale_access m.occurred_at (access m.event_id m.user_id s))) [
      | inl e ↦ rw e refl
      | inr e ↦ rw e refl
    ]

roles-deliver :
    (ms : List (Time × EventAccessDto)) (s : Projections) → (deliver ms s).roles ≡ s.roles
roles-deliver [] s = refl
roles-deliver (m ∷ ms) s =
    roles-deliver ms (handle_user_access_changed m.0 m.1 s) ∙ roles-handle m.0 m.1 s

-- After any messages on access, and then one on deleted events, a user's permissions in an event that
-- it names are those of nobody's role; in an event that it does not name, they are what the messages
-- about the user and the event make, in their order, of the access known before, and if no access is
-- known, those of the role that the user had before.
pub permissions-deliver :
    (contracts : Contracts) (ids : List Uuid) (event user : Uuid)
    (ms : List (Time × EventAccessDto)) (s : Projections)
    → get_permissions_for_user contracts user event (handle_event_deleted ids (deliver ms s)) ≡ (
        if is_in event ids
        then contracts.default_permissions none
        else permissions_of contracts
            (steps event user ms (content (access event user s)))
            (get_role_for_user user event s))
unfolding get_permissions_for_user get_role_for_user
permissions-deliver contracts ids event user ms s =
    let clears = handle_event_deleted-clears ids event user (deliver ms s) in
    elim (Bool-cases (is_in event ids)) [
      | inl e ↦ rw (e, (clears.0 e).0, (clears.0 e).1) refl
      | inr e ↦
          rw (e, (clears.1 e).0, (clears.1 e).1)
            (permissions-content contracts (access event user (deliver ms s)) _
              ∙ rw (content-deliver event user ms s, roles-deliver ms s) refl)
    ]
