-- ===== src/Projections/Roles.antt =====
-- handlers/event-role.handler.ts: the messages on roles, on access and on deleted events. A handler
-- takes the clock first, which the database writes to `updatedAt` (`@updatedAt`).
use omnixys_seat_service.Base.{
  Bool, false, List, Option, none, some, String, ltb, ◌==◌, if◌then◌else◌, find, any,
}
use omnixys_seat_service.Store.Rows.{Uuid, Time}
use omnixys_seat_service.Meta.{Json}
use omnixys_seat_service.Projections.Rows.{
  EventRoleType, EventRoleProjection, EventAccessProjection, Projections, role_of, access_of,
  upsert, delete_many,
}

pub record EventAccessDto : Type 0 where
  pub event_id : Uuid
  pub user_id : Uuid
  pub permissions : List String
  pub roles : Json
  pub occurred_at : Time

pub record EventRoleAssignedDto : Type 0 where
  pub event_id : Uuid
  pub user_id : Uuid
  pub role : EventRoleType
  pub occurred_at : Time

pub record EventRoleRemovedDto : Type 0 where
  pub event_id : Uuid
  pub user_id : Uuid
  pub occurred_at : Time

pub record EventOwnerChangedDto : Type 0 where
  pub event_id : Uuid
  pub old_owner_id : Option Uuid
  pub new_owner_id : Uuid
  pub occurred_at : Time

-- `stored && occurredAt < stored`
abbrev pub is_before : Time → Option Time → Bool
is_before time none = false
is_before time (some stored) = ltb time stored

abbrev pub is_stale_role : Time → Option EventRoleProjection → Bool
is_stale_role time none = false
is_stale_role time (some row) = is_before time row.updated_at

abbrev pub is_stale_access : Time → Option EventAccessProjection → Bool
is_stale_access time none = false
is_stale_access time (some row) = is_before time row.occurred_at

abbrev pub access_row : Time → EventAccessDto → EventAccessProjection
access_row now m = record {
  event_id = m.event_id;
  user_id = m.user_id;
  permissions = m.permissions;
  roles = m.roles;
  occurred_at = some m.occurred_at;
  updated_at = some now;
}

abbrev pub set_access : Time → EventAccessDto → EventAccessProjection → EventAccessProjection
set_access now m r = record r {
  permissions = m.permissions;
  roles = m.roles;
  occurred_at = some m.occurred_at;
  updated_at = some now;
}

abbrev pub write_access : Time → EventAccessDto → Projections → Projections
write_access now m s = record s {
  accesses =
      upsert (access_of m.event_id m.user_id) (access_row now m) (set_access now m) s.accesses;
}

unfoldable pub handle_user_access_changed : Time → EventAccessDto → Projections → Projections
handle_user_access_changed now m s =
    if is_stale_access m.occurred_at (find (access_of m.event_id m.user_id) s.accesses)
    then s
    else write_access now m s

abbrev pub role_row : Time → Uuid → Uuid → EventRoleType → EventRoleProjection
role_row now event user role = record {
  event_id = event;
  user_id = user;
  role = role;
  updated_at = some now;
}

abbrev pub set_role : Time → EventRoleType → EventRoleProjection → EventRoleProjection
set_role now role r = record r { role = role; updated_at = some now }

abbrev pub write_role : Time → Uuid → Uuid → EventRoleType → Projections → Projections
write_role now event user role s = record s {
  roles = upsert (role_of event user) (role_row now event user role) (set_role now role) s.roles;
}

abbrev pub delete_role : Uuid → Uuid → Projections → Projections
delete_role event user s = record s { roles = delete_many (role_of event user) s.roles }

unfoldable pub handle_role_assigned : Time → EventRoleAssignedDto → Projections → Projections
handle_role_assigned now m s =
    if is_stale_role m.occurred_at (find (role_of m.event_id m.user_id) s.roles)
    then s
    else write_role now m.event_id m.user_id m.role s

unfoldable pub handle_role_removed : EventRoleRemovedDto → Projections → Projections
handle_role_removed m s =
    if is_stale_role m.occurred_at (find (role_of m.event_id m.user_id) s.roles)
    then s
    else delete_role m.event_id m.user_id s

-- The old owner's role is deleted, unless it is newer than the message.
abbrev pub drop_owner : EventOwnerChangedDto → Option Uuid → Projections → Projections
drop_owner m none s = s
drop_owner m (some old) s =
    if is_stale_role m.occurred_at (find (role_of m.event_id old) s.roles)
    then s
    else delete_role m.event_id old s

-- The new owner is given the role, unless theirs is newer than the message.
abbrev pub raise_owner : Time → EventOwnerChangedDto → Projections → Projections
raise_owner now m s =
    if is_stale_role m.occurred_at (find (role_of m.event_id m.new_owner_id) s.roles)
    then s
    else write_role now m.event_id m.new_owner_id EventRoleType.admin s

unfoldable pub handle_owner_changed : Time → EventOwnerChangedDto → Projections → Projections
handle_owner_changed now m s = raise_owner now m (drop_owner m m.old_owner_id s)

abbrev pub is_in : Uuid → List Uuid → Bool
is_in event ids = any (λ id. id == event) ids

unfoldable pub handle_event_deleted : List Uuid → Projections → Projections
handle_event_deleted ids s = record {
  roles = delete_many (λ r. is_in r.event_id ids) s.roles;
  settings = delete_many (λ r. is_in r.event_id ids) s.settings;
  accesses = delete_many (λ r. is_in r.event_id ids) s.accesses;
}
