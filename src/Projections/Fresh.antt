-- ===== src/Projections/Fresh.antt =====
-- `handleRoleAssigned` of handlers/event-role.handler.ts compares the time at which a role changed with
-- the time at which the last change was handled.
use omnixys_seat_service.Base.{
  true, false, ◌≡◌, refl, Option, none, some, ◌==◌, ◌<◌, find, arith, ◌∙◌,
}
use omnixys_seat_service.Store.Rows.{Uuid, Time}
use omnixys_seat_service.Projections.Rows.{
  EventRoleType, EventRoleProjection, Projections, role_of, find-upsert, find-upsert_other,
  upserted, find-delete_many, find-delete_many_other,
}
use omnixys_seat_service.Projections.Roles.{
  EventRoleAssignedDto, EventOwnerChangedDto, handle_role_assigned, handle_owner_changed,
  delete_role, write_role, role_row, set_role, is_stale_role,
}

abbrev pub role_row_of : Uuid → Uuid → Projections → Option EventRoleProjection
role_row_of event user s = find (role_of event user) s.roles

abbrev pub written_at : Option EventRoleProjection → Option Time
written_at none = none
written_at (some r) = r.updated_at

abbrev pub role_in : Option EventRoleProjection → Option EventRoleType
role_in none = none
role_in (some r) = some r.role

upserted-role :
    (now : Time) (event user : Uuid) (role : EventRoleType) (r : Option EventRoleProjection)
    → let w = some (upserted (role_row now event user role) (set_role now role) r) in
      (role_in w ≡ some role) × (written_at w ≡ some now)
upserted-role now event user role none = (refl, refl)
upserted-role now event user role (some r) = (refl, refl)

role-write_role :
    (now : Time) (event user : Uuid) (role : EventRoleType) (s : Projections)
    → (role_in (role_row_of event user (write_role now event user role s)) ≡ some role)
      × (written_at (role_row_of event user (write_role now event user role s)) ≡ some now)
role-write_role now event user role s =
    rw
      (find-upsert (role_of event user) (role_row now event user role) (set_role now role) s.roles
        (ground arith) (λ x h. h))
      (upserted-role now event user role (role_row_of event user s))

stale_by_time :
    (time now : Time) (r : Option EventRoleProjection)
    → written_at r ≡ some now
    → time < now
    → is_stale_role time r ≡ true
stale_by_time time now none h k = cc
stale_by_time time now (some r) h k = rw h (ground arith)

-- Once a role that is not stale has been handled, it is the user's role, and a message of the same
-- user that is dated before that handling changes nothing, also if it is the newer of the two.
pub handle_role_assigned-drops_newer :
    (now later : Time) (m n : EventRoleAssignedDto) (s : Projections)
    → n.event_id ≡ m.event_id
    → n.user_id ≡ m.user_id
    → is_stale_role m.occurred_at (role_row_of m.event_id m.user_id s) ≡ false
    → n.occurred_at < now
    → (role_in (role_row_of m.event_id m.user_id (handle_role_assigned now m s)) ≡ some m.role)
      × (handle_role_assigned later n (handle_role_assigned now m s) ≡ handle_role_assigned now m s)
unfolding handle_role_assigned
handle_role_assigned-drops_newer now later m n s he hu hs ht =
    let w = role-write_role now m.event_id m.user_id m.role s in
    rw (hs, he, hu, stale_by_time n.occurred_at now _ w.1 ht) (w.0, refl)

role-write_role_other :
    (now : Time) (event user other : Uuid) (role : EventRoleType) (s : Projections)
    → (user == other) ≡ false
    → role_row_of event other (write_role now event user role s) ≡ role_row_of event other s
role-write_role_other now event user other role s h =
    find-upsert_other (role_of event user) (role_of event other) (role_row now event user role)
      (set_role now role) s.roles (ground arith) (λ x k. (ground arith, ground arith))

role-delete_role_other :
    (event user other : Uuid) (s : Projections)
    → (user == other) ≡ false
    → role_row_of event other (delete_role event user s) ≡ role_row_of event other s
role-delete_role_other event user other s h =
    find-delete_many_other (role_of event user) (role_of event other) s.roles (λ x k. ground arith)

-- A change of owner that is newer than what is known of both owners leaves the old owner without a
-- role and the new one as an administrator, and no one else's role changes.
pub handle_owner_changed-transfers :
    (now : Time) (m : EventOwnerChangedDto) (old : Uuid) (s : Projections)
    → m.old_owner_id ≡ some old
    → (m.new_owner_id == old) ≡ false
    → is_stale_role m.occurred_at (role_row_of m.event_id old s) ≡ false
    → is_stale_role m.occurred_at (role_row_of m.event_id m.new_owner_id s) ≡ false
    → let after = handle_owner_changed now m s in
      (role_row_of m.event_id old after ≡ none)
      × (role_in (role_row_of m.event_id m.new_owner_id after) ≡ some EventRoleType.admin)
      × ((other : Uuid)
          → (old == other) ≡ false
          → (m.new_owner_id == other) ≡ false
          → role_row_of m.event_id other after ≡ role_row_of m.event_id other s)
unfolding handle_owner_changed
handle_owner_changed-transfers now m old s ho hd h k =
    let dropped = delete_role m.event_id old s in
    rw (ho, h, role-delete_role_other m.event_id old m.new_owner_id s (ground arith), k)
      (
        role-write_role_other now m.event_id m.new_owner_id old EventRoleType.admin dropped hd
            ∙ find-delete_many (role_of m.event_id old) s.roles,
        (role-write_role now m.event_id m.new_owner_id EventRoleType.admin dropped).0,
        (λ other e d.
            role-write_role_other now m.event_id m.new_owner_id other EventRoleType.admin dropped d
            ∙ role-delete_role_other m.event_id old other s e),
      )
