-- ===== src/Tests/Projections.antt =====
-- The theorems on messages, order numbers and metadata at concrete inputs.
use omnixys_seat_service.Base.{
  ◌≡◌, ◌≢◌, ◌⊎◌, refl, true, false, none, some, [], ◌∷◌, ◌++◌, arith, All, ◌<◌, ◌==◌, ℕ, ◌+◌,
}
use omnixys_seat_service.Base.Int.{pos, ◌+ℤ◌, ◌≤ℤ◌}
use omnixys_seat_service.Meta.{
  Fields, null, num, bool, obj, end, field, get, default_meta, prepare_meta,
}
use omnixys_seat_service.Meta.Lookups.{AreTidy, Overlaid, prepare_meta-Overlaid}
use omnixys_seat_service.AutoOrder.{next_order, next_order-above}
use omnixys_seat_service.Store.Rows.{Section}
use omnixys_seat_service.Projections.Rows.{EventRoleType, EventRoleProjection, Projections}
use omnixys_seat_service.Projections.Roles.{
  EventAccessDto, EventRoleAssignedDto, EventOwnerChangedDto, handle_role_assigned,
  handle_owner_changed, handle_event_deleted, is_in,
}
use omnixys_seat_service.Projections.Access.{deliver, access, content, is_about}
use omnixys_seat_service.Projections.Newest.{IsFrom, IsAtLeast, deliver-newest}
use omnixys_seat_service.Projections.Reorder.{deliver-swap}
use omnixys_seat_service.Projections.Fresh.{
  role_row_of, role_in, handle_role_assigned-drops_newer, handle_owner_changed-transfers,
}
use omnixys_seat_service.Projections.Deleted.{AllFind, nothing, handle_event_deleted-clears}
use omnixys_seat_service.Tests.Data.{section_row}

abbrev access_at : ℕ → ℕ × EventAccessDto
access_at time = (
  1000 + time,
  record {
    event_id = 9;
    user_id = 1;
    permissions = "seat:read" ∷ [];
    roles = null;
    occurred_at = time;
  },
)

abbrev role_row : ℕ → EventRoleType → EventRoleProjection
role_row user role = record { event_id = 9; user_id = user; role = role; updated_at = some 10 }

abbrev projections : Projections
projections = record {
  roles = role_row 1 EventRoleType.admin ∷ role_row 2 EventRoleType.guest ∷ [];
  accesses = [];
  settings = [];
}

deliver-newest_example :
    let after = content (access 9 1 (deliver (access_at 30 ∷ access_at 20 ∷ []) projections)) in
    ((after ≡ none) ⊎ IsFrom 9 1 (access_at 30 ∷ access_at 20 ∷ []) after)
    × All
        (λ m. is_about 9 1 m.1 ≡ true → IsAtLeast m.1.occurred_at after)
        (access_at 30 ∷ access_at 20 ∷ [])
deliver-newest_example = deliver-newest 9 1 (access_at 30 ∷ access_at 20 ∷ []) projections

access_at-distinct : ◌≢◌ {A = ℕ} 30 20
access_at-distinct = omega arith

deliver-swap_example :
    content
      (access 9 1 (deliver ((access_at 10 ∷ []) ++ access_at 30 ∷ access_at 20 ∷ []) projections))
    ≡ content
        (access 9 1 (deliver ((access_at 10 ∷ []) ++ access_at 20 ∷ access_at 30 ∷ []) projections))
deliver-swap_example =
    deliver-swap 9 1 (access_at 10 ∷ []) [] (access_at 30) (access_at 20) projections
      (λ _ _. access_at-distinct)

abbrev assigned_at : ℕ → EventRoleType → EventRoleAssignedDto
assigned_at time role = record { event_id = 9; user_id = 1; role = role; occurred_at = time }

time_order : 60 < 100
time_order = omega arith

handle_role_assigned-drops_newer_example :
    (role_in (
        role_row_of 9 1 (handle_role_assigned 100 (assigned_at 50 EventRoleType.usher) projections))
      ≡ some EventRoleType.usher)
    × (handle_role_assigned 101
          (assigned_at 60 EventRoleType.support)
          (handle_role_assigned 100 (assigned_at 50 EventRoleType.usher) projections)
        ≡ handle_role_assigned 100 (assigned_at 50 EventRoleType.usher) projections)
handle_role_assigned-drops_newer_example =
    handle_role_assigned-drops_newer 100 101 (assigned_at 50 EventRoleType.usher)
      (assigned_at 60 EventRoleType.support) projections refl refl refl time_order

abbrev new_owner : EventOwnerChangedDto
new_owner = record { event_id = 9; old_owner_id = some 1; new_owner_id = 2; occurred_at = 50 }

handle_owner_changed-transfers_example :
    let after = handle_owner_changed 100 new_owner projections in
    (role_row_of 9 1 after ≡ none)
    × (role_in (role_row_of 9 2 after) ≡ some EventRoleType.admin)
    × ((other : ℕ)
        → (1 == other) ≡ false
        → (2 == other) ≡ false
        → role_row_of 9 other after ≡ role_row_of 9 other projections)
handle_owner_changed-transfers_example =
    handle_owner_changed-transfers 100 new_owner 1 projections refl refl refl refl

handle_event_deleted-clears_example :
    (is_in 9 (9 ∷ []) ≡ true → AllFind 9 1 (handle_event_deleted (9 ∷ []) projections) nothing)
    × (is_in 9 (9 ∷ []) ≡ false
        → AllFind 9 1 (handle_event_deleted (9 ∷ []) projections) projections)
handle_event_deleted-clears_example = handle_event_deleted-clears (9 ∷ []) 9 1 projections

next_order-above_example :
    All
      (λ x.
        true ≡ true
        → x.order +ℤ pos 1 ≤ℤ next_order (λ _. true) (λ x. x.order) (section_row 1 ∷ []))
      (section_row 1 ∷ [])
next_order-above_example =
    next_order-above (λ (x : Section). true) (λ x. x.order) (section_row 1 ∷ [])

abbrev override : Fields
override =
    field "locked" (bool true)
      (field "grid" (obj (field "rows" (num (pos 2)) end)) (field "spacing" (num (pos 20)) end))

override-AreTidy : AreTidy override
unfolding AreTidy get
override-AreTidy = (refl, tt, (refl, (refl, tt, tt), (refl, tt, tt)))

prepare_meta-Overlaid_example :
    Overlaid (some default_meta) (obj override) (prepare_meta (obj override))
prepare_meta-Overlaid_example = prepare_meta-Overlaid override override-AreTidy
