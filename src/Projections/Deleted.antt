-- ===== src/Projections/Deleted.antt =====
-- `handleEventDeleted` of handlers/event-role.handler.ts: what is left of the events and of the others.
use omnixys_seat_service.Base.{
  Bool, true, false, ◌≡◌, refl, List, [], ◌∷◌, none, find, arith, ==_iff, Bool-cases, inl, inr,
}
use omnixys_seat_service.Store.Rows.{Uuid}
use omnixys_seat_service.Projections.Rows.{
  EventRoleProjection, EventAccessProjection, EventSettingsProjection, Projections, role_of,
  access_of, delete_many, find-delete_many_other,
}
use omnixys_seat_service.Projections.Settings.{settings_of}
use omnixys_seat_service.Projections.Roles.{handle_event_deleted, is_in}

-- The rows of the event in the three tables.
abbrev pub AllFind : Uuid → Uuid → Projections → Projections → Type 0
AllFind event user s s' =
    (find (role_of event user) s.roles ≡ find (role_of event user) s'.roles)
    × (find (access_of event user) s.accesses ≡ find (access_of event user) s'.accesses)
    × (find (settings_of event) s.settings ≡ find (settings_of event) s'.settings)

abbrev pub nothing : Projections
nothing = record { roles = []; accesses = []; settings = [] }

module _ {A : Type 0} (event_id : A → Uuid) (ids : List Uuid) (event : Uuid) (q : A → Bool)
    (about : (x : A) → q x ≡ true → event_id x ≡ event) where
  find-deleted :
      is_in event ids ≡ true
      → (xs : List A) → find q (delete_many (λ x. is_in (event_id x) ids) xs) ≡ none
  unfolding delete_many
  find-deleted h [] = refl
  find-deleted h (x ∷ xs) = elim (Bool-cases (q x)) [
    | inl e ↦ rw (about x e, h) (find-deleted h xs)
    | inr e ↦ elim (Bool-cases (is_in (event_id x) ids)) [
      | inl d ↦ rw d (find-deleted h xs)
      | inr d ↦ rw (d, e) (find-deleted h xs)
    ]
  ]

  find-kept :
      is_in event ids ≡ false
      → (xs : List A) → find q (delete_many (λ x. is_in (event_id x) ids) xs) ≡ find q xs
  find-kept h xs =
      find-delete_many_other (λ x. is_in (event_id x) ids) q xs (λ x k. rw (about x k) h)

-- After the message nothing is left of an event that it names, for any user, and the rows of every
-- other event are as they were.
pub handle_event_deleted-clears :
    (ids : List Uuid) (event user : Uuid) (s : Projections)
    → (is_in event ids ≡ true → AllFind event user (handle_event_deleted ids s) nothing)
      × (is_in event ids ≡ false → AllFind event user (handle_event_deleted ids s) s)
unfolding handle_event_deleted
handle_event_deleted-clears ids event user s = (
  (λ h. (
    find-deleted (λ r. r.event_id) ids event (role_of event user) role h s.roles,
    find-deleted (λ r. r.event_id) ids event (access_of event user) acc h s.accesses,
    find-deleted (λ r. r.event_id) ids event (settings_of event) set h s.settings,
  )),
  (λ h. (
    find-kept (λ r. r.event_id) ids event (role_of event user) role h s.roles,
    find-kept (λ r. r.event_id) ids event (access_of event user) acc h s.accesses,
    find-kept (λ r. r.event_id) ids event (settings_of event) set h s.settings,
  )),
)
  where
    role : (r : EventRoleProjection) → role_of event user r ≡ true → r.event_id ≡ event
    role r h = ground arith

    acc : (r : EventAccessProjection) → access_of event user r ≡ true → r.event_id ≡ event
    acc r h = ground arith

    set : (r : EventSettingsProjection) → settings_of event r ≡ true → r.event_id ≡ event
    set r h = (==_iff r.event_id event).0 h
