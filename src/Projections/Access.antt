-- ===== src/Projections/Access.antt =====
-- `handleUserAccessChanged` of handlers/event-role.handler.ts over a sequence of messages, as steps on
-- the content of the row of one user.
use omnixys_seat_service.Base.{
  Bool, false, ◌&&◌, ◌≡◌, refl, List, [], ◌∷◌, Option, none, some, String, ◌==◌, if◌then◌else◌,
  find, arith, Bool-cases, inl, inr, and-eq-true, ==_iff, sym, ◌∙◌, ap,
}
use omnixys_seat_service.Store.Rows.{Uuid, Time}
use omnixys_seat_service.Meta.{Json}
use omnixys_seat_service.Projections.Rows.{
  EventAccessProjection, Projections, access_of, find-upsert, find-upsert_other, upserted,
}
use omnixys_seat_service.Projections.Roles.{
  EventAccessDto, handle_user_access_changed, write_access, access_row, set_access, is_stale_access,
  is_before,
}

-- Messages, each with the time at which it is handled.
abbrev pub deliver : List (Time × EventAccessDto) → Projections → Projections
deliver [] s = s
deliver (m ∷ ms) s = deliver ms (handle_user_access_changed m.0 m.1 s)

abbrev pub access : Uuid → Uuid → Projections → Option EventAccessProjection
access event user s = find (access_of event user) s.accesses

-- What a row says, less the time at which it was written.
abbrev pub Content : Type 0
Content = Option Time × (List String × Json)

abbrev pub content : Option EventAccessProjection → Option Content
content none = none
content (some r) = some (r.occurred_at, (r.permissions, r.roles))

abbrev pub content_of : EventAccessDto → Content
content_of m = (some m.occurred_at, (m.permissions, m.roles))

abbrev pub is_about : Uuid → Uuid → EventAccessDto → Bool
is_about event user m = (m.event_id == event) && (m.user_id == user)

abbrev pub stale : Time → Option Content → Bool
stale time none = false
stale time (some c) = is_before time c.0

abbrev pub step : EventAccessDto → Option Content → Option Content
step m c = if stale m.occurred_at c then c else some (content_of m)

stale_lem :
    (time : Time) (r : Option EventAccessProjection)
    → stale time (content r) ≡ is_stale_access time r
stale_lem time none = refl
stale_lem time (some r) = refl

content-upserted :
    (now : Time) (m : EventAccessDto) (r : Option EventAccessProjection)
    → content (some (upserted (access_row now m) (set_access now m) r)) ≡ some (content_of m)
content-upserted now m none = refl
content-upserted now m (some r) = refl

content-write_access :
    (now : Time) (m : EventAccessDto) (s : Projections)
    → content (access m.event_id m.user_id (write_access now m s)) ≡ some (content_of m)
content-write_access now m s =
    ap content (
      find-upsert (access_of m.event_id m.user_id) (access_row now m) (set_access now m) s.accesses
        (ground arith) (λ x h. h))
    ∙ content-upserted now m (access m.event_id m.user_id s)

access-write_access_other :
    (now : Time) (m : EventAccessDto) (event user : Uuid) (s : Projections)
    → is_about event user m ≡ false
    → access event user (write_access now m s) ≡ access event user s
access-write_access_other now m event user s h =
    find-upsert_other (access_of m.event_id m.user_id) (access_of event user) (access_row now m)
      (set_access now m) s.accesses h (λ x k. (ground arith, ground arith))

content-handle_same :
    (now : Time) (m : EventAccessDto) (s : Projections)
    → content (access m.event_id m.user_id (handle_user_access_changed now m s))
      ≡ step m (content (access m.event_id m.user_id s))
unfolding handle_user_access_changed
content-handle_same now m s =
    elim (Bool-cases (is_stale_access m.occurred_at (access m.event_id m.user_id s))) [
      | inl e ↦ rw (e, stale_lem m.occurred_at (access m.event_id m.user_id s), e) refl
      | inr e ↦
          rw (e, stale_lem m.occurred_at (access m.event_id m.user_id s), e)
            (content-write_access now m s)
    ]

access-handle_other :
    (now : Time) (m : EventAccessDto) (event user : Uuid) (s : Projections)
    → is_about event user m ≡ false
    → access event user (handle_user_access_changed now m s) ≡ access event user s
unfolding handle_user_access_changed
access-handle_other now m event user s h =
    elim (Bool-cases (is_stale_access m.occurred_at (access m.event_id m.user_id s))) [
      | inl e ↦ rw e refl
      | inr e ↦ rw e (access-write_access_other now m event user s h)
    ]

-- The handler is a step on the content of the row that the message is about, and leaves the others.
abbrev pub step_of : Uuid → Uuid → EventAccessDto → Option Content → Option Content
step_of event user m c = if is_about event user m then step m c else c

content-handle :
    (now : Time) (m : EventAccessDto) (event user : Uuid) (s : Projections)
    → content (access event user (handle_user_access_changed now m s))
      ≡ step_of event user m (content (access event user s))
content-handle now m event user s = elim (Bool-cases (is_about event user m)) [
  | inl e ↦
      let (p, q) = and-eq-true (m.event_id == event) (m.user_id == user) e in
      rw (e, sym ((==_iff m.event_id event).0 p), sym ((==_iff m.user_id user).0 q))
        (content-handle_same now m s)
  | inr e ↦ rw e (ap content (access-handle_other now m event user s e))
]

abbrev pub steps : Uuid → Uuid → List (Time × EventAccessDto) → Option Content → Option Content
steps event user [] c = c
steps event user (m ∷ ms) c = steps event user ms (step_of event user m.1 c)

pub content-deliver :
    (event user : Uuid) (ms : List (Time × EventAccessDto)) (s : Projections)
    → content (access event user (deliver ms s))
      ≡ steps event user ms (content (access event user s))
content-deliver event user [] s = refl
content-deliver event user (m ∷ ms) s =
    content-deliver event user ms (handle_user_access_changed m.0 m.1 s)
    ∙ ap (steps event user ms) (content-handle m.0 m.1 event user s)
