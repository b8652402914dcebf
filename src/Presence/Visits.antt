-- ===== src/Presence/Visits.antt =====
-- What milestones mean for one seat (handlers/milestone.handler.ts), and that the rows say it.
use omnixys_seat_service.Base.{
  Bool, true, false, not, ◌&&◌, ◌≡◌, refl, ap, ◌∙◌, List, [], ◌∷◌, Option, none, some, ◌==◌,
  if◌then◌else◌, find, is_some, or_else, holds, arith, Bool-cases, inl, inr, ==_iff,
}
use omnixys_seat_service.Store.Rows.{Uuid, Time}
use omnixys_seat_service.Projections.Rows.{upserted, find-upsert, find-upsert_other}
use omnixys_seat_service.Presence.Milestone.{
  SeatPresenceProjection, MilestoneType, Milestone, PresenceState, presence_of, is_inside,
  scanned_row, scan, revoked_row, revoke, record_milestone, record_for, handle_milestone,
}

-- Whether the guest is in, when they came in first, and when the ticket was last revoked.
pub record Visit : Type 0 where
  pub inside : Bool
  pub first : Option Time
  pub revoked : Option Time

abbrev pub unknown : Visit
unknown = record { inside = false; first = none; revoked = none }

abbrev pub revocation : Bool → Option Time → Option Time
revocation false time = none
revocation true time = time

-- What the row of a seat says.
abbrev pub visit : Option SeatPresenceProjection → Visit
visit none = unknown
visit (some r) = record {
  inside = is_inside r.presence_state;
  first = r.checked_in_at;
  revoked = revocation r.revoked r.revoked_at;
}

-- A scan takes the guest in or out, and the first that takes them in is kept; a revocation takes
-- them out.
abbrev pub change : MilestoneType → Time → Visit → Visit
change MilestoneType.ticket_scanned time v = record v {
  inside = not v.inside;
  first = if v.inside then v.first else or_else v.first (some time);
}
change MilestoneType.ticket_revoked time v = record v { inside = false; revoked = some time }
change MilestoneType.other time v = v

abbrev pub change_for : Uuid → Milestone → Visit → Visit
change_for seat m v = if holds m.reference_id seat then change m.type m.occurred_at v else v

-- Milestones, each with the time at which it is handled.
abbrev pub visits : Uuid → List (Time × Milestone) → Visit → Visit
visits seat [] v = v
visits seat (m ∷ ms) v = visits seat ms (change_for seat m.1 v)

abbrev pub deliver :
    List (Time × Milestone) → List SeatPresenceProjection → List SeatPresenceProjection
deliver [] rows = rows
deliver (m ∷ ms) rows = deliver ms (handle_milestone m.0 m.1 rows)

abbrev pub visit_at : Uuid → List SeatPresenceProjection → Visit
visit_at seat rows = visit (find (presence_of seat) rows)

taken_in :
    (b : Bool) (f : Option Time) (time : Time) (x : Option Time)
    → let state = if b then PresenceState.outside else PresenceState.inside in
      ◌≡◌ {A = Visit}
        (record {
          inside = is_inside state;
          first = or_else (if is_inside state && not (is_some f) then some time else none) f;
          revoked = x;
        })
        (change MilestoneType.ticket_scanned time (record { inside = b; first = f; revoked = x }))
taken_in false none time x = refl
taken_in false (some t) time x = refl
taken_in true none time x = refl
taken_in true (some t) time x = refl

visit-scanned :
    (now : Time) (m : Milestone) (seat : Uuid) (o : Option SeatPresenceProjection)
    → visit (some (upserted (scanned_row now m seat o) (scan now m o) o))
      ≡ change MilestoneType.ticket_scanned m.occurred_at (visit o)
visit-scanned now m seat none = refl
visit-scanned now m seat (some r) =
    taken_in (is_inside r.presence_state) r.checked_in_at m.occurred_at
      (revocation r.revoked r.revoked_at)

visit-revoked :
    (now : Time) (m : Milestone) (seat : Uuid) (o : Option SeatPresenceProjection)
    → visit (some (upserted (revoked_row now m seat) (revoke now m) o))
      ≡ change MilestoneType.ticket_revoked m.occurred_at (visit o)
visit-revoked now m seat none = refl
visit-revoked now m seat (some r) = refl

visit-record_milestone :
    (now : Time) (m : Milestone) (seat : Uuid) (type : MilestoneType)
    (rows : List SeatPresenceProjection)
    → visit_at seat (record_milestone now m type seat rows)
      ≡ change type m.occurred_at (visit_at seat rows)
unfolding record_milestone
visit-record_milestone now m seat MilestoneType.ticket_scanned rows =
    let o = find (presence_of seat) rows in
    ap visit (
      find-upsert (presence_of seat) (scanned_row now m seat o) (scan now m o) rows (ground arith)
        (λ x h. h))
    ∙ visit-scanned now m seat o
visit-record_milestone now m seat MilestoneType.ticket_revoked rows =
    ap visit (
      find-upsert (presence_of seat) (revoked_row now m seat) (revoke now m) rows (ground arith)
        (λ x h. h))
    ∙ visit-revoked now m seat (find (presence_of seat) rows)
visit-record_milestone now m seat MilestoneType.other rows = refl

visit-record_milestone_other :
    (now : Time) (m : Milestone) (other seat : Uuid) (type : MilestoneType)
    (rows : List SeatPresenceProjection)
    → (other == seat) ≡ false
    → visit_at seat (record_milestone now m type other rows) ≡ visit_at seat rows
unfolding record_milestone
visit-record_milestone_other now m other seat MilestoneType.ticket_scanned rows h = ap visit (
    find-upsert_other (presence_of other) (presence_of seat) _ _ rows h
      (λ x k. (ground arith, ground arith)))
visit-record_milestone_other now m other seat MilestoneType.ticket_revoked rows h = ap visit (
    find-upsert_other (presence_of other) (presence_of seat) _ _ rows h
      (λ x k. (ground arith, ground arith)))
visit-record_milestone_other now m other seat MilestoneType.other rows h = refl

visit-handle :
    (now : Time) (m : Milestone) (seat : Uuid) (rows : List SeatPresenceProjection)
    → visit_at seat (handle_milestone now m rows) ≡ change_for seat m (visit_at seat rows)
unfolding handle_milestone
visit-handle now m seat rows = about m.reference_id
  where
    about :
        (reference : Option Uuid)
        → visit_at seat (record_for now m reference rows) ≡ (
            if holds reference seat
            then change m.type m.occurred_at (visit_at seat rows)
            else visit_at seat rows)
    about none = refl
    about (some id) = elim (Bool-cases (id == seat)) [
      | inl e ↦ rw (e, (==_iff id seat).0 e) (visit-record_milestone now m seat m.type rows)
      | inr e ↦ rw e (visit-record_milestone_other now m id seat m.type rows e)
    ]

-- The rows say of a seat, after any milestones, what the milestones that refer to the seat make, in
-- their order, of what the rows said before.
pub visit-deliver :
    (seat : Uuid) (ms : List (Time × Milestone)) (rows : List SeatPresenceProjection)
    → visit_at seat (deliver ms rows) ≡ visits seat ms (visit_at seat rows)
visit-deliver seat [] rows = refl
visit-deliver seat (m ∷ ms) rows =
    visit-deliver seat ms (handle_milestone m.0 m.1 rows)
    ∙ ap (visits seat ms) (visit-handle m.0 m.1 seat rows)
