-- ===== src/Presence/Scans.antt =====
-- Scans between revocations (handlers/milestone.handler.ts): each takes the guest in or out, also with
-- a ticket that is revoked, and also when it is one that was handled before.
use omnixys_seat_service.Base.{
  ℕ, zero, suc, ◌+◌, Bool, true, false, not, ◌&&◌, ◌≡◌, refl, List, [], ◌∷◌, if◌then◌else◌,
  count_if, All, holds, Bool-cases, inl, inr, arith, ap, ◌∙◌,
}
use omnixys_seat_service.Store.Rows.{Uuid, Time}
use omnixys_seat_service.Presence.Milestone.{SeatPresenceProjection, MilestoneType, Milestone}
use omnixys_seat_service.Presence.Visits.{
  Visit, change, change_for, visits, deliver, visit_at, visit-deliver,
}

abbrev pub is_scanned : MilestoneType → Bool
is_scanned MilestoneType.ticket_scanned = true
is_scanned MilestoneType.ticket_revoked = false
is_scanned MilestoneType.other = false

abbrev pub is_revoked : MilestoneType → Bool
is_revoked MilestoneType.ticket_scanned = false
is_revoked MilestoneType.ticket_revoked = true
is_revoked MilestoneType.other = false

abbrev pub is_scan : Uuid → Milestone → Bool
is_scan seat m = holds m.reference_id seat && is_scanned m.type

abbrev pub is_revocation : Uuid → Milestone → Bool
is_revocation seat m = holds m.reference_id seat && is_revoked m.type

-- The scans of the seat's ticket.
abbrev pub scans : Uuid → List (Time × Milestone) → ℕ
scans seat ms = count_if (λ m. is_scan seat m.1) ms

-- In or out, after a number of scans.
abbrev pub toggled : ℕ → Bool → Bool
toggled zero inside = inside
toggled (suc n) inside = not (toggled n inside)

toggled-not : (n : ℕ) (b : Bool) → toggled n (not b) ≡ not (toggled n b)
toggled-not zero b = refl
toggled-not (suc n) b = ap not (toggled-not n b)

toggled-step :
    (b : Bool) (n : ℕ) (inside : Bool)
    → toggled n (if b then not inside else inside) ≡ toggled ((if b then 1 else 0) + n) inside
toggled-step false n inside = let e : n ≡ 0 + n = omega arith in ap (λ k. toggled k inside) e
toggled-step true n inside =
    let e : suc n ≡ 1 + n = omega arith in toggled-not n inside ∙ ap (λ k. toggled k inside) e

change-scans :
    (type : MilestoneType) (time : Time) (v : Visit)
    → is_revoked type ≡ false
    → ((change type time v).inside ≡ (if is_scanned type then not v.inside else v.inside))
      × ((change type time v).revoked ≡ v.revoked)
change-scans MilestoneType.ticket_scanned time v h = (refl, refl)
change-scans MilestoneType.ticket_revoked time v h = cc
change-scans MilestoneType.other time v h = (refl, refl)

change_for-scans :
    (seat : Uuid) (m : Milestone) (v : Visit)
    → is_revocation seat m ≡ false
    → ((change_for seat m v).inside ≡ (if is_scan seat m then not v.inside else v.inside))
      × ((change_for seat m v).revoked ≡ v.revoked)
change_for-scans seat m v h = elim (Bool-cases (holds m.reference_id seat)) [
  | inl e ↦ rw e (change-scans m.type m.occurred_at v (ground arith))
  | inr e ↦ rw e (refl, refl)
]

visits-scans :
    (seat : Uuid) (ms : List (Time × Milestone)) (v : Visit)
    → All (λ m. is_revocation seat m.1 ≡ false) ms
    → ((visits seat ms v).inside ≡ toggled (scans seat ms) v.inside)
      × ((visits seat ms v).revoked ≡ v.revoked)
visits-scans seat [] v h = (refl, refl)
visits-scans seat (m ∷ ms) v h =
    let c = change_for-scans seat m.1 v h.0 in
    let ih = visits-scans seat ms (change_for seat m.1 v) h.1 in
    (
      ih.0
          ∙ ap (toggled (scans seat ms)) c.0
          ∙ toggled-step (is_scan seat m.1) (scans seat ms) v.inside,
      ih.1 ∙ c.1,
    )

-- After milestones that do not revoke the seat's ticket, the guest is in or out as the number of the
-- ticket's scans among them says, counted from where they were before, and the time of the last
-- revocation is as before: a ticket that was revoked goes on taking the guest in and out.
pub deliver-scans :
    (seat : Uuid) (ms : List (Time × Milestone)) (rows : List SeatPresenceProjection)
    → All (λ m. is_revocation seat m.1 ≡ false) ms
    → let before = visit_at seat rows in
      let after = visit_at seat (deliver ms rows) in
      (after.inside ≡ toggled (scans seat ms) before.inside) × (after.revoked ≡ before.revoked)
deliver-scans seat ms rows h =
    rw (visit-deliver seat ms rows) (visits-scans seat ms (visit_at seat rows) h)
