-- ===== src/Seat/Free.antt =====
-- Which seats assignSeat may give to a holder (seat/services/seat-write.service.ts), without reference to
-- the filter of its update.
use omnixys_seat_service.Base.{
  Bool, true, false, not, ◌||◌, ◌≡◌, refl, Option, none, some, arith, ◌==◌, ==_iff, same, ◌↔◌, ◌⊎◌,
  inl, inr, and-eq-true, ℕ, ap,
}
use omnixys_seat_service.Store.Rows.{SeatStatus, Seat, AssignSeatInput}
use omnixys_seat_service.Seat.Assign.{is_claimable, is_available, has_assignment}

-- Available and held by nobody, or already the holder's own.
abbrev pub IsFreeOrOwn : AssignSeatInput → Seat → Type 0
IsFreeOrOwn input s =
    ((s.status ≡ SeatStatus.available) × (s.guest_id ≡ none) × (s.invitation_id ≡ none))
    ⊎ ((s.guest_id ≡ input.guest_id) × (s.invitation_id ≡ input.invitation_id))

same_iff : (a b : Option ℕ) → (same a b ≡ true) ↔ (a ≡ b)
same_iff none none = ((λ _. refl), (λ _. refl))
same_iff none (some n) = ((λ h. cc), (λ h. cc))
same_iff (some m) none = ((λ h. cc), (λ h. cc))
same_iff (some m) (some n) = ((λ h. ap some ((==_iff m n).0 h)), (λ h. ground (arith, h)))

pub is_available_iff :
    (status : SeatStatus) → (is_available status ≡ true) ↔ (status ≡ SeatStatus.available)
is_available_iff status = ground arith

or-cases : (a b : Bool) → a || b ≡ true → (a ≡ true) ⊎ (b ≡ true)
or-cases true b h = inl refl
or-cases false b h = inr h

unless : (a b : Bool) → a ≡ true → not a || b ≡ true → b ≡ true
unless a b h k = ground arith

pub is_claimable_iff :
    (input : AssignSeatInput) (s : Seat)
    → has_assignment input ≡ true
    → (is_claimable s input s ≡ true) ↔ IsFreeOrOwn input s
is_claimable_iff input s has = (to, from)
  where
    to : is_claimable s input s ≡ true → IsFreeOrOwn input s
    to h =
        elim (or-cases _ _ (
          unless _ _ has
            (and-eq-true (s.event_id == s.event_id) _ (and-eq-true (s.id == s.id) _ h).1).1)) [
              | inl free ↦
                  let (p, q) = and-eq-true (is_available s.status) _ free in
                  let (g, i) = and-eq-true (same s.guest_id none) (same s.invitation_id none) q in
                  inl (
                    (is_available_iff s.status).0 p,
                    (same_iff s.guest_id none).0 g,
                    (same_iff s.invitation_id none).0 i,
                  )
              | inr own ↦
                  let (g, i) = and-eq-true (same s.guest_id input.guest_id) _ own in
                  inr (
                    (same_iff s.guest_id input.guest_id).0 g,
                    (same_iff s.invitation_id input.invitation_id).0 i,
                  )
            ]

    from : IsFreeOrOwn input s → is_claimable s input s ≡ true
    from (inl (p, g, i)) =
        rw
          (
            has,
            (is_available_iff s.status).1 p,
            (same_iff s.guest_id none).1 g,
            (same_iff s.invitation_id none).1 i,
          )
          (ground arith)
    from (inr (g, i)) =
        rw
          (
            has,
            (same_iff s.guest_id input.guest_id).1 g,
            (same_iff s.invitation_id input.invitation_id).1 i,
          )
          (ground arith)
