-- ===== src/Seat/Stuck.antt =====
-- A seat that nobody holds and that is not available (seat/services/seat-write.service.ts).
use omnixys_seat_service.Base.{
  Bool, true, false, ◌&&◌, ◌≡◌, ◌≢◌, refl, ap, List, [], ◌∷◌, All, update_if, count_if, find,
  Bool-cases, ◌==◌, ==_iff, arith, sym, Option, none, some, is_some, inl, inr, ◌∙◌, ◌||◌,
}
use omnixys_seat_service.Store.Rows.{Uuid, SeatStatus, Seat, AssignSeatInput, AssignSeatDto, Db}
use omnixys_seat_service.Store.Exec.{
  Env, ok, err, seat_unavailable, ◌>>=◌, transaction, or_raise, when,
}
use omnixys_seat_service.Store.Quiet.{IsReady}
use omnixys_seat_service.Store.Tables.{seats_ok, find_seat, update_many_seats}
use omnixys_seat_service.Store.Unique.{All-weaken, find-only}
use omnixys_seat_service.Seat.Guest.{
  is_existing, is_open, can_take, seat_guest, take_seat, assign_seat_to_guest,
}
use omnixys_seat_service.Seat.Assign.{is_available, has_assignment, assign_seat}
use omnixys_seat_service.Seat.Unassign.{unassign_seat}
use omnixys_seat_service.Seat.Free.{IsFreeOrOwn, is_available_iff}
use omnixys_seat_service.Seat.Outcome.{assign_seat_taken}

abbrev pub IsStuck : Seat → Type 0
IsStuck s = (s.guest_id ≡ none) × (s.invitation_id ≡ none) × (s.status ≢ SeatStatus.available)

stuck-taken :
    (input : AssignSeatInput) (s : Seat)
    → IsStuck s
    → has_assignment input ≡ true
    → ¬ (IsFreeOrOwn input s)
stuck-taken input s h has (inl (p, q, r)) = h.2 p
stuck-taken input s h has (inr (p, q)) =
    nobody input.guest_id input.invitation_id (sym h.0 ∙ p) (sym h.1 ∙ q) has
  where
    nobody : (g i : Option Uuid) → none ≡ g → none ≡ i → is_some g || is_some i ≡ true → ⊥
    nobody none none a b c = cc
    nobody none (some i) a b c = cc
    nobody (some g) i a b c = cc

-- With a tenant whose facts are accepted, assignSeat refuses such a seat to every holder, and unassignSeat
-- changes nothing.
pub stuck_seat-stays :
    (e : Env) (input : AssignSeatInput) (actor : Uuid) (db : Db) (seat : Seat)
    → IsReady e
    → seats_ok db.seats ≡ true
    → has_assignment input ≡ true
    → is_some input.guest_id && is_some input.invitation_id ≡ false
    → find_seat input.seat_id db ≡ some seat
    → IsStuck seat
    → (assign_seat e input actor db ≡ (err (seat_unavailable seat.event_id (some seat.id)), db))
      × (unassign_seat e input.seat_id actor db ≡ (ok (some seat), db))
unfolding unassign_seat ◌>>=◌
stuck_seat-stays e input actor db seat ready valid has one f h = (
  assign_seat_taken e input actor db seat ready valid has one f (stuck-taken input seat h has),
  rw (f, h.0, h.1) refl,
)

module _ (p : Seat → Bool) (f : Seat → Seat) where
  update_if-none : (xs : List Seat) → All (λ x. p x ≡ false) xs → update_if p f xs ≡ xs
  update_if-none [] h = refl
  update_if-none (x ∷ xs) h = rw h.0 (ap (λ ys. x ∷ ys) (update_if-none xs h.1))

  count_if-none : (xs : List Seat) → All (λ x. p x ≡ false) xs → count_if p xs ≡ 0
  count_if-none [] h = refl
  count_if-none (x ∷ xs) h = ground (arith, h.0, count_if-none xs h.1)

-- A guest of the event who is to have the seat, without an invitation.
abbrev pub for_guest : Uuid → Uuid → Uuid → Uuid → AssignSeatDto
for_guest seat event guest actor = record {
  seat_id = some seat;
  guest_id = guest;
  invitation_id = none;
  event_id = event;
  note = none;
  actor_id = actor;
}

module _ (e : Env) (guest actor : Uuid) (db : Db) (seat : Seat) (valid : seats_ok db.seats ≡ true)
    (found : find_seat seat.id db ≡ some seat) (stuck : IsStuck seat) where
  abbrev input : AssignSeatDto
  input = for_guest seat.id seat.event_id guest actor

  stuck-closed : is_open seat.event_id seat ≡ false
  stuck-closed = elim (Bool-cases (is_available seat.status)) [
    | inl free ↦ absurd (stuck.2 ((is_available_iff seat.status).0 free))
    | inr shut ↦ rw shut (ground arith)
  ]

  cannot_take : All (λ x. can_take input seat x ≡ false) db.seats
  cannot_take =
      All-weaken _ _ db.seats
        (λ x only. elim (Bool-cases (x.id == seat.id)) [
          | inl own ↦
              rw own
                (ap (is_open seat.event_id) (only ((==_iff x.id seat.id).0 own)) ∙ stuck-closed)
          | inr other ↦ rw other refl
        ])
        (find-only seat.id db.seats valid found)

  -- assignSeatToGuest refuses it, too, to a guest who has no seat of the event.
  pub assign_seat_to_guest-refuses :
      find (is_existing input) db.seats ≡ none
      → assign_seat_to_guest e input db ≡ (err (seat_unavailable seat.event_id (some seat.id)), db)
  unfolding assign_seat_to_guest take_seat ◌>>=◌ transaction or_raise when update_many_seats
  assign_seat_to_guest-refuses new =
      rw
        (
          new,
          found,
          (==_iff seat.event_id seat.event_id).1 refl,
          update_if-none (can_take input seat) (seat_guest input) db.seats cannot_take,
          valid,
          count_if-none (can_take input seat) (seat_guest input) db.seats cannot_take,
        )
        refl
