-- ===== src/Seat/Settled.antt =====
-- assignSeatToGuest is all or nothing (seat/services/seat-write.service.ts).
use omnixys_seat_service.Seat.Held.{IsGuestSeat, existing-IsGuestSeat, claimed-IsGuestSeat}
use omnixys_seat_service.Base.{
  ℕ, ◌≡◌, refl, sym, ◌∙◌, Bool, true, Option, none, some, find, count_if, update_if, is_some, ◌==◌,
  ==_iff, Bool-cases, Option-cases, inl, inr,
}
use omnixys_seat_service.Store.Rows.{
  Uuid, Seat, AssignSeatDto, Db, seat_assigned, assigned_guest, has_invitation, empty,
  SeatAssignmentAction,
}
use omnixys_seat_service.Store.Exec.{
  Error, Result, ok, err, Env, Exec, pure, or_raise, settle, transaction, continue, ◌>>=◌, ◌>>◌,
  when,
}
use omnixys_seat_service.Store.Tables.{
  seats_ok, find_seat, update_many_seats, find_earliest, log_assignment,
}
use omnixys_seat_service.Store.Post.{Post, Post-continue}
use omnixys_seat_service.Store.Quiet.{IsQuiet, log_assignment-IsQuiet, enqueue-IsQuiet}
use omnixys_seat_service.Audit.{log_change, enqueue}
use omnixys_seat_service.Seat.Common.{fact}
use omnixys_seat_service.Seat.Guest.{
  is_existing, is_open, pick_seat, can_take, seat_guest, record_taken, finish_claim, take_seat,
  take_picked, reuse_or_take, assign_seat_to_guest,
}

update_many_seats-Post :
    (p : Seat → Bool) (f : Seat → Seat) (db : Db)
    → Post
        (λ n db'.
          (n ≡ count_if p db.seats)
          × (db'.seats ≡ update_if p f db.seats)
          × (seats_ok db'.seats ≡ true))
        (λ _. Unit {0})
        (update_many_seats p f db)
unfolding update_many_seats
update_many_seats-Post p f db = elim (Bool-cases (seats_ok (update_if p f db.seats))) [
  | inl fine ↦ rw fine (refl, refl, fine)
  | inr clash ↦ rw clash tt
]

moved-IsGuestSeat :
    (input : AssignSeatDto) (a : Seat) (db db' : Db)
    → db'.seats ≡ db.seats
    → IsGuestSeat input a db
    → IsGuestSeat input a db'
moved-IsGuestSeat input a db db' e h = record {
  found = rw e h.found;
  event = h.event;
  guest = h.guest;
  invitation = h.invitation;
  valid = rw e h.valid;
}

quiet : {A : Type 0} (m : Exec A) (E : Error → Type 0) → IsQuiet E m → IsQuiet (λ _. Unit {0}) m
quiet {A} m E q s = go (m s) (q s)
  where
    go :
        (r : Result A × Db)
        → Post (λ _ s'. s'.seats ≡ s.seats) E r
        → Post (λ _ s'. s'.seats ≡ s.seats) (λ _. Unit {0}) r
    go (ok a, s') h = h
    go (err x, s') h = tt

record_taken-Post :
    (e : Env) (input : AssignSeatDto) (a : Seat) (db : Db)
    → IsGuestSeat input a db
    → Post (IsGuestSeat input) (λ _. Unit {0}) (record_taken e input a db)
unfolding ◌>>=◌
record_taken-Post e input a db h =
    let f =
      fact e "SeatAssigned" a.id input.guest_id input.event_id
        (has_invitation (is_some input.invitation_id)) in
    let log =
      log_assignment e input.event_id a.id (some input.guest_id) input.invitation_id
        SeatAssignmentAction.assigned empty in
    Post-continue (λ _ s. s.seats ≡ db.seats) (IsGuestSeat input) (λ _. Unit {0}) (log db)
      (λ _. enqueue e "seat.assigned.v1" f >> pure a)
      (log_assignment-IsQuiet (λ _. Unit {0}) e input.event_id a.id (some input.guest_id)
        input.invitation_id SeatAssignmentAction.assigned empty db)
      (λ _ s q.
        Post-continue (λ _ s'. s'.seats ≡ s.seats) (IsGuestSeat input) (λ _. Unit {0})
          (enqueue e "seat.assigned.v1" f s) (λ _. pure a)
          (quiet (enqueue e "seat.assigned.v1" f) _ (enqueue-IsQuiet e "seat.assigned.v1" f) s)
          (λ _ s' q'. moved-IsGuestSeat input a db s' (q' ∙ q) h))

finish_claim-Post :
    (e : Env) (input : AssignSeatDto) (seat : Seat) (db db' : Db) (claimed : ℕ)
    → seats_ok db.seats ≡ true
    → claimed ≡ count_if (can_take input seat) db.seats
    → db'.seats ≡ update_if (can_take input seat) (seat_guest input) db.seats
    → seats_ok db'.seats ≡ true
    → Post (IsGuestSeat input) (λ _. Unit {0}) (finish_claim e input seat claimed db')
unfolding when ◌>>=◌ or_raise
finish_claim-Post e input seat db db' claimed valid counted rows valid' =
    elim (Bool-cases (claimed == 1)) [
      | inr busy ↦ rw busy tt
      | inl one ↦
          let (a, found, h) =
            claimed-IsGuestSeat input seat db db' valid rows valid'
              (sym counted ∙ (==_iff claimed 1).0 one) in
          rw (one, found) (record_taken-Post e input a db' h)
    ]

take_seat-Post :
    (e : Env) (input : AssignSeatDto) (seat : Seat) (db : Db)
    → seats_ok db.seats ≡ true
    → Post (IsGuestSeat input) (λ _. Unit {0}) (take_seat e input seat db)
unfolding take_seat when ◌>>=◌ or_raise
take_seat-Post e input seat db valid = elim (Bool-cases (seat.event_id == input.event_id)) [
  | inr other ↦ rw other tt
  | inl same_event ↦ rw same_event (
      Post-continue
        (λ n db'.
          (n ≡ count_if (can_take input seat) db.seats)
          × (db'.seats ≡ update_if (can_take input seat) (seat_guest input) db.seats)
          × (seats_ok db'.seats ≡ true))
        (IsGuestSeat input) (λ _. Unit {0})
        (update_many_seats (can_take input seat) (seat_guest input) db)
        (λ claimed. finish_claim e input seat claimed)
        (update_many_seats-Post (can_take input seat) (seat_guest input) db)
        λ claimed db' h. finish_claim-Post e input seat db db' claimed valid h.0 h.1 h.2)
]

take_picked-Post :
    (e : Env) (input : AssignSeatDto) (picked : Option Seat) (db : Db)
    → seats_ok db.seats ≡ true
    → Post (IsGuestSeat input) (λ _. Unit {0}) (take_picked e input picked db)
unfolding ◌>>=◌ or_raise
take_picked-Post e input none db valid = tt
take_picked-Post e input (some seat) db valid = take_seat-Post e input seat db valid

pick-Post :
    (e : Env) (input : AssignSeatDto) (o : Option Uuid) (db : Db)
    → seats_ok db.seats ≡ true
    → Post
        (IsGuestSeat input)
        (λ _. Unit {0})
        ((do picked ← pick_seat input o; take_picked e input picked) db)
unfolding ◌>>=◌
pick-Post e input none db valid =
    take_picked-Post e input (find_earliest (is_open input.event_id) db.seats) db valid
pick-Post e input (some id) db valid = take_picked-Post e input (find_seat id db) db valid

reuse_or_take-Post :
    (e : Env) (input : AssignSeatDto) (db : Db)
    → seats_ok db.seats ≡ true
    → Post
        (IsGuestSeat input)
        (λ _. Unit {0})
        (reuse_or_take e input (find (is_existing input) db.seats) db)
reuse_or_take-Post e input db valid = elim (Option-cases (find (is_existing input) db.seats)) [
  | inl fresh ↦ rw fresh (pick-Post e input input.seat_id db valid)
  | inr (a, f) ↦ rw f (existing-IsGuestSeat input db a valid f)
]

-- A call that returns, or throws and leaves the database as it was.
abbrev pub Settles : {A : Type 0} → (A → Db → Type 0) → Db → Result A × Db → Type 0
Settles Q db (ok a, s) = Q a s
Settles Q db (err x, s) = s ≡ db

settle-Settles :
    {A : Type 0} (Q : A → Db → Type 0) (db : Db) (r : Result A × Db)
    → Post Q (λ _. Unit {0}) r
    → Settles Q db (settle r db)
settle-Settles Q db (ok a, s) h = h
settle-Settles Q db (err x, s) h = refl

logged-Settles :
    (e : Env) (input : AssignSeatDto) (db : Db) (r : Result Seat × Db)
    → Settles (IsGuestSeat input) db r
    → Settles (IsGuestSeat input) db (
        continue r λ a.
          (log_change e input.event_id input.actor_id seat_assigned (assigned_guest input))
          >> pure a)
unfolding log_change ◌>>=◌
logged-Settles e input db (ok a, s) h = moved-IsGuestSeat input a s _ refl h
logged-Settles e input db (err x, s) h = h

-- assignSeatToGuest is all or nothing.
pub assign_seat_to_guest-Settles :
    (e : Env) (input : AssignSeatDto) (db : Db)
    → seats_ok db.seats ≡ true
    → Settles (IsGuestSeat input) db (assign_seat_to_guest e input db)
unfolding assign_seat_to_guest transaction ◌>>=◌
assign_seat_to_guest-Settles e input db valid =
    logged-Settles e input db
      (settle (reuse_or_take e input (find (is_existing input) db.seats) db) db)
      (settle-Settles (IsGuestSeat input) db
        (reuse_or_take e input (find (is_existing input) db.seats) db)
        (reuse_or_take-Post e input db valid))
