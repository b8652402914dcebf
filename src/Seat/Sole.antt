-- ===== src/Seat/Sole.antt =====
-- assignSeat gives the holder exactly one seat of the event, and never runs into a unique key.
use omnixys_seat_service.Base.{
  String, ◌⊎◌, Bool, true, false, ◌&&◌, ◌≡◌, ◌≢◌, refl, ap, [], Option, some, arith, ◌==◌, ==_iff,
  any, All, is_some, Bool-cases, Option-cases, inl, inr,
}
use omnixys_seat_service.Store.Rows.{Uuid, SeatStatus, Seat, AssignSeatInput, Fact, Db}
use omnixys_seat_service.Store.Exec.{
  Error, Result, ok, err, seat_holder_conflict, seat_not_found, seat_unavailable, Env, ◌>>=◌,
  or_raise, when,
}
use omnixys_seat_service.Store.Tables.{seats_ok, find_seat}
use omnixys_seat_service.Store.Post.{Post, Post-continue, Post-transaction}
use omnixys_seat_service.Store.Unique.{All-weaken, find-passes}
use omnixys_seat_service.Store.Quiet.{IsRefusedFact, enqueue-IsQuiet, IsQuiet, enqueue-IsQuiet}
use omnixys_seat_service.Seat.Assign.{
  is_conflicting, is_claimable, has_assignment, assign_found, assign_seat,
}
use omnixys_seat_service.Audit.{enqueue}
use omnixys_seat_service.Seat.Loop.{
  Loop, IsClaimed, release_others-Loop, claim-IsClaimed, claim_taken, record_assignment-IsQuiet,
}

-- The column does not hold the value.
abbrev pub Lacks : Option Uuid → Option Uuid → Type 0
Lacks column value = (n : Uuid) → value ≡ some n → column ≢ some n

-- The seat of the input is the holder's, and no other seat of the event is.
pub record IsSoleHolder (input : AssignSeatInput) (a : Seat) (db : Db) : Type 0 where
  pub found : find_seat input.seat_id db ≡ some a
  pub guest : a.guest_id ≡ input.guest_id
  pub invitation : a.invitation_id ≡ input.invitation_id
  pub status : a.status ≡ SeatStatus.assigned
  pub others :
      All
        (λ x.
          x.event_id ≡ a.event_id
          → x.id ≢ a.id
          → Lacks x.guest_id input.guest_id × Lacks x.invitation_id input.invitation_id)
        db.seats
  pub valid : seats_ok db.seats ≡ true

clear-Lacks :
    (seat a : Seat) (input : AssignSeatInput) (x : Seat)
    → a.event_id ≡ seat.event_id
    → a.id ≡ seat.id
    → is_conflicting seat input x ≡ false
    → x.event_id ≡ a.event_id
    → x.id ≢ a.id
    → Lacks x.guest_id input.guest_id × Lacks x.invitation_id input.invitation_id
clear-Lacks seat a input x ev i c same differ = (
  (λ n p q. ground (arith, ==_iff x.event_id seat.event_id)),
  (λ n p q. ground (arith, ==_iff x.event_id seat.event_id)),
)

claimed-IsSoleHolder :
    (seat : Seat) (input : AssignSeatInput) (a : Seat) (db db' : Db)
    → seat.id ≡ input.seat_id
    → has_assignment input ≡ true
    → db'.seats ≡ db.seats
    → IsClaimed seat input a db
    → IsSoleHolder input a db'
claimed-IsSoleHolder seat input a db db' i has e h =
    let (s, v, k, q) = h.row in
    record {
      found = rw (e, ← i) h.found;
      guest = rw q refl;
      invitation = rw q refl;
      status = rw (q, has) refl;
      others =
          rw e
            (All-weaken _ _ db.seats (λ x. clear-Lacks seat a input x (rw q v) (rw q k)) h.others);
      valid = rw e h.valid;
    }

module _ (E : Error → Type 0) (e : Env)
    (enq : (topic : String) (fact : Fact) → IsQuiet E (enqueue e topic fact))
    (input : AssignSeatInput) (actor : Uuid) (has : has_assignment input ≡ true) where
  pub assign_found-IsSoleHolder :
      (seat : Seat) (free : Bool) (db : Db)
      → (free ≡ false → E (seat_unavailable seat.event_id (some seat.id)))
      → (free ≡ true → any (is_claimable seat input) db.seats ≡ true)
      → seat.id ≡ input.seat_id
      → seats_ok db.seats ≡ true
      → Post (IsSoleHolder input) E (assign_found e input actor seat db)
  unfolding assign_found when ◌>>=◌
  assign_found-IsSoleHolder seat free db refused claimable i valid = rw has (
      Post-continue (λ _ db'. Loop seat input free false [] db') _ E _ _
        (release_others-Loop E e enq seat input free false refused db valid claimable (λ p. cc))
        λ _ db' l.
          Post-continue (IsClaimed seat input) _ E _ _
            (claim-IsClaimed E e enq seat input free false refused db' l)
            λ a db'' c.
              Post-continue (λ _ db3. db3.seats ≡ db''.seats) _ E _ _
                (record_assignment-IsQuiet E e enq seat input free false refused actor db'')
                λ _ db3 q. claimed-IsSoleHolder seat input a db'' db3 i has q c)

  pub assign_found_taken :
      (seat : Seat) (db : Db)
      → E (seat_unavailable seat.event_id (some seat.id))
      → seats_ok db.seats ≡ true
      → All (λ x. is_claimable seat input x ≡ false) db.seats
      → Post (λ _ _. ⊥) E (assign_found e input actor seat db)
  unfolding assign_found when ◌>>=◌
  assign_found_taken seat db refusal valid closed = rw has (
      Post-continue (λ _ db'. Loop seat input false true [] db') _ E _ _
        (release_others-Loop E e enq seat input false true (λ _. refusal) db valid (λ p. cc)
          (λ _. closed))
        λ _ db' l.
          Post-continue (λ _ _. ⊥) _ E _ _
            (claim_taken E e enq seat input false true (λ _. refusal) db' l refl refusal)
            λ a db'' c. absurd c)

-- The errors with which a call for a holder may end.
abbrev pub IsRefusal : AssignSeatInput → Error → Type 0
IsRefusal input er =
    (er ≡ seat_holder_conflict)
    ⊎ ((er ≡ seat_not_found input.seat_id)
        ⊎ (((event : Uuid) × (er ≡ seat_unavailable event (some input.seat_id)))
            ⊎ IsRefusedFact er))

refused_fact-IsRefusal :
    (input : AssignSeatInput) {er : Error} → IsRefusedFact er → IsRefusal input er
refused_fact-IsRefusal input h = inr (inr (inr h))

enqueue-IsQuietOrRefused :
    (e : Env) (input : AssignSeatInput) (topic : String) (fact : Fact)
    → IsQuiet (IsRefusal input) (enqueue e topic fact)
enqueue-IsQuietOrRefused e input topic fact s =
    go (enqueue e topic fact s) (enqueue-IsQuiet e topic fact s)
  where
    go :
        (r : Result Unit × Db)
        → Post (λ _ s'. s'.seats ≡ s.seats) IsRefusedFact r
        → Post (λ _ s'. s'.seats ≡ s.seats) (IsRefusal input) r
    go (ok a, s') h = h
    go (err er, s') h = refused_fact-IsRefusal input h

pub found_id : (k : Uuid) (db : Db) {a : Seat} → find_seat k db ≡ some a → a.id ≡ k
found_id k db f = (==_iff _ k).0 (find-passes (λ r. r.id == k) db.seats f)

-- Every call that names a guest or an invitation, on seats that meet their unique keys, either
-- returns the seat with that holder, assigned, the only one of its event that the holder has, and
-- with the unique keys still met; or throws a conflict of the two holders, a missing seat, a seat
-- that is not available, or a fact that analytics refuses, and no other error.
pub assign_seat-IsSoleHolder :
    (e : Env) (input : AssignSeatInput) (actor : Uuid) (db : Db)
    → seats_ok db.seats ≡ true
    → has_assignment input ≡ true
    → Post (IsSoleHolder input) (IsRefusal input) (assign_seat e input actor db)
unfolding assign_seat or_raise ◌>>=◌
assign_seat-IsSoleHolder e input actor db valid has =
    elim (Bool-cases (is_some input.guest_id && is_some input.invitation_id)) [
      | inl both ↦ rw both (inl refl)
      | inr one ↦ rw one (
          Post-transaction (IsSoleHolder input) (IsRefusal input) _ db
            (elim (Option-cases (find_seat input.seat_id db)) [
              | inl absent ↦ rw absent (inr (inl refl))
              | inr (seat, f) ↦ rw f (
                  assign_found-IsSoleHolder (IsRefusal input) e (enqueue-IsQuietOrRefused e input)
                    input actor has seat false db
                    (λ _. inr (
                      inr (
                        inl (
                          seat.event_id,
                          ap (λ i. seat_unavailable seat.event_id (some i))
                              (found_id input.seat_id db f),
                        ))))
                    (λ p. cc) (found_id input.seat_id db f) valid)
            ]))
    ]
