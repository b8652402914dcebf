-- ===== src/Seat/Loop.antt =====
-- The transaction of assignSeat: the loop that frees the holder's other seats, and the claim.
use omnixys_seat_service.Base.{
  ℕ, String, ◌<◌, Bool, true, false, not, ◌||◌, ◌≡◌, refl, sym, ◌∙◌, List, [], ◌∷◌, Option, none,
  some, arith, ◌==◌, ==_iff, if◌then◌else◌, any, find, select, count_if, update_if, All, Bool-cases,
  inl, inr, and-eq-true,
}
use omnixys_seat_service.Seat.Claimed.{claimed_row, count-le-one, count-pos_of_any, count-zero}
use omnixys_seat_service.Store.Rows.{
  Uuid, Seat, AssignSeatInput, Fact, Db, SeatAssignmentAction, reassigned,
}
use omnixys_seat_service.Store.Exec.{Error, seat_unavailable, Env, ◌>>=◌, when, or_raise}
use omnixys_seat_service.Store.Tables.{seats_ok, find_seat, update_seat_at}
use omnixys_seat_service.Store.Post.{Post, Post-continue, Post-weaken}
use omnixys_seat_service.Store.Unique.{
  any-update_if, All-update_if, All-weaken, select-covers, select-present, select-passes,
}
use omnixys_seat_service.Audit.{enqueue}
use omnixys_seat_service.Store.Quiet.{
  IsQuiet, IsQuiet-bind, log_assignment-IsQuiet, log_change-IsQuiet, update_many_seats_lem,
  update_seat_at_lem,
}
use omnixys_seat_service.Seat.Common.{free_seat, enqueue_for}
use omnixys_seat_service.Seat.Assign.{
  is_conflicting, is_claimable, hold_seat, has_assignment, release, release_all, release_others,
  read_claimed, claim, record_assignment,
}
use omnixys_seat_service.Seat.Rivals.{
  Pending, Pending-free, seats_ok-free, seats_ok-hold, claimable_facts,
}

-- The state of the loop: the unique keys hold, what conflicts is still to be freed, what is to be
-- freed is there and is another seat; if `free` the seat may be claimed, and if `taken` it may not.
pub record Loop (seat : Seat) (input : AssignSeatInput) (free taken : Bool) (rest : List Seat)
    (db : Db) : Type 0 where
  pub valid : seats_ok db.seats ≡ true
  pub pending : Pending seat input rest db.seats
  pub present : All (λ r. any (λ x. x.id == r.id) db.seats ≡ true) rest
  pub claimable : free ≡ true → any (is_claimable seat input) db.seats ≡ true
  pub apart : All (λ r. (r.id == seat.id) ≡ false) rest
  pub closed : taken ≡ true → All (λ x. is_claimable seat input x ≡ false) db.seats

-- What holds of the seat that was claimed.
pub record IsClaimed (seat : Seat) (input : AssignSeatInput) (a : Seat) (db : Db) : Type 0 where
  pub found : find_seat seat.id db ≡ some a
  pub row : (s : Seat) × (s.event_id ≡ seat.event_id) × (s.id ≡ seat.id) × (a ≡ hold_seat input s)
  pub others : All (λ x. is_conflicting seat input x ≡ false) db.seats
  pub valid : seats_ok db.seats ≡ true

free-claimable :
    (seat : Seat) (input : AssignSeatInput) (k : Uuid) (x : Seat)
    → is_claimable seat input x ≡ true
    → is_claimable seat input (if x.id == k then free_seat x else x) ≡ true
free-claimable seat input k x h =
    let (i, rest) = and-eq-true (x.id == seat.id) _ h in
    let (v, _) = and-eq-true (x.event_id == seat.event_id) _ rest in
    elim (Bool-cases (x.id == k)) [
      | inl c ↦ rw (c, i, v) (freed (has_assignment input))
      | inr c ↦ rw c h
    ]
  where
    freed : (b : Bool) → not b || (true || false) ≡ true
    freed true = refl
    freed false = refl

free_step :
    (seat : Seat) (input : AssignSeatInput) (free taken : Bool) (s : Seat) (rest : List Seat)
    (db db' : Db)
    → db'.seats ≡ update_if (λ r. r.id == s.id) free_seat db.seats
    → Loop seat input free taken (s ∷ rest) db
    → Loop seat input free taken rest db'
free_step seat input free taken s rest db db' e h = record {
  valid = rw e (seats_ok-free s.id db.seats h.valid);
  pending = rw e (Pending-free seat input s rest db.seats h.pending);
  present =
      All-weaken _ _ rest
        (λ r p.
          rw e
            (any-update_if (λ x. x.id == r.id) (λ x. x.id == s.id) free_seat db.seats (still r) p))
        h.present.1;
  claimable = λ c. rw e (
      any-update_if (is_claimable seat input) (λ x. x.id == s.id) free_seat db.seats
        (free-claimable seat input s.id) (h.claimable c));
  apart = h.apart.1;
  closed = λ c. rw e (
      All-update_if _ _ (λ x. x.id == s.id) free_seat db.seats (still_closed h.apart.0)
        (h.closed c));
}
  where
    still :
        (r x : Seat)
        → (x.id == r.id) ≡ true
        → ((if x.id == s.id then free_seat x else x).id == r.id) ≡ true
    still r x p = ground arith

    still_closed :
        (s.id == seat.id) ≡ false
        → (x : Seat) → is_claimable seat input x ≡ false
        → is_claimable seat input (if x.id == s.id then free_seat x else x) ≡ false
    still_closed n x p = elim (Bool-cases (x.id == s.id)) [
      | inl c ↦ rw (c, unequal ((==_iff x.id s.id).0 c)) refl
      | inr c ↦ rw c p
    ]
      where
        unequal : x.id ≡ s.id → (x.id == seat.id) ≡ false
        unequal q = rw q n

module _ (E : Error → Type 0) (e : Env)
    (enq : (topic : String) (fact : Fact) → IsQuiet E (enqueue e topic fact)) where
  enqueue_for-IsQuiet :
      (subject : Option Uuid) (topic : String) (make : Uuid → Fact)
      → IsQuiet E (enqueue_for e subject topic make)
  enqueue_for-IsQuiet none topic make s = refl
  enqueue_for-IsQuiet (some n) topic make s = enq topic (make n) s

  module _ (seat : Seat) (input : AssignSeatInput) (free taken : Bool)
      (refused : free ≡ false → E (seat_unavailable seat.event_id (some seat.id))) where
    release-Loop :
        (s : Seat) (rest : List Seat) (db : Db)
        → Loop seat input free taken (s ∷ rest) db
        → Post (λ _ db'. Loop seat input free taken rest db') E (release e seat s db)
    unfolding release ◌>>=◌
    release-Loop s rest db h =
        Post-continue (λ _ db'. db'.seats ≡ update_if (λ r. r.id == s.id) free_seat db.seats) _ E
          (update_seat_at s.id free_seat db) _
          (update_seat_at_lem E s.id free_seat db (seats_ok-free s.id db.seats h.valid) h.present.0)
          λ _ db' e'.
            Post-weaken (λ _ db''. db''.seats ≡ db'.seats) _ E _
              (IsQuiet-bind E _ _
                (log_assignment-IsQuiet E e seat.event_id s.id s.guest_id s.invitation_id
                  SeatAssignmentAction.unassigned (reassigned s.id))
                (λ _. enqueue_for-IsQuiet _ _ _) db')
              λ _ db'' e''. free_step seat input free taken s rest db db'' (e'' ∙ e') h

    release_all-Loop :
        (rows : List Seat) (db : Db)
        → Loop seat input free taken rows db
        → Post (λ _ db'. Loop seat input free taken [] db') E (release_all e seat rows db)
    unfolding release_all ◌>>=◌
    release_all-Loop [] db h = h
    release_all-Loop (s ∷ rest) db h =
        Post-continue (λ _ db'. Loop seat input free taken rest db') _ E (release e seat s db) _
          (release-Loop s rest db h) (λ _ db' h'. release_all-Loop rest db' h')

    pub release_others-Loop :
        (db : Db)
        → seats_ok db.seats ≡ true
        → (free ≡ true → any (is_claimable seat input) db.seats ≡ true)
        → (taken ≡ true → All (λ x. is_claimable seat input x ≡ false) db.seats)
        → Post (λ _ db'. Loop seat input free taken [] db') E (release_others e seat input db)
    unfolding release_others ◌>>=◌
    release_others-Loop db valid claimable closed =
        release_all-Loop (select (is_conflicting seat input) db.seats) db (record {
          valid = valid;
          pending = select-covers (is_conflicting seat input) db.seats;
          present = select-present (is_conflicting seat input) db.seats;
          claimable = claimable;
          apart =
              All-weaken _ _ (select (is_conflicting seat input) db.seats) conflicting_apart
                (select-passes (is_conflicting seat input) db.seats);
          closed = closed;
        })
      where
        conflicting_apart :
            (r : Seat) → is_conflicting seat input r ≡ true → (r.id == seat.id) ≡ false
        conflicting_apart r c = ground arith

    others_clear :
        (x : Seat)
        → (is_conflicting seat input x ≡ true → any (λ (r : Seat). r.id == x.id) [] ≡ true)
        → is_conflicting seat input (if is_claimable seat input x then hold_seat input x else x)
          ≡ false
    others_clear x h = elim (Bool-cases (is_claimable seat input x)) [
      | inl c ↦ rw c (held (claimable_facts seat input x c).0)
      | inr c ↦ rw c (clear (is_conflicting seat input x) h)
    ]
      where
        held : x.id ≡ seat.id → is_conflicting seat input (hold_seat input x) ≡ false
        held q = ground (arith, (==_iff x.id seat.id).1 q)

        clear : (b : Bool) → (b ≡ true → false ≡ true) → b ≡ false
        clear true p = sym (p refl)
        clear false p = refl

    read_claimed_lem :
        (n : ℕ) (db : Db)
        → (free ≡ true → n ≡ 1)
        → (n ≡ 1 → (a : Seat) × (find_seat seat.id db ≡ some a) × IsClaimed seat input a db)
        → Post (IsClaimed seat input) E (read_claimed seat n db)
    unfolding or_raise when ◌>>=◌
    read_claimed_lem n db h k = elim (Bool-cases (n == 1)) [
      | inl c ↦ let (a, f, r) = k ((==_iff n 1).0 c) in rw (c, f) r
      | inr c ↦ rw c (refused (closed free (λ p. (==_iff n 1).1 (h p)) c))
    ]
      where
        closed : (b : Bool) → (b ≡ true → (n == 1) ≡ true) → (n == 1) ≡ false → b ≡ false
        closed true p q = sym (p refl) ∙ q
        closed false p q = refl

    pub claim-IsClaimed :
        (db : Db)
        → Loop seat input free taken [] db
        → Post (IsClaimed seat input) E (claim seat input db)
    unfolding claim ◌>>=◌
    claim-IsClaimed db h =
        rw (update_many_seats_lem (is_claimable seat input) (hold_seat input) db kept) (
          read_claimed_lem (count_if (is_claimable seat input) db.seats) _ one λ n.
            let (s, c, f) = row (omega arith) in
            let (i, v) = claimable_facts seat input s c in
            (
              hold_seat input s,
              f,
              record {
                found = f;
                row = (s, v, i, refl);
                others =
                    All-update_if _ _ (is_claimable seat input) (hold_seat input) db.seats
                      others_clear h.pending;
                valid = kept;
              },
            ))
      where
        kept : seats_ok (update_if (is_claimable seat input) (hold_seat input) db.seats) ≡ true
        kept = seats_ok-hold seat input db.seats h.pending h.valid

        only : (x : Seat) → is_claimable seat input x ≡ true → x.id ≡ seat.id
        only x p = (claimable_facts seat input x p).0

        row :
            0 < count_if (is_claimable seat input) db.seats
            → (s : Seat) × (is_claimable seat input s ≡ true)
              × (find
                    (λ r. r.id == seat.id)
                    (update_if (is_claimable seat input) (hold_seat input) db.seats)
                  ≡ some (hold_seat input s))
        row =
            claimed_row seat.id (is_claimable seat input) (hold_seat input) only (λ x. refl)
              db.seats h.valid

        one : free ≡ true → count_if (is_claimable seat input) db.seats ≡ 1
        one c = omega (
          arith,
          count-le-one seat.id (is_claimable seat input) (hold_seat input) only (λ x. refl) db.seats
              h.valid,
          count-pos_of_any (is_claimable seat input) db.seats (h.claimable c),
        )

    -- A seat that may not be claimed is refused.
    pub claim_taken :
        (db : Db)
        → Loop seat input free taken [] db
        → taken ≡ true
        → E (seat_unavailable seat.event_id (some seat.id))
        → Post (λ _ _. ⊥) E (claim seat input db)
    unfolding claim or_raise when ◌>>=◌
    claim_taken db h c refusal =
        rw
          (
            update_many_seats_lem (is_claimable seat input) (hold_seat input) db
                (seats_ok-hold seat input db.seats h.pending h.valid),
            count-zero (is_claimable seat input) db.seats (h.closed c),
          )
          refusal

    pub record_assignment-IsQuiet :
        (actor : Uuid) → IsQuiet E (record_assignment e seat input actor)
    unfolding record_assignment ◌>>=◌
    record_assignment-IsQuiet actor =
        IsQuiet-bind E _ _ (log_assignment-IsQuiet E e _ _ _ _ _ _)
          λ _. IsQuiet-bind E _ _ (enqueue_for-IsQuiet _ _ _) λ _. log_change-IsQuiet E e _ _ _ _
