-- ===== src/Seat/Outcome.antt =====
-- When assignSeat succeeds and when it refuses (seat/services/seat-write.service.ts).
use omnixys_seat_service.Base.{
  String, true, false, ◌&&◌, ◌≡◌, refl, ◌∙◌, ap, some, sym, is_some, Bool-cases, inl, inr,
}
use omnixys_seat_service.Store.Rows.{Uuid, Seat, AssignSeatInput, Fact, Db}
use omnixys_seat_service.Store.Exec.{
  Error, Result, ok, err, seat_unavailable, Env, Exec, ◌>>=◌, or_raise, settle, transaction,
}
use omnixys_seat_service.Store.Tables.{seats_ok, find_seat}
use omnixys_seat_service.Store.Post.{Post, Post-transaction}
use omnixys_seat_service.Store.Unique.{All-weaken, find-any, find-only}
use omnixys_seat_service.Store.Quiet.{IsReady, enqueue-IsQuiet_ready, IsQuiet}
use omnixys_seat_service.Seat.Assign.{is_claimable, has_assignment, assign_seat}
use omnixys_seat_service.Seat.Rivals.{claimable_facts}
use omnixys_seat_service.Audit.{enqueue}
use omnixys_seat_service.Seat.Free.{IsFreeOrOwn, is_claimable_iff}
use omnixys_seat_service.Seat.Sole.{
  IsSoleHolder, assign_found-IsSoleHolder, assign_found_taken, found_id,
}

-- A post-condition that leaves no room for an error.
returns :
    {A : Type 0} (Q : A → Db → Type 0) (r : Result A × Db)
    → Post Q (λ _. ⊥) r
    → (a : A) × (s : Db) × (r ≡ (ok a, s)) × Q a s
returns Q (ok a, s) h = (a, s, refl, h)
returns Q (err er, s) h = absurd h

throws :
    {A : Type 0} (F : Error) (m : Exec A) (s : Db)
    → Post (λ _ _. ⊥) (λ er. er ≡ F) (m s)
    → transaction m s ≡ (err F, s)
unfolding transaction
throws {A} F m s h = go (m s) h
  where
    go : (r : Result A × Db) → Post (λ _ _. ⊥) (λ er. er ≡ F) r → settle r s ≡ (err F, s)
    go (ok a, s') h = absurd h
    go (err er, s') h = rw h

-- In a request with a tenant whose facts analytics accepts, a call that names a guest or an
-- invitation, not both, for a seat that is there and that is either available and held by nobody
-- or already that holder's, succeeds.
pub assign_seat_succeeds :
    (e : Env) (input : AssignSeatInput) (actor : Uuid) (db : Db) (seat : Seat)
    → IsReady e
    → seats_ok db.seats ≡ true
    → has_assignment input ≡ true
    → is_some input.guest_id && is_some input.invitation_id ≡ false
    → find_seat input.seat_id db ≡ some seat
    → IsFreeOrOwn input seat
    → (a : Seat) × (db' : Db) × (assign_seat e input actor db ≡ (ok a, db'))
      × IsSoleHolder input a db'
unfolding assign_seat or_raise ◌>>=◌
assign_seat_succeeds e input actor db seat ready valid has one f free =
    returns (IsSoleHolder input) (assign_seat e input actor db) (
      rw one (
        Post-transaction (IsSoleHolder input) (λ _. ⊥) _ db
          (rw f (
            assign_found-IsSoleHolder (λ _. ⊥) e (enqueue-IsQuiet_ready e ready) input actor has
              seat true db (λ p. cc)
              (λ _.
                find-any _ (is_claimable seat input) db.seats f
                  ((is_claimable_iff input seat has).1 free))
              (found_id input.seat_id db f) valid))))

-- In such a request, a seat that is there and is neither available and held by nobody nor that
-- holder's own is refused as unavailable, and the database stays as it was: what the loop had
-- freed for the holder is rolled back.
pub assign_seat_taken :
    (e : Env) (input : AssignSeatInput) (actor : Uuid) (db : Db) (seat : Seat)
    → IsReady e
    → seats_ok db.seats ≡ true
    → has_assignment input ≡ true
    → is_some input.guest_id && is_some input.invitation_id ≡ false
    → find_seat input.seat_id db ≡ some seat
    → ¬ (IsFreeOrOwn input seat)
    → assign_seat e input actor db ≡ (err (seat_unavailable seat.event_id (some seat.id)), db)
unfolding assign_seat or_raise ◌>>=◌
assign_seat_taken e input actor db seat ready valid has one f taken = rw one (
    throws (seat_unavailable seat.event_id (some seat.id)) _ db (
      rw f (
        assign_found_taken (λ er. er ≡ seat_unavailable seat.event_id (some seat.id)) e
          (λ topic fact s. ready_widen topic fact s) input actor has seat db refl valid
          (All-weaken _ _ db.seats closed (find-only input.seat_id db.seats valid f)))))
  where
    ready_widen :
        (topic : String) (fact : Fact)
        → IsQuiet (λ er. er ≡ seat_unavailable seat.event_id (some seat.id)) (enqueue e topic fact)
    ready_widen topic fact s =
        let (a, s', q, same) =
          returns _ (enqueue e topic fact s) (enqueue-IsQuiet_ready e ready topic fact s) in
        rw q same

    closed : (x : Seat) → (x.id ≡ input.seat_id → x ≡ seat) → is_claimable seat input x ≡ false
    closed x h = elim (Bool-cases (is_claimable seat input x)) [
      | inl c ↦ absurd (contradiction c)
      | inr c ↦ c
    ]
      where
        contradiction : is_claimable seat input x ≡ true → ⊥
        contradiction c =
            let same = h ((claimable_facts seat input x c).0 ∙ found_id input.seat_id db f) in
            taken
              ((is_claimable_iff input seat has).0 (sym (ap (is_claimable seat input) same) ∙ c))
