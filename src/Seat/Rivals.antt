-- ===== src/Seat/Rivals.antt =====
-- The other seats of a holder: freeing one takes it off their list, and once they are all free the
-- holder's new seat breaks no unique key.
use omnixys_seat_service.Base.{
  Bool, true, false, ◌≡◌, refl, List, [], ◌∷◌, arith, ◌==◌, if◌then◌else◌, any, update_if,
  and-eq-true, ==_iff, sym, ◌∙◌, ◌≢◌, All, Bool-cases, inl, inr,
}
use omnixys_seat_service.Store.Rows.{Uuid, Seat, AssignSeatInput}
use omnixys_seat_service.Store.Tables.{seats_clash, seats_ok}
use omnixys_seat_service.Store.Unique.{All-update_if, All-weaken, keys_ok-update_if}
use omnixys_seat_service.Seat.Common.{free_seat}
use omnixys_seat_service.Seat.Assign.{is_conflicting, is_claimable, hold_seat}

abbrev freed : Uuid → Seat → Seat
freed k s = if s.id == k then free_seat s else s

freed-clash :
    (k : Uuid) (s t : Seat) → seats_clash s t ≡ false → seats_clash (freed k s) (freed k t) ≡ false
freed-clash k s t h = ground arith

pub seats_ok-free :
    (k : Uuid) (xs : List Seat)
    → seats_ok xs ≡ true
    → seats_ok (update_if (λ s. s.id == k) free_seat xs) ≡ true
seats_ok-free k xs h =
    keys_ok-update_if seats_clash (λ s. s.id == k) free_seat (λ _. Unit {0})
      (λ s t _ _. freed-clash k s t) xs (all xs) h
  where
    all : (ys : List Seat) → All (λ _. Unit {0}) ys
    all [] = tt
    all (y ∷ ys) = (tt, all ys)

-- A seat that conflicts is one of those that are still to be freed.
abbrev pub Pending : Seat → AssignSeatInput → List Seat → List Seat → Type 0
Pending seat input rest =
    All (λ x. is_conflicting seat input x ≡ true → any (λ r. r.id == x.id) rest ≡ true)

freed-pending :
    (seat : Seat) (input : AssignSeatInput) (s : Seat) (rest : List Seat) (x : Seat)
    → (is_conflicting seat input x ≡ true → any (λ r. r.id == x.id) (s ∷ rest) ≡ true)
    → is_conflicting seat input (freed s.id x) ≡ true
    → any (λ r. r.id == (freed s.id x).id) rest ≡ true
freed-pending seat input s rest x h c = elim (Bool-cases (x.id == s.id)) [
  | inl e ↦ ground arith
  | inr e ↦ ground arith
]

pub Pending-free :
    (seat : Seat) (input : AssignSeatInput) (s : Seat) (rest xs : List Seat)
    → Pending seat input (s ∷ rest) xs
    → Pending seat input rest (update_if (λ r. r.id == s.id) free_seat xs)
Pending-free seat input s rest xs h =
    All-update_if _ _ (λ r. r.id == s.id) free_seat xs (freed-pending seat input s rest) h

abbrev Clear : Seat → AssignSeatInput → Seat → Type 0
Clear seat input x = is_conflicting seat input x ≡ false

-- A seat that may be claimed is the one that was asked for.
pub claimable_facts :
    (seat : Seat) (input : AssignSeatInput) (s : Seat)
    → is_claimable seat input s ≡ true
    → (s.id ≡ seat.id) × (s.event_id ≡ seat.event_id)
claimable_facts seat input s h =
    let (i, rest) = and-eq-true (s.id == seat.id) _ h in
    let (v, _) = and-eq-true (s.event_id == seat.event_id) _ rest in
    ((==_iff _ _).0 i, (==_iff _ _).0 v)

ids_differ : (s t : Seat) → seats_clash s t ≡ false → s.id ≢ t.id
ids_differ s t h e = ground (arith, (==_iff s.id t.id).1 e)

hold_first :
    (seat : Seat) (input : AssignSeatInput) (s t : Seat)
    → t.id ≢ seat.id
    → s.id ≡ seat.id
    → s.event_id ≡ seat.event_id
    → Clear seat input t
    → seats_clash (hold_seat input s) t ≡ false
hold_first seat input s t n i v c = ground arith

hold_second :
    (seat : Seat) (input : AssignSeatInput) (s t : Seat)
    → s.id ≢ seat.id
    → t.id ≡ seat.id
    → t.event_id ≡ seat.event_id
    → Clear seat input s
    → seats_clash s (hold_seat input t) ≡ false
hold_second seat input s t n i v c = ground arith

hold-clash :
    (seat : Seat) (input : AssignSeatInput) (s t : Seat)
    → Clear seat input s
    → Clear seat input t
    → seats_clash s t ≡ false
    → seats_clash
        (if is_claimable seat input s then hold_seat input s else s)
        (if is_claimable seat input t then hold_seat input t else t)
      ≡ false
hold-clash seat input s t cs ct h =
    go (is_claimable seat input s) (is_claimable seat input t) refl refl
  where
    go :
        (a b : Bool)
        → is_claimable seat input s ≡ a
        → is_claimable seat input t ≡ b
        → seats_clash (if a then hold_seat input s else s) (if b then hold_seat input t else t)
          ≡ false
    go true true p q = absurd (
        ids_differ s t h
          ((claimable_facts seat input s p).0 ∙ sym (claimable_facts seat input t q).0))
    go true false p q =
        let (i, v) = claimable_facts seat input s p in
        hold_first seat input s t (λ e. ids_differ s t h (i ∙ sym e)) i v ct
    go false true p q =
        let (i, v) = claimable_facts seat input t q in
        hold_second seat input s t (λ e. ids_differ s t h (e ∙ sym i)) i v cs
    go false false p q = h

pub seats_ok-hold :
    (seat : Seat) (input : AssignSeatInput) (xs : List Seat)
    → Pending seat input [] xs
    → seats_ok xs ≡ true
    → seats_ok (update_if (is_claimable seat input) (hold_seat input) xs) ≡ true
seats_ok-hold seat input xs h =
    keys_ok-update_if seats_clash (is_claimable seat input) (hold_seat input) (Clear seat input)
      (hold-clash seat input) xs
      (All-weaken _ _ xs (λ x p. not_pending (is_conflicting seat input x) p) h)
  where
    not_pending : (b : Bool) → (b ≡ true → false ≡ true) → b ≡ false
    not_pending true p = sym (p refl)
    not_pending false p = refl
