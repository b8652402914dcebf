-- ===== src/Seat/Held.antt =====
-- The seat that assignSeatToGuest finds or claims (seat/services/seat-write.service.ts).
use omnixys_seat_service.Base.{
  ◌≡◌, refl, sym, ◌∙◌, ap, Bool, true, false, ◌&&◌, Option, none, some, List, [], ◌∷◌, find, any,
  All, count_if, update_if, holds, same, ◌==◌, ==_iff, arith, Bool-cases, Option-cases, inl, inr,
  subst, some_inj, and-eq-true, if◌then◌else◌, or_else,
}
use omnixys_seat_service.Store.Rows.{Uuid, Seat, AssignSeatDto, Db}
use omnixys_seat_service.Store.Tables.{seats_ok, find_seat}
use omnixys_seat_service.Store.Unique.{find-passes, find-any, find-only}
use omnixys_seat_service.Seat.Claimed.{claimed_row}
use omnixys_seat_service.Seat.Guest.{
  filter_if, is_existing, is_open, is_reserved_for, can_take, seat_guest,
}

-- The seat is the guest's, for the event, and the invitation's if there is one.
pub record IsGuestSeat (input : AssignSeatDto) (a : Seat) (db : Db) : Type 0 where
  pub found : find_seat a.id db ≡ some a
  pub event : a.event_id ≡ input.event_id
  pub guest : a.guest_id ≡ some input.guest_id
  pub invitation : filter_if a.invitation_id input.invitation_id ≡ true
  pub valid : seats_ok db.seats ≡ true

All-find :
    (P : Seat → Type 0) (p : Seat → Bool) (xs : List Seat) (a : Seat)
    → All P xs
    → find p xs ≡ some a
    → P a
All-find P p [] a h f = cc
All-find P p (x ∷ xs) a h f = elim (Bool-cases (p x)) [
  | inl e ↦ subst P (some_inj (rw e at f)) h.0
  | inr e ↦ All-find P p xs a h.1 (rw e at f)
]

none-any : (p : Seat → Bool) (xs : List Seat) → find p xs ≡ none → any p xs ≡ false
none-any p [] f = refl
none-any p (x ∷ xs) f = elim (Bool-cases (p x)) [
  | inl e ↦ cc (rw e at f)
  | inr e ↦ rw e (none-any p xs (rw e at f))
]

-- With unique ids a search by the id of a row that was found finds it again.
find_self :
    (p : Seat → Bool) (xs : List Seat) (a : Seat)
    → seats_ok xs ≡ true
    → find p xs ≡ some a
    → find (λ r. r.id == a.id) xs ≡ some a
find_self p xs a valid f = elim (Option-cases (find (λ r. r.id == a.id) xs)) [
  | inl absent ↦
      cc (none-any _ xs absent, find-any p (λ r. r.id == a.id) xs f ((==_iff _ _).1 refl))
  | inr (b, g) ↦
      let same = All-find (λ x. x.id ≡ a.id → x ≡ b) p xs a (find-only a.id xs valid g) f refl in
      g ∙ ap some (sym same)
]

pub holds-some : (o : Option Uuid) (n : Uuid) → holds o n ≡ true → o ≡ some n
holds-some none n h = cc
holds-some (some m) n h = ap some ((==_iff m n).0 h)

pub existing-IsGuestSeat :
    (input : AssignSeatDto) (db : Db) (a : Seat)
    → seats_ok db.seats ≡ true
    → find (is_existing input) db.seats ≡ some a
    → IsGuestSeat input a db
existing-IsGuestSeat input db a valid f =
    let (e, r) =
      and-eq-true (a.event_id == input.event_id) _ (find-passes (is_existing input) db.seats f) in
    let (g, i) = and-eq-true (holds a.guest_id input.guest_id) _ r in
    record {
      found = find_self (is_existing input) db.seats a valid f;
      event = (==_iff _ _).0 e;
      guest = holds-some a.guest_id input.guest_id g;
      invitation = i;
      valid = valid;
    }

can_take-facts :
    (input : AssignSeatDto) (seat s : Seat)
    → can_take input seat s ≡ true
    → (s.id ≡ seat.id) × (s.event_id ≡ input.event_id)
can_take-facts input seat s h =
    let (k, r) = and-eq-true (s.id == seat.id) _ h in
    ((==_iff _ _).0 k, event_of (is_reserved_for input seat) r)
  where
    event_of :
        (b : Bool)
        → (if b
            then s.event_id == input.event_id
              && (filter_if s.invitation_id input.invitation_id && same s.guest_id none)
            else is_open input.event_id s)
          ≡ true
        → s.event_id ≡ input.event_id
    event_of true r = (==_iff _ _).0 (and-eq-true (s.event_id == input.event_id) _ r).0
    event_of false r = (==_iff _ _).0 (and-eq-true (s.event_id == input.event_id) _ r).0

filter_if-or_else : (o column : Option Uuid) → filter_if (or_else o column) o ≡ true
filter_if-or_else none column = refl
filter_if-or_else (some n) column = (==_iff n n).1 refl

-- A claim that counts one row leaves the seat with the guest.
pub claimed-IsGuestSeat :
    (input : AssignSeatDto) (seat : Seat) (db db' : Db)
    → seats_ok db.seats ≡ true
    → db'.seats ≡ update_if (can_take input seat) (seat_guest input) db.seats
    → seats_ok db'.seats ≡ true
    → count_if (can_take input seat) db.seats ≡ 1
    → (a : Seat) × (find_seat seat.id db' ≡ some a) × IsGuestSeat input a db'
claimed-IsGuestSeat input seat db db' valid rows valid' one =
    let (s, p, f) =
      claimed_row seat.id (can_take input seat) (seat_guest input)
        (λ x h. (can_take-facts input seat x h).0) (λ x. refl) db.seats valid
        (omega (arith, one)) in
    let facts = can_take-facts input seat s p in
    let found : find_seat seat.id db' ≡ some (seat_guest input s) = rw rows f in
    (
      seat_guest input s,
      found,
      record {
        found =
            subst (λ k. find (λ r. r.id == k) db'.seats ≡ some (seat_guest input s)) (sym facts.0)
              found;
        event = facts.1;
        guest = refl;
        invitation = filter_if-or_else input.invitation_id s.invitation_id;
        valid = valid';
      },
    )
