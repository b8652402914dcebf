-- ===== src/Authentication/Ticket.antt =====
-- The seat of a ticket (handlers/authentication.handler.ts, handleAddGuest).
use omnixys_seat_service.Base.{
  ◌≡◌, refl, sym, true, not, ◌||◌, Option, none, some, List, String, find, any, holds, Bool-cases,
  Option-cases, inl, inr, subst,
}
use omnixys_seat_service.Store.Rows.{Uuid, Seat, Db}
use omnixys_seat_service.Store.Exec.{
  Error, seat_verification_token, service_failed, Result, ok, err, Env, Exec, or_raise, continue,
  ◌>>=◌,
}
use omnixys_seat_service.Store.Tables.{seats_ok, find_seat}
use omnixys_seat_service.Seat.Guest.{assign_seat_to_guest}
use omnixys_seat_service.Seat.Held.{IsGuestSeat, holds-some}
use omnixys_seat_service.Seat.Settled.{Settles, assign_seat_to_guest-Settles}
use omnixys_seat_service.Authentication.{
  CreateUserWithInvitationIdDto, SeatAssignment, SeatKeyFields, GuestSeatKey, GuestTicketKey,
  CreateTicket, Gateway, seat_key_of, lacks_invitation, checked, checked_fields, dto_of, ticket_key,
  ticket_message, read_seat_key, hand_over, issue_ticket, add_guest, handle_add_guest,
}

module _ {A B : Type 0} where
  Settles-continue :
      (Q : A → Db → Type 0) (R : B → Db → Type 0) (db : Db) (r : Result A × Db) (f : A → Exec B)
      → Settles Q db r
      → ((a : A) (s : Db) → Q a s → Settles R db (f a s))
      → Settles R db (continue r f)
  Settles-continue Q R db (ok a, s) f h next = next a s h
  Settles-continue Q R db (err x, s) f h next = h

-- The call changes nothing.
abbrev IsReader : {A : Type 0} → Exec A → Type 0
IsReader m = (db : Db) → Settles (λ _ s. s ≡ db) db (m db)

seat_key_of-IsReader : (o : Option (Option String)) → IsReader (seat_key_of o)
seat_key_of-IsReader (some (some key)) db = refl
seat_key_of-IsReader o db = refl

or_raise-IsReader : {A : Type 0} (o : Option A) (e : Error) → IsReader (or_raise o e)
unfolding or_raise
or_raise-IsReader none e db = refl
or_raise-IsReader (some a) e db = refl

checked-IsReader :
    (g : Gateway) (event actor : Option Uuid) (assignments : Option (List SeatAssignment))
    → IsReader (checked g event actor assignments)
checked-IsReader g (some event) (some actor) (some assignments) db =
    elim (Bool-cases (not (g.is_uuid_v7 actor) || any lacks_invitation assignments)) [
      | inl bad ↦ rw bad refl
      | inr fine ↦ rw fine refl
    ]
checked-IsReader g event actor assignments db = refl

checked_fields-IsReader : (g : Gateway) (o : Option SeatKeyFields) → IsReader (checked_fields g o)
checked_fields-IsReader g none db = refl
checked_fields-IsReader g (some v) db = checked-IsReader g v.event_id v.actor_id v.assignments db

IsReader-bind :
    {A B : Type 0} (m : Exec A) (f : A → Exec B)
    → IsReader m
    → ((a : A) → IsReader (f a))
    → IsReader (m >>= f)
unfolding ◌>>=◌
IsReader-bind m f h next db =
    Settles-continue _ _ db (m db) f (h db)
      (λ a s q. subst (λ x. Settles (λ _ s'. s' ≡ db) db (f a x)) (sym q) (next a db))

or_raise_then-IsReader :
    {A B : Type 0} (o : Option A) (x : Error) (f : A → Exec B)
    → ((a : A) → IsReader (f a))
    → IsReader (or_raise o x >>= f)
or_raise_then-IsReader o x f h = IsReader-bind (or_raise o x) f (or_raise-IsReader o x) h

read_seat_key-IsReader :
    (g : Gateway) (payload : CreateUserWithInvitationIdDto) → IsReader (read_seat_key g payload)
unfolding read_seat_key
read_seat_key-IsReader g payload =
    or_raise_then-IsReader (g.decrypt payload.token) service_failed _ λ raw.
      IsReader-bind (seat_key_of (g.parse_token raw)) _ (seat_key_of-IsReader (g.parse_token raw))
        λ key. or_raise_then-IsReader (g.verification_seat key) service_failed _ λ found.
          or_raise_then-IsReader found (seat_verification_token "invalid-token") _
            λ raw. checked_fields-IsReader g (g.parse_seat_key raw)

-- The row of the seat gives it to the guest and the invitation of the message.
pub record IsSeated (payload : CreateUserWithInvitationIdDto) (seat event : Uuid) (db : Db)
    : Type 0 where
  pub row : Seat
  pub found : find_seat seat db ≡ some row
  pub event_id : row.event_id ≡ event
  pub guest : row.guest_id ≡ some payload.user_id
  pub invitation : row.invitation_id ≡ some payload.invitation_id

-- The ticket is for that seat, this guest and this invitation; the cache has it and it was sent.
pub record IsTicket (payload : CreateUserWithInvitationIdDto) (g : Gateway)
    (ticket : GuestTicketKey × CreateTicket) (db : Db) : Type 0 where
  pub seated : IsSeated payload ticket.0.seat_id ticket.0.event_id db
  pub addressee : ticket.1.user_id ≡ payload.user_id
  pub invited : ticket.0.invitation_id ≡ payload.invitation_id
  pub token : g.keep_ticket ticket.0 ≡ some ticket.1.token
  pub sent : g.sends ticket.1 ≡ true

-- How the handling of a message ends.
pub data IsAnswered (payload : CreateUserWithInvitationIdDto) (g : Gateway) (db : Db)
    : Result (GuestTicketKey × CreateTicket) × Db → Type 0 where
  sent :
      {t : GuestTicketKey × CreateTicket} {s : Db}
      → IsTicket payload g t s
      → IsAnswered payload g db (ok t, s)
  refused : {x : Error} → IsAnswered payload g db (err x, db)
  seated_only :
      {s : Db} (seat event : Uuid)
      → IsSeated payload seat event s
      → IsAnswered payload g db (err service_failed, s)

module _ (g : Gateway) (e : Env) (payload : CreateUserWithInvitationIdDto) (db : Db) where
  IsAnswered-continue :
      {A : Type 0} (Q : A → Db → Type 0) (r : Result A × Db)
      (f : A → Exec (GuestTicketKey × CreateTicket))
      → Settles Q db r
      → ((a : A) (s : Db) → Q a s → IsAnswered payload g db (f a s))
      → IsAnswered payload g db (continue r f)
  IsAnswered-continue Q (ok a, s) f h next = next a s h
  IsAnswered-continue Q (err x, s) f h next =
      subst (λ s'. IsAnswered payload g db (err x, s')) (sym h) refused

  hand_over-IsAnswered :
      (input : GuestSeatKey) (seat : Seat) (s : Db)
      → IsSeated payload seat.id input.event_id s
      → IsAnswered payload g db (hand_over g e payload input (ticket_key payload input seat) s)
  unfolding ◌>>=◌ or_raise
  hand_over-IsAnswered input seat s h =
      let key = ticket_key payload input seat in
      elim (Option-cases (g.keep_ticket key)) [
        | inl lost ↦ rw lost (seated_only seat.id input.event_id h)
        | inr (token, kept) ↦
            elim (Bool-cases (g.sends (ticket_message g e payload input key token))) [
              | inl goes ↦
                  rw (kept, goes)
                    (sent (record {
                      seated = h;
                      addressee = refl;
                      invited = refl;
                      token = kept;
                      sent = goes;
                    }))
              | inr lost ↦ rw (kept, lost) (seated_only seat.id input.event_id h)
            ]
      ]

  module _ (valid : seats_ok db.seats ≡ true) where
    issue_ticket-IsAnswered :
        (input : GuestSeatKey) (assignment : SeatAssignment)
        → IsAnswered payload g db (issue_ticket g e payload input assignment db)
    unfolding ◌>>=◌
    issue_ticket-IsAnswered input assignment =
        IsAnswered-continue (IsGuestSeat (dto_of payload input assignment))
          (assign_seat_to_guest e (dto_of payload input assignment) db)
          (λ seat. hand_over g e payload input (ticket_key payload input seat))
          (assign_seat_to_guest-Settles e (dto_of payload input assignment) db valid)
          (λ seat s h. hand_over-IsAnswered input seat s (record {
            row = seat;
            found = h.found;
            event_id = h.event;
            guest = h.guest;
            invitation = holds-some seat.invitation_id payload.invitation_id h.invitation;
          }))

    add_guest-IsAnswered :
        (input : GuestSeatKey) → IsAnswered payload g db (add_guest g e payload input db)
    unfolding ◌>>=◌ or_raise
    add_guest-IsAnswered input =
        elim (Option-cases
          (find (λ a. holds a.invitation_id payload.invitation_id) input.assignments)) [
            | inl missing ↦ rw missing refused
            | inr (assignment, f) ↦ rw f (issue_ticket-IsAnswered input assignment)
          ]

-- For seats that meet their unique keys, a message that a guest signed up has one of three ends: a
-- ticket is kept and sent for the guest and the invitation of the message, and its seat is a seat of the
-- ticket's event that this guest and this invitation hold; or the handler throws, and the database is as
-- it was; or the cache or the broker throws, and this guest and this invitation hold a seat.
pub handle_add_guest-IsAnswered :
    (g : Gateway) (e : Env) (payload : CreateUserWithInvitationIdDto) (db : Db)
    → seats_ok db.seats ≡ true
    → IsAnswered payload g db (handle_add_guest g e payload db)
unfolding handle_add_guest ◌>>=◌
handle_add_guest-IsAnswered g e payload db valid =
    IsAnswered-continue g e payload db (λ _ s. s ≡ db) (read_seat_key g payload db)
      (λ input. add_guest g e payload input) (read_seat_key-IsReader g payload db)
      (λ input s q.
        subst (λ x. IsAnswered payload g db (add_guest g e payload input x)) (sym q)
          (add_guest-IsAnswered g e payload db valid input))
