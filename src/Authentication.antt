-- ===== src/Authentication.antt =====
-- handlers/authentication.handler.ts: handleAddGuest and handleRemoveGuest. Ticket is about the seat of
-- a ticket.
pub mod Ticket
use omnixys_seat_service.Base.{
  Bool, not, ◌||◌, Option, none, some, List, String, if◌then◌else◌, find, any, holds, is_some,
  or_default, or_else,
}
use omnixys_seat_service.Store.Rows.{Uuid, Seat, AssignSeatDto}
use omnixys_seat_service.Store.Exec.{
  seat_verification_token, service_failed, Env, Exec, pure, raise, or_raise, ◌>>=◌,
}
use omnixys_seat_service.Seat.Guest.{assign_seat_to_guest}
use omnixys_seat_service.Seat.Unassign.{unassign_seats_by_guest}

pub record CreateUserWithInvitationIdDto : Type 0 where
  pub user_id : Uuid
  pub token : String
  pub invitation_id : Uuid
  pub keycloak_sub : String

-- What a value of the cache has: `none` where the field is not of its type. An assignment's invitation
-- is `none` where it is no text.
pub record SeatAssignment : Type 0 where
  pub invitation_id : Option Uuid
  pub seat_id : Option Uuid
  pub note : Option String

pub record SeatKeyFields : Type 0 where
  pub event_id : Option Uuid
  pub actor_id : Option Uuid
  pub assignments : Option (List SeatAssignment)

pub record GuestSeatKey : Type 0 where
  pub event_id : Uuid
  pub actor_id : Uuid
  pub assignments : List SeatAssignment

pub record GuestTicketKey : Type 0 where
  pub event_id : Uuid
  pub actor_id : Uuid
  pub invitation_id : Uuid
  pub seat_id : Uuid

-- The message on the topic `ticket.create`, with the actor and the tenant of its metadata.
pub record CreateTicket : Type 0 where
  pub token : String
  pub invitation_id : Uuid
  pub user_id : Uuid
  pub keycloak_sub : String
  pub actor_id : Uuid
  pub tenant_id : Uuid

-- `EncryptionService.decrypt`, `JSON.parse` with the types of the fields, `ValkeyService.get` and
-- `ValkeyService.set`, the pattern of ids of version 7, the tenant of the context's principal, and
-- `DEFAULT_TENANT_ID`. `none` is a text that is no JSON. Decryption and each call of the cache and the
-- broker may throw, which is the outer `none`, and `false` for the broker; a key that is not in the cache
-- is the inner `none`.
pub record Gateway : Type 0 where
  pub decrypt : String → Option String
  pub parse_token : String → Option (Option String)
  pub verification_seat : String → Option (Option String)
  pub parse_seat_key : String → Option SeatKeyFields
  pub keep_ticket : GuestTicketKey → Option String
  pub sends : CreateTicket → Bool
  pub is_uuid_v7 : Uuid → Bool
  pub principal_tenant_id : Option Uuid
  pub default_tenant_id : Uuid

abbrev pub invalid_token : {A : Type 0} → Exec A
invalid_token = raise (seat_verification_token "invalid-token")

abbrev pub seat_key_of : Option (Option String) → Exec String
seat_key_of (some (some key)) = pure key
seat_key_of _ = invalid_token

unfoldable pub parse_sign_up_token : Gateway → String → Exec String
parse_sign_up_token g raw = seat_key_of (g.parse_token raw)

abbrev pub lacks_invitation : SeatAssignment → Bool
lacks_invitation a = not (is_some a.invitation_id)

abbrev pub checked :
    Gateway → Option Uuid → Option Uuid → Option (List SeatAssignment) → Exec GuestSeatKey
checked g (some event) (some actor) (some assignments) =
    if not (g.is_uuid_v7 actor) || any lacks_invitation assignments
    then invalid_token
    else pure (record { event_id = event; actor_id = actor; assignments = assignments })
checked g _ _ _ = invalid_token

abbrev pub checked_fields : Gateway → Option SeatKeyFields → Exec GuestSeatKey
checked_fields g none = invalid_token
checked_fields g (some v) = checked g v.event_id v.actor_id v.assignments

unfoldable pub parse_seat_key : Gateway → String → Exec GuestSeatKey
parse_seat_key g raw = checked_fields g (g.parse_seat_key raw)

abbrev pub dto_of : CreateUserWithInvitationIdDto → GuestSeatKey → SeatAssignment → AssignSeatDto
dto_of payload input assignment = record {
  seat_id = assignment.seat_id;
  guest_id = payload.user_id;
  invitation_id = some payload.invitation_id;
  event_id = input.event_id;
  note = assignment.note;
  actor_id = input.actor_id;
}

abbrev pub ticket_key : CreateUserWithInvitationIdDto → GuestSeatKey → Seat → GuestTicketKey
ticket_key payload input seat = record {
  event_id = input.event_id;
  actor_id = input.actor_id;
  invitation_id = payload.invitation_id;
  seat_id = seat.id;
}

abbrev pub ticket_message :
    Gateway
    → Env
    → CreateUserWithInvitationIdDto
    → GuestSeatKey
    → GuestTicketKey
    → String
    → CreateTicket
ticket_message g e payload input key token = record {
  token = token;
  invitation_id = payload.invitation_id;
  user_id = payload.user_id;
  keycloak_sub = payload.keycloak_sub;
  actor_id = or_default e.principal_id input.actor_id;
  tenant_id = or_default (or_else e.tenant_id g.principal_tenant_id) g.default_tenant_id;
}

unfoldable pub read_seat_key : Gateway → CreateUserWithInvitationIdDto → Exec GuestSeatKey
unfolding parse_sign_up_token parse_seat_key or_raise ◌>>=◌
read_seat_key g payload = do
  decrypted ← or_raise (g.decrypt payload.token) service_failed
  seat_key ← parse_sign_up_token g decrypted
  found ← or_raise (g.verification_seat seat_key) service_failed
  raw ← or_raise found (seat_verification_token "invalid-token")
  parse_seat_key g raw

abbrev pub send_ticket :
    Gateway → GuestTicketKey → CreateTicket → Exec (GuestTicketKey × CreateTicket)
send_ticket g key message = if g.sends message then pure (key, message) else raise service_failed

-- The ticket is put in the cache, and then its message is sent.
abbrev pub hand_over :
    Gateway
    → Env
    → CreateUserWithInvitationIdDto
    → GuestSeatKey
    → GuestTicketKey
    → Exec (GuestTicketKey × CreateTicket)
hand_over g e payload input key = do
  token ← or_raise (g.keep_ticket key) service_failed
  send_ticket g key (ticket_message g e payload input key token)

abbrev pub issue_ticket :
    Gateway
    → Env
    → CreateUserWithInvitationIdDto
    → GuestSeatKey
    → SeatAssignment
    → Exec (GuestTicketKey × CreateTicket)
issue_ticket g e payload input assignment = do
  seat ← assign_seat_to_guest e (dto_of payload input assignment)
  hand_over g e payload input (ticket_key payload input seat)

abbrev pub add_guest :
    Gateway
    → Env
    → CreateUserWithInvitationIdDto
    → GuestSeatKey
    → Exec (GuestTicketKey × CreateTicket)
add_guest g e payload input = do
  assignment ←
      or_raise (find (λ a. holds a.invitation_id payload.invitation_id) input.assignments)
        (seat_verification_token "assignment-not-found")
  issue_ticket g e payload input assignment

-- handleAddGuest: what is put in the cache for the ticket, and the message that is sent.
unfoldable pub handle_add_guest :
    Gateway → Env → CreateUserWithInvitationIdDto → Exec (GuestTicketKey × CreateTicket)
unfolding read_seat_key assign_seat_to_guest or_raise ◌>>=◌
handle_add_guest g e payload = do input ← read_seat_key g payload; add_guest g e payload input

-- handleRemoveGuest, which does nothing for a message without an actor in its headers.
unfoldable pub handle_remove_guest : Env → Uuid → Option Uuid → Exec Unit
unfolding unassign_seats_by_guest
handle_remove_guest e user none = pure tt
handle_remove_guest e user (some actor) = unassign_seats_by_guest e user actor
