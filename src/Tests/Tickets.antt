-- ===== src/Tests/Tickets.antt =====
-- The theorem on tickets at a concrete message: guest 101 signs up with invitation 200, which holds
-- seat 12.
use omnixys_seat_service.Base.{◌≡◌, refl, true, none, some, [], ◌∷◌}
use omnixys_seat_service.Store.Tables.{keys_ok, seats_ok}
use omnixys_seat_service.Authentication.{CreateUserWithInvitationIdDto, Gateway, handle_add_guest}
use omnixys_seat_service.Authentication.Ticket.{IsAnswered, handle_add_guest-IsAnswered}
use omnixys_seat_service.Tests.Data.{env, event_db}

abbrev sign_up : CreateUserWithInvitationIdDto
sign_up = record { user_id = 101; token = "token"; invitation_id = 200; keycloak_sub = "sub" }

abbrev gateway : Gateway
gateway = record {
  decrypt = λ token. some token;
  parse_token = λ raw. some (some raw);
  verification_seat = λ key. some (some key);
  parse_seat_key = λ raw. some (record {
    event_id = some 9;
    actor_id = some 1;
    assignments = some (record { invitation_id = some 200; seat_id = some 12; note = none } ∷ []);
  });
  keep_ticket = λ key. some "ticket";
  sends = λ message. true;
  is_uuid_v7 = λ id. true;
  principal_tenant_id = none;
  default_tenant_id = 7;
}

guest_seats-valid : seats_ok event_db.seats ≡ true
unfolding keys_ok
guest_seats-valid = refl

handle_add_guest-IsAnswered_example :
    IsAnswered sign_up gateway event_db (handle_add_guest gateway env sign_up event_db)
handle_add_guest-IsAnswered_example =
    handle_add_guest-IsAnswered gateway env sign_up event_db guest_seats-valid
