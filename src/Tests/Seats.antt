-- ===== src/Tests/Seats.antt =====
-- The theorems on seats at the sample event.
use omnixys_seat_service.Base.{◌≡◌, refl, true, some, some_inj, arith}
use omnixys_seat_service.Store.Rows.{Seat, Db}
use omnixys_seat_service.Store.Exec.{ok, err, seat_unavailable}
use omnixys_seat_service.Store.Tables.{keys_ok, seats_ok}
use omnixys_seat_service.Store.Post.{Post}
use omnixys_seat_service.Store.Quiet.{IsReady}
use omnixys_seat_service.Seat.Assign.{assign_seat}
use omnixys_seat_service.Seat.Sole.{IsSoleHolder, IsRefusal, assign_seat-IsSoleHolder}
use omnixys_seat_service.Seat.Outcome.{assign_seat_succeeds, assign_seat_taken}
use omnixys_seat_service.Seat.Free.{IsFreeOrOwn}
use omnixys_seat_service.Base.{inl, inr}
use omnixys_seat_service.Tests.Data.{
  env, event_db, free_seat_row, held_seat_row, move_guest, take_held,
}

pub event_db-valid : seats_ok event_db.seats ≡ true
unfolding keys_ok
event_db-valid = refl

pub env-IsReady : IsReady env
env-IsReady = record { tenant = (7, refl, refl); facts = λ f. refl }

assign_seat-IsSoleHolder_example :
    Post (IsSoleHolder move_guest) (IsRefusal move_guest) (assign_seat env move_guest 1 event_db)
assign_seat-IsSoleHolder_example =
    assign_seat-IsSoleHolder env move_guest 1 event_db event_db-valid refl

free_seat_row-IsFreeOrOwn : IsFreeOrOwn move_guest free_seat_row
free_seat_row-IsFreeOrOwn = inl (refl, refl, refl)

held_seat_row-taken : ¬ (IsFreeOrOwn take_held held_seat_row)
held_seat_row-taken (inl (p, q, r)) = cc
held_seat_row-taken (inr (p, q)) = omega (arith, some_inj p)

assign_seat_succeeds_example :
    (a : Seat) × (db' : Db) × (assign_seat env move_guest 1 event_db ≡ (ok a, db'))
    × IsSoleHolder move_guest a db'
assign_seat_succeeds_example =
    assign_seat_succeeds env move_guest 1 event_db free_seat_row env-IsReady event_db-valid refl
      refl refl free_seat_row-IsFreeOrOwn

assign_seat_taken_example :
    assign_seat env take_held 1 event_db ≡ (err (seat_unavailable 9 (some 11)), event_db)
assign_seat_taken_example =
    assign_seat_taken env take_held 1 event_db held_seat_row env-IsReady event_db-valid refl refl
      refl held_seat_row-taken
