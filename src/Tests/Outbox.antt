-- ===== src/Tests/Outbox.antt =====
-- The publisher at a small outbox, with a broker that refuses everything.
use omnixys_seat_service.Base.{ℕ, true, false, refl, some, none, [], ◌∷◌, arith, ◌≡◌, All}
use omnixys_seat_service.Store.Rows.{AnalyticsOutbox, plain, Db}
use omnixys_seat_service.Store.Post.{Post}
use omnixys_seat_service.Store.Tables.{keys_ok}
use omnixys_seat_service.Outbox.Publish.{Broker, publish_ready}
use omnixys_seat_service.Outbox.Rows.{IsSound, same_id}
use omnixys_seat_service.Outbox.Later.{IsLater}
use omnixys_seat_service.Outbox.Pass.{publish_ready-IsLater}
use omnixys_seat_service.Tests.Data.{env, event_db}

abbrev fact_row : ℕ → ℕ → AnalyticsOutbox
fact_row id attempts = record {
  id = id;
  tenant_id = 7;
  topic = "seat.assigned.v1";
  payload = record {
    event_name = "SeatAssigned";
    aggregate_id = 10;
    subject_id = 100;
    event_id = 9;
    properties = plain;
    occurred_at = 500;
  };
  correlation_id = none;
  actor_id = none;
  attempts = attempts;
  next_attempt_at = 500;
  locked_at = none;
  locked_by = none;
  published_at = none;
  dead_lettered_at = none;
  last_error = none;
  created_at = id;
}

abbrev facts_db : Db
facts_db = record event_db { outbox = fact_row 20 0 ∷ fact_row 21 9 ∷ [] }

abbrev refuse : Broker
refuse _ = some "no broker"

facts-IsSound : All IsSound facts_db.outbox
facts-IsSound = (
  record { attempts = omega arith; dead = refl; once = refl },
  (record { attempts = omega arith; dead = refl; once = refl }, tt),
)

facts_ids : keys_ok same_id facts_db.outbox ≡ true
unfolding keys_ok
facts_ids = refl

publish_ready-IsLater_example :
    Post
      (λ _ s'. IsLater facts_db.outbox s'.outbox)
      (λ _. ⊥)
      (publish_ready env refuse 3 false facts_db)
publish_ready-IsLater_example =
    publish_ready-IsLater env refuse 3 false facts_db facts-IsSound facts_ids
