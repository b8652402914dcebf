-- ===== src/Outbox/Publish.antt =====
-- analytics/analytics-outbox.publisher.ts: one pass over the outbox. The broker is a parameter, which
-- returns the text of the error it throws, if it throws one, and a pass reads the clock once.
use omnixys_seat_service.Base.{
  ℕ, zero, suc, ◌+◌, ◌*◌, ◌^◌, min, Bool, true, not, ◌&&◌, ◌||◌, String, List, [], ◌∷◌, Option,
  none, some, ltb, leb, ◌==◌, if◌then◌else◌, is_some, find, select, update_if, count_if,
}
use omnixys_seat_service.Store.Rows.{Uuid, Time, Fact, AnalyticsOutbox, Db}
use omnixys_seat_service.Store.Exec.{
  record_not_found, Env, Exec, pure, gets, modify, or_raise, when, ◌>>=◌, ◌>>◌,
}

-- What is sent: the topic, the envelope and its headers.
pub record Message : Type 0 where
  pub topic : String
  pub event_id : Uuid
  pub event_name : String
  pub timestamp : Time
  pub payload : Fact
  pub tenant_id : Uuid
  pub correlation_id : Option Uuid
  pub actor_id : Option Uuid

-- `rawSend` of the broker
abbrev pub Broker : Type 0
Broker = Message → Option String

abbrev pub is_settled : AnalyticsOutbox → Bool
is_settled r = is_some r.published_at || is_some r.dead_lettered_at

-- `lockedAt` is null, or a minute has gone by since.
abbrev pub is_unlocked : Time → Option Time → Bool
is_unlocked now none = true
is_unlocked now (some locked) = ltb (locked + 60000) now

abbrev pub is_due : Time → AnalyticsOutbox → Bool
is_due now r = not (is_settled r) && (leb r.next_attempt_at now && is_unlocked now r.locked_at)

-- `orderBy: { createdAt: 'asc' }`
abbrev pub insert_by_age : AnalyticsOutbox → List AnalyticsOutbox → List AnalyticsOutbox
insert_by_age r [] = r ∷ []
insert_by_age r (x ∷ xs) =
    let rest = insert_by_age r xs in if leb r.created_at x.created_at then r ∷ x ∷ xs else x ∷ rest

unfoldable pub oldest_first : List AnalyticsOutbox → List AnalyticsOutbox
oldest_first [] = []
oldest_first (x ∷ xs) = insert_by_age x (oldest_first xs)

abbrev pub take : ℕ → List AnalyticsOutbox → List AnalyticsOutbox
take zero xs = []
take (suc n) [] = []
take (suc n) (x ∷ xs) = x ∷ take n xs

unfoldable pub find_candidates : Time → Db → List AnalyticsOutbox
unfolding oldest_first
find_candidates now s = take 50 (oldest_first (select (is_due now) s.outbox))

-- The row is still to be published, and free or its lock has expired.
abbrev pub can_lock : Time → Uuid → AnalyticsOutbox → Bool
can_lock now id r = r.id == id && (not (is_settled r) && is_unlocked now r.locked_at)

abbrev pub lock : Time → Uuid → AnalyticsOutbox → AnalyticsOutbox
lock now instance_id r = record r { locked_at = some now; locked_by = some instance_id }

-- The claim of a candidate, with the number of rows that it locked.
unfoldable pub claim_row : Env → Uuid → Uuid → Exec ℕ
unfolding ◌>>=◌
claim_row e instance_id id = do
  count ← gets (λ s. count_if (can_lock e.now id) s.outbox)
  modify λ s. record s { outbox = update_if (can_lock e.now id) (lock e.now instance_id) s.outbox }
  pure count

abbrev pub message : AnalyticsOutbox → Message
message r = record {
  topic = r.topic;
  event_id = r.id;
  event_name = r.topic;
  timestamp = r.created_at;
  payload = r.payload;
  tenant_id = r.tenant_id;
  correlation_id = r.correlation_id;
  actor_id = r.actor_id;
}

abbrev pub mark_published : Time → AnalyticsOutbox → AnalyticsOutbox
mark_published now r = record r {
  published_at = some now;
  locked_at = none;
  locked_by = none;
  last_error = none;
}

-- After a failure: the tenth is the last, and before that the next attempt waits.
abbrev pub mark_failed : Time → String → ℕ → AnalyticsOutbox → AnalyticsOutbox
mark_failed now error attempts r = record r {
  attempts = attempts;
  locked_at = none;
  locked_by = none;
  last_error = some error;
  dead_lettered_at = if leb 10 attempts then some now else r.dead_lettered_at;
  next_attempt_at =
      if leb 10 attempts then r.next_attempt_at else now + min 300000 (2 ^ attempts * 1000);
}

abbrev pub outcome : Time → AnalyticsOutbox → Option String → AnalyticsOutbox → AnalyticsOutbox
outcome now found none r = mark_published now r
outcome now found (some error) r = mark_failed now error (found.attempts + 1) r

abbrev pub settle_row : Env → Broker → Uuid → AnalyticsOutbox → Exec Unit
settle_row e send id found = modify λ s. record s {
  outbox = update_if (λ r. r.id == id) (outcome e.now found (send (message found))) s.outbox;
}

unfoldable pub publish : Env → Broker → Uuid → Exec Unit
unfolding ◌>>=◌ or_raise
publish e send id = do
  found ← or_raise (← gets (λ s. find (λ r. r.id == id) s.outbox)) record_not_found
  settle_row e send id found

unfoldable pub publish_each : Env → Broker → Uuid → List AnalyticsOutbox → Exec Unit
unfolding ◌>>=◌ when claim_row publish
publish_each e send instance_id [] = pure tt
publish_each e send instance_id (candidate ∷ rest) = do
  count ← claim_row e instance_id candidate.id
  when (count == 1) (publish e send candidate.id)
  publish_each e send instance_id rest

-- publishReady, in a publisher that is at work or not
unfoldable pub publish_ready : Env → Broker → Uuid → Bool → Exec Unit
unfolding ◌>>=◌ find_candidates publish_each
publish_ready e send instance_id running =
    if running
    then pure tt
    else do candidates ← gets (find_candidates e.now); publish_each e send instance_id candidates
