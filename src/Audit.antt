-- ===== src/Audit.antt =====
-- The records that every mutation leaves behind: the audit log of the layout
-- (layout/services/layout-write.service.ts, `logChange`) and the analytics outbox
-- (analytics/analytics-outbox.service.ts, `enqueue`).
use omnixys_seat_service.Base.{String, Option, none, some, [], ◌∷◌, ◌++◌, if◌then◌else◌}
use omnixys_seat_service.Store.Rows.{Uuid, LayoutChangeType, ChangePayload, Fact}
use omnixys_seat_service.Store.Exec.{tenant_required, invalid_fact, Env, Exec, raise, modify, ◌>>=◌}
use omnixys_seat_service.Store.Tables.{new_id}

unfoldable pub log_change : Env → Uuid → Uuid → LayoutChangeType → ChangePayload → Exec Unit
unfolding new_id ◌>>=◌
log_change e event actor change payload = do
  id ← new_id e
  modify λ s. record s {
    change_logs =
        s.change_logs
        ++ record {
          id = id;
          event_id = event;
          actor_id = actor;
          change = change;
          payload = payload;
          created_at = e.now;
        }
          ∷ [];
  }

-- The row, with the defaults of its table.
unfoldable pub create_outbox_row : Env → String → Fact → Uuid → Exec Unit
unfolding new_id ◌>>=◌
create_outbox_row e topic fact tenant = do
  id ← new_id e
  modify λ s. record s {
    outbox =
        s.outbox
        ++ record {
          id = id;
          tenant_id = tenant;
          topic = topic;
          payload = fact;
          correlation_id = e.correlation_id;
          actor_id = e.principal_id;
          attempts = 0;
          next_attempt_at = e.now;
          locked_at = none;
          locked_by = none;
          published_at = none;
          dead_lettered_at = none;
          last_error = none;
          created_at = e.now;
        }
          ∷ [];
  }

abbrev pub for_tenant : Env → String → Fact → Option Uuid → Exec Unit
for_tenant e topic fact none = raise tenant_required
for_tenant e topic fact (some tenant) =
    if e.is_uuid tenant
    then (if e.accepts fact then create_outbox_row e topic fact tenant else raise invalid_fact)
    else raise tenant_required

unfoldable pub enqueue : Env → String → Fact → Exec Unit
unfolding create_outbox_row
enqueue e topic fact = for_tenant e topic fact e.tenant_id
