-- ===== src/Seat/Common.antt =====
-- seat/services/seat-write.service.ts: what the assignments share.
use omnixys_seat_service.Base.{Bool, false, String, Option, none, some, holds}
use omnixys_seat_service.Store.Rows.{Uuid, available, Seat, Fact, FactProperties}
use omnixys_seat_service.Store.Exec.{Env, Exec, pure}
use omnixys_seat_service.Audit.{enqueue}

-- The seat is held by nobody.
abbrev pub free_seat : Seat → Seat
free_seat s = record s { guest_id = none; invitation_id = none; note = none; status = available }

-- A row's filter `{guestId}` or `{invitationId}` that is there only if the input has it.
abbrev pub held_by : Option Uuid → Option Uuid → Bool
held_by column none = false
held_by column (some n) = holds column n

abbrev pub fact : Env → String → Uuid → Uuid → Uuid → FactProperties → Fact
fact e name seat_id subject event properties = record {
  event_name = name;
  aggregate_id = seat_id;
  subject_id = subject;
  event_id = event;
  properties = properties;
  occurred_at = e.now;
}

-- `if (subjectId) { await this.analyticsOutbox.enqueue(…) }`
abbrev pub enqueue_for : Env → Option Uuid → String → (Uuid → Fact) → Exec Unit
enqueue_for e none topic make = pure tt
enqueue_for e (some subject) topic make = enqueue e topic (make subject)
