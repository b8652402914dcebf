-- ===== src/Projections/Known.antt =====
-- handlers/event-settings.handler.ts: what the settings of an event say after a sequence of messages.
use omnixys_seat_service.Base.{
  ℕ, Bool, true, false, not, ◌&&◌, ◌≡◌, refl, ap, ◌∙◌, List, [], ◌∷◌, Option, none, some, String,
  ◌==◌, find, or_else, or_default, arith, if◌then◌else◌, Bool-cases, inl, inr, ==_iff,
}
use omnixys_seat_service.Store.Rows.{Uuid, Time}
use omnixys_seat_service.Meta.{Json}
use omnixys_seat_service.Projections.Rows.{
  EventSettingsProjection, Projections, upserted, find-upsert, find-upsert_other,
}
use omnixys_seat_service.Projections.Roles.{is_before}
use omnixys_seat_service.Projections.Settings.{
  EventCreatedDto, EventUpdatedDto, settings_of, created_row, set_created, handle_event_created,
  updated_row, set_updated, is_stale_settings, is_null, given, handle_event_updated,
}

-- What a row says, less the time at which it was written.
pub record Settings : Type 0 where
  pub name : Option String
  pub ends_at : Option Time
  pub max_seats : Option ℕ
  pub allow_guest_seat_selection : Bool
  pub seat_color_groups : Option Json

abbrev pub settings_at : Uuid → Projections → Option EventSettingsProjection
settings_at event s = find (settings_of event) s.settings

abbrev pub defaults : Settings
defaults = record {
  name = none;
  ends_at = none;
  max_seats = none;
  allow_guest_seat_selection = false;
  seat_color_groups = none;
}

-- An event without a row has the settings of an empty row.
abbrev pub says : Option EventSettingsProjection → Settings
says none = defaults
says (some r) = record {
  name = r.name;
  ends_at = r.ends_at;
  max_seats = r.max_seats;
  allow_guest_seat_selection = r.allow_guest_seat_selection;
  seat_color_groups = r.seat_color_groups;
}

-- When the row was written.
abbrev pub written : Option EventSettingsProjection → Option Time
written none = none
written (some r) = r.updated_at

abbrev pub some_of {ℓ} : {A : Type ℓ} → Option A → Option (Option A)
some_of none = none
some_of (some a) = some (some a)

-- A message on settings, with the time at which it is handled.
pub data SettingsMessage : Type 0 where
  creation : Time → EventCreatedDto → SettingsMessage
  update : Time → EventUpdatedDto → SettingsMessage

abbrev pub event_of : SettingsMessage → Uuid
event_of (creation now m) = m.event_id
event_of (update now m) = m.event_id

abbrev pub handled_at : SettingsMessage → Time
handled_at (creation now m) = now
handled_at (update now m) = now

-- What a message says of each field, if it does. `null` for the groups says nothing in a creation, and
-- that there are none in an update.
abbrev pub said_name : SettingsMessage → Option (Option String)
said_name (creation now m) = some (some m.name)
said_name (update now m) = some_of m.name

abbrev pub said_ends_at : SettingsMessage → Option (Option Time)
said_ends_at (creation now m) = some m.ends_at
said_ends_at (update now m) = m.ends_at

abbrev pub said_max_seats : SettingsMessage → Option (Option ℕ)
said_max_seats (creation now m) = some (some m.max_seats)
said_max_seats (update now m) = some_of m.max_seats

abbrev pub said_selection : SettingsMessage → Option Bool
said_selection (creation now m) = some m.allow_guest_seat_selection
said_selection (update now m) = m.allow_guest_seat_selection

abbrev pub said_groups : SettingsMessage → Option (Option Json)
said_groups (creation now m) = some_of (given m.seat_color_groups)
said_groups (update now m) = m.seat_color_groups

-- What the last of the messages that say something of a field says, or what was there before.
abbrev pub last {ℓ} : {A : Type ℓ} → (SettingsMessage → Option A) → List SettingsMessage → A → A
last said [] before = before
last said (m ∷ ms) before = last said ms (or_default (said m) before)

-- The settings say of each field what the messages that count say of it.
pub record IsTold (before : Settings) (ms : List SettingsMessage) (after : Settings) : Type 0 where
  pub name : after.name ≡ last said_name ms before.name
  pub ends_at : after.ends_at ≡ last said_ends_at ms before.ends_at
  pub max_seats : after.max_seats ≡ last said_max_seats ms before.max_seats
  pub selection :
      after.allow_guest_seat_selection ≡ last said_selection ms before.allow_guest_seat_selection
  pub groups : after.seat_color_groups ≡ last said_groups ms before.seat_color_groups

told {ℓ} : {A : Type ℓ} (o b : Option A) → or_default (some_of o) b ≡ or_else o b
told none b = refl
told (some a) b = refl

or_else-none {ℓ} : {A : Type ℓ} (o : Option A) → or_else o none ≡ o
or_else-none none = refl
or_else-none (some a) = refl

given_lem : (o : Option (Option Json)) → given o ≡ or_default o none
given_lem none = refl
given_lem (some g) = refl

stale_lem :
    (time : Time) (o : Option EventSettingsProjection)
    → is_stale_settings time o ≡ is_before time (written o)
stale_lem time none = refl
stale_lem time (some r) = refl

module _ (takes_null : Bool) where
  -- A message that throws leaves the rows as they were.
  abbrev pub handle : SettingsMessage → Projections → Projections
  handle (creation now m) s = handle_event_created now m s
  handle (update now m) s = or_default (handle_event_updated takes_null now m s) s

  abbrev pub deliver : List SettingsMessage → Projections → Projections
  deliver [] s = s
  deliver (m ∷ ms) s = deliver ms (handle m s)

  -- A creation always counts; an update unless it is dated before the last handling, or says `null` for
  -- the groups and the client does not take that.
  abbrev pub counts : Option Time → SettingsMessage → Bool
  counts last (creation now m) = true
  counts last (update now m) =
      not (is_before m.occurred_at last) && not (is_null m.seat_color_groups && not takes_null)

  -- The messages about the event that count, given when one about it was handled last.
  abbrev pub counted : Uuid → Option Time → List SettingsMessage → List SettingsMessage
  counted event last [] = []
  counted event last (m ∷ ms) =
      let more = counted event (some (handled_at m)) ms in
      let same = counted event last ms in
      if event_of m == event && counts last m then m ∷ more else same

  -- What is known of an event: when a message on it was handled last, and its settings.
  abbrev Known : Type 0
  Known = Option Time × Settings

  abbrev known : Option EventSettingsProjection → Known
  known o = (written o, says o)

  abbrev hear : SettingsMessage → Settings → Settings
  hear m c = record {
    name = or_default (said_name m) c.name;
    ends_at = or_default (said_ends_at m) c.ends_at;
    max_seats = or_default (said_max_seats m) c.max_seats;
    allow_guest_seat_selection = or_default (said_selection m) c.allow_guest_seat_selection;
    seat_color_groups = or_default (said_groups m) c.seat_color_groups;
  }

  abbrev learn : SettingsMessage → Known → Known
  learn m k = if counts k.0 m then (some (handled_at m), hear m k.1) else k

  known-created :
      (now : Time) (m : EventCreatedDto) (o : Option EventSettingsProjection)
      → known (some (upserted (created_row now m) (set_created now m) o))
        ≡ (some now, hear (creation now m) (says o))
  known-created now m none =
      rw (told (given m.seat_color_groups) none, or_else-none (given m.seat_color_groups)) refl
  known-created now m (some r) = rw (told (given m.seat_color_groups) r.seat_color_groups) refl

  known-updated :
      (now : Time) (m : EventUpdatedDto) (o : Option EventSettingsProjection)
      → known (some (upserted (updated_row now m) (set_updated now m) o))
        ≡ (some now, hear (update now m) (says o))
  known-updated now m none =
      rw
        (
          told m.name none,
          or_else-none m.name,
          told m.max_seats none,
          or_else-none m.max_seats,
          given_lem m.seat_color_groups,
        )
        refl
  known-updated now m (some r) = rw (told m.name r.name, told m.max_seats r.max_seats) refl

  known-handle_same :
      (m : SettingsMessage) (s : Projections)
      → known (settings_at (event_of m) (handle m s)) ≡ learn m (known (settings_at (event_of m) s))
  unfolding handle_event_created handle_event_updated
  known-handle_same (creation now m) s =
      ap known (
        find-upsert (settings_of m.event_id) (created_row now m) (set_created now m) s.settings
          (ground arith) (λ x h. h))
      ∙ known-created now m (settings_at m.event_id s)
  known-handle_same (update now m) s =
      let o = settings_at m.event_id s in
      elim (Bool-cases (is_before m.occurred_at (written o))) [
        | inl e ↦ rw (stale_lem m.occurred_at o, e) refl
        | inr e ↦ elim (Bool-cases (is_null m.seat_color_groups && not takes_null)) [
          | inl n ↦ rw (stale_lem m.occurred_at o, e, n) refl
          | inr n ↦
              rw (stale_lem m.occurred_at o, e, n)
                (ap known (
                    find-upsert (settings_of m.event_id) (updated_row now m) (set_updated now m)
                      s.settings (ground arith) (λ x h. h))
                  ∙ known-updated now m o)
        ]
      ]

  settings-handle_other :
      (m : SettingsMessage) (event : Uuid) (s : Projections)
      → (event_of m == event) ≡ false
      → settings_at event (handle m s) ≡ settings_at event s
  unfolding handle_event_created handle_event_updated
  settings-handle_other (creation now m) event s h =
      find-upsert_other (settings_of m.event_id) (settings_of event) (created_row now m)
        (set_created now m) s.settings h (λ x k. (ground arith, ground arith))
  settings-handle_other (update now m) event s h =
      elim (Bool-cases (is_stale_settings m.occurred_at (settings_at m.event_id s))) [
        | inl e ↦ rw e refl
        | inr e ↦ elim (Bool-cases (is_null m.seat_color_groups && not takes_null)) [
          | inl n ↦ rw (e, n) refl
          | inr n ↦
              rw (e, n)
                (find-upsert_other (settings_of m.event_id) (settings_of event) (updated_row now m)
                  (set_updated now m) s.settings h (λ x k. (ground arith, ground arith)))
        ]
      ]

  abbrev learn_of : Uuid → List SettingsMessage → Known → Known
  learn_of event [] k = k
  learn_of event (m ∷ ms) k = learn_of event ms (if event_of m == event then learn m k else k)

  known-deliver :
      (event : Uuid) (ms : List SettingsMessage) (s : Projections)
      → known (settings_at event (deliver ms s)) ≡ learn_of event ms (known (settings_at event s))
  known-deliver event [] s = refl
  known-deliver event (m ∷ ms) s = known-deliver event ms (handle m s) ∙ ap (learn_of event ms) step
    where
      step : known (settings_at event (handle m s)) ≡ (
          if event_of m == event
          then learn m (known (settings_at event s))
          else known (settings_at event s))
      step = elim (Bool-cases (event_of m == event)) [
        | inl e ↦ rw (e, ← (==_iff (event_of m) event).0 e) (known-handle_same m s)
        | inr e ↦ rw e (ap known (settings-handle_other m event s e))
      ]

  -- A field of what is known, for what the messages say of it.
  module _ {ℓ} {A : Type ℓ} (field : Settings → A) (said : SettingsMessage → Option A)
      (h : (m : SettingsMessage) (c : Settings) → field (hear m c) ≡ or_default (said m) (field c))
      (event : Uuid) where
    step-last :
        (m : SettingsMessage) (ms : List SettingsMessage) (k : Known) (about heard : Bool)
        → ((k : Known)
            → field (learn_of event ms k).1 ≡ last said (counted event k.0 ms) (field k.1))
        → field
            (learn_of event ms
              (if about then (if heard then (some (handled_at m), hear m k.1) else k) else k)).1
          ≡ last said
              (if about && heard
                then m ∷ counted event (some (handled_at m)) ms
                else counted event k.0 ms)
              (field k.1)
    step-last m ms k true true ih =
        ih (some (handled_at m), hear m k.1)
        ∙ ap (last said (counted event (some (handled_at m)) ms)) (h m k.1)
    step-last m ms k true false ih = ih k
    step-last m ms k false heard ih = ih k

    learn_of-last :
        (ms : List SettingsMessage) (k : Known)
        → field (learn_of event ms k).1 ≡ last said (counted event k.0 ms) (field k.1)
    learn_of-last [] k = refl
    learn_of-last (m ∷ ms) k =
        step-last m ms k (event_of m == event) (counts k.0 m) (λ k. learn_of-last ms k)

  -- After any messages on settings, each field of an event's settings is what the last message that counts
  -- says of it, or as it was before if none says anything of it. The messages that count are those about
  -- the event, less the updates that are dated before the handling of the last one that counts, and less
  -- those that throw: a creation always counts, also when it comes again after an update.
  pub deliver-IsTold :
      (event : Uuid) (ms : List SettingsMessage) (s : Projections)
      → IsTold
          (says (settings_at event s))
          (counted event (written (settings_at event s)) ms)
          (says (settings_at event (deliver ms s)))
  deliver-IsTold event ms s =
      let k = known (settings_at event s) in
      let e = known-deliver event ms s in
      record {
        name =
            ap (λ k. k.1.name) e ∙ learn_of-last (λ c. c.name) said_name (λ m c. refl) event ms k;
        ends_at =
            ap (λ k. k.1.ends_at) e
            ∙ learn_of-last (λ c. c.ends_at) said_ends_at (λ m c. refl) event ms k;
        max_seats =
            ap (λ k. k.1.max_seats) e
            ∙ learn_of-last (λ c. c.max_seats) said_max_seats (λ m c. refl) event ms k;
        selection =
            ap (λ k. k.1.allow_guest_seat_selection) e
            ∙ learn_of-last (λ c. c.allow_guest_seat_selection) said_selection (λ m c. refl) event
                ms k;
        groups =
            ap (λ k. k.1.seat_color_groups) e
            ∙ learn_of-last (λ c. c.seat_color_groups) said_groups (λ m c. refl) event ms k;
      }
