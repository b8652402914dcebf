-- ===== src/Projections/Settings.antt =====
-- handlers/event-settings.handler.ts: handleEventCreated and handleEventUpdated. A field of a message
-- that may be `undefined` or `null` is an option. `endsAt` of an update and `seatColorGroups`, where a
-- handler tells the two apart, are options of options: `none` is `undefined`, `some none` is `null`, and
-- a document of groups is not the JSON value `null`. A column that holds `null` is `none`, whether the
-- database or JSON says so, since the two are read alike.
use omnixys_seat_service.Base.{
  ℕ, Bool, true, false, not, ◌&&◌, Option, none, some, String, ◌==◌, if◌then◌else◌, find, or_else,
  or_default,
}
use omnixys_seat_service.Store.Rows.{Uuid, Time}
use omnixys_seat_service.Meta.{Json}
use omnixys_seat_service.Projections.Rows.{EventSettingsProjection, Projections, upsert}
use omnixys_seat_service.Projections.Roles.{is_before}

pub record EventCreatedDto : Type 0 where
  pub event_id : Uuid
  pub name : String
  pub ends_at : Option Time
  pub max_seats : ℕ
  pub allow_guest_seat_selection : Bool
  pub seat_color_groups : Option (Option Json)

pub record EventUpdatedDto : Type 0 where
  pub event_id : Uuid
  pub name : Option String
  pub ends_at : Option (Option Time)
  pub max_seats : Option ℕ
  pub allow_guest_seat_selection : Option Bool
  pub seat_color_groups : Option (Option Json)
  pub occurred_at : Time

-- `eventId @unique`
abbrev pub settings_of : Uuid → EventSettingsProjection → Bool
settings_of event r = r.event_id == event

-- `seatColorGroups ?? undefined`
abbrev pub given : Option (Option Json) → Option Json
given none = none
given (some groups) = groups

abbrev pub created_row : Time → EventCreatedDto → EventSettingsProjection
created_row now m = record {
  event_id = m.event_id;
  name = some m.name;
  ends_at = m.ends_at;
  max_seats = some m.max_seats;
  allow_guest_seat_selection = m.allow_guest_seat_selection;
  seat_color_groups = given m.seat_color_groups;
  updated_at = some now;
}

abbrev pub set_created : Time → EventCreatedDto → EventSettingsProjection → EventSettingsProjection
set_created now m r = record r {
  name = some m.name;
  ends_at = m.ends_at;
  max_seats = some m.max_seats;
  allow_guest_seat_selection = m.allow_guest_seat_selection;
  seat_color_groups = or_else (given m.seat_color_groups) r.seat_color_groups;
  updated_at = some now;
}

unfoldable pub handle_event_created : Time → EventCreatedDto → Projections → Projections
handle_event_created now m s = record s {
  settings = upsert (settings_of m.event_id) (created_row now m) (set_created now m) s.settings;
}

abbrev pub is_stale_settings : Time → Option EventSettingsProjection → Bool
is_stale_settings time none = false
is_stale_settings time (some row) = is_before time row.updated_at

abbrev pub updated_row : Time → EventUpdatedDto → EventSettingsProjection
updated_row now m = record {
  event_id = m.event_id;
  name = m.name;
  ends_at = or_default m.ends_at none;
  max_seats = m.max_seats;
  allow_guest_seat_selection = or_default m.allow_guest_seat_selection false;
  seat_color_groups = given m.seat_color_groups;
  updated_at = some now;
}

abbrev pub set_updated : Time → EventUpdatedDto → EventSettingsProjection → EventSettingsProjection
set_updated now m r = record r {
  name = or_else m.name r.name;
  ends_at = or_default m.ends_at r.ends_at;
  max_seats = or_else m.max_seats r.max_seats;
  allow_guest_seat_selection = or_default m.allow_guest_seat_selection r.allow_guest_seat_selection;
  seat_color_groups = or_default m.seat_color_groups r.seat_color_groups;
  updated_at = some now;
}

abbrev pub write_settings : Time → EventUpdatedDto → Projections → Projections
write_settings now m s = record s {
  settings = upsert (settings_of m.event_id) (updated_row now m) (set_updated now m) s.settings;
}

abbrev pub is_null : Option (Option Json) → Bool
is_null (some none) = true
is_null _ = false

-- An update may set the column of the groups to `null`; it is the client that takes this, and empties the
-- column, or throws. `none` is what throws, with nothing written.
unfoldable pub handle_event_updated :
    Bool → Time → EventUpdatedDto → Projections → Option Projections
handle_event_updated takes_null now m s =
    if is_stale_settings m.occurred_at (find (settings_of m.event_id) s.settings)
    then some s
    else if is_null m.seat_color_groups && not takes_null
    then none
    else some (write_settings now m s)
