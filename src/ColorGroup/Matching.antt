-- ===== src/ColorGroup/Matching.antt =====
-- seat/services/color-group-matcher.service.ts: match and matchByInvitation. The payload of a group
-- has the fields of its entry, so one record stands for both.
use omnixys_seat_service.Base.{
  Bool, true, false, not, ◌&&◌, String, str_eq, List, [], ◌∷◌, Option, none, some, if◌then◌else◌,
  find, any, every,
}
use omnixys_seat_service.Base.Int.{ℤ, leb_ℤ}
use omnixys_seat_service.Store.Rows.{Uuid}

-- The kind of a match; `other` is any text that is none of the four.
pub data MatchType : Type 0 where
  no_inviter single custom all other : MatchType

pub record SeatColorGroupStyle : Type 0 where
  pub background : String
  pub foreground : String
  pub border : String
  pub legend_icon : String

pub record SeatColorGroup : Type 0 where
  pub id : String
  pub name : String
  pub style : SeatColorGroupStyle
  pub match_type : MatchType
  pub invited_by_values : List String
  pub priority : ℤ
  pub order : ℤ
  pub is_orphaned : Bool

abbrev pub includes : List String → String → Bool
includes values value = any (λ v. str_eq v value) values

abbrev pub is_empty : List String → Bool
is_empty [] = true
is_empty (v ∷ vs) = false

abbrev pub includes_first : List String → List String → Bool
includes_first selected [] = false
includes_first selected (v ∷ vs) = includes selected v

-- The `switch` on the kind of match.
abbrev pub matches_as : MatchType → List String → List String → Bool
matches_as no_inviter values selected = is_empty selected
matches_as single values selected = includes_first selected values
matches_as custom values selected = every (includes selected) values
matches_as all values selected = every (includes selected) values
matches_as other values selected = false

abbrev pub is_match : List String → SeatColorGroup → Bool
is_match selected g = not g.is_orphaned && matches_as g.match_type g.invited_by_values selected

-- `sort((a, b) => a.priority - b.priority)`, which keeps the order of equals
unfoldable pub insert_by_priority : SeatColorGroup → List SeatColorGroup → List SeatColorGroup
insert_by_priority g [] = g ∷ []
insert_by_priority g (x ∷ xs) =
    let rest = insert_by_priority g xs in
    if leb_ℤ g.priority x.priority then g ∷ x ∷ xs else x ∷ rest

unfoldable pub by_priority : List SeatColorGroup → List SeatColorGroup
unfolding insert_by_priority
by_priority [] = []
by_priority (g ∷ gs) = insert_by_priority g (by_priority gs)

abbrev pub match_groups : Option (List SeatColorGroup) → List String → Option SeatColorGroup
match_groups none selected = none
match_groups (some groups) selected = find (is_match selected) (by_priority groups)

-- The projections as the service reads them: the groups of an event, if its settings hold an array,
-- and those that a guest named as inviters, if the invitation is known and has them.
pub record Lookups : Type 0 where
  pub groups_of : Uuid → Option (List SeatColorGroup)
  pub selected_invited_by : Uuid → Option (List String)

unfoldable pub match : Lookups → Uuid → List String → Option SeatColorGroup
match lookups event selected = match_groups (lookups.groups_of event) selected

abbrev pub match_selected : Lookups → Uuid → Option (List String) → Option SeatColorGroup
match_selected lookups event none = none
match_selected lookups event (some selected) = match lookups event selected

unfoldable pub match_by_invitation : Lookups → Uuid → Option Uuid → Option SeatColorGroup
match_by_invitation lookups event none = none
match_by_invitation lookups event (some invitation) =
    match_selected lookups event (lookups.selected_invited_by invitation)
