-- ===== src/Tests/ColorGroups.antt =====
-- The choice of a colour group among three.
use omnixys_seat_service.Base.{Bool, true, false, refl, String, List, [], ◌∷◌, none, some}
use omnixys_seat_service.Base.Int.{ℤ, pos}
use omnixys_seat_service.ColorGroup.Matching.{MatchType, SeatColorGroup, Lookups, match}
use omnixys_seat_service.ColorGroup.Best.{Qualifies, IsBest, match-IsBest}

abbrev group : String → MatchType → List String → ℤ → Bool → SeatColorGroup
group id kind values priority orphaned = record {
  id = id;
  name = id;
  style = record { background = "#fff"; foreground = "#000"; border = "#000"; legend_icon = "dot" };
  match_type = kind;
  invited_by_values = values;
  priority = priority;
  order = pos 0;
  is_orphaned = orphaned;
}

abbrev groups : List SeatColorGroup
groups =
    group "both" MatchType.all ("bride" ∷ "groom" ∷ []) (pos 3) false
    ∷ group "bride" MatchType.single ("bride" ∷ []) (pos 2) false
    ∷ group "old" MatchType.single ("bride" ∷ []) (pos 1) true
    ∷ []

abbrev lookups : Lookups
lookups = record { groups_of = λ _. some groups; selected_invited_by = λ _. none }

match-IsBest_example :
    IsBest (Qualifies ("groom" ∷ "bride" ∷ [])) groups (match lookups 9 ("groom" ∷ "bride" ∷ []))
match-IsBest_example = match-IsBest lookups 9 ("groom" ∷ "bride" ∷ []) groups refl
