-- ===== src/ColorGroup/Best.antt =====
-- The group that is chosen (seat/services/color-group-matcher.service.ts): it matches, it is one of the
-- event's, and no matching group comes before it.
use omnixys_seat_service.Base.{
  Bool, true, false, ◌≡◌, refl, ◌⊎◌, List, [], ◌∷◌, Option, none, some, find, All, Bool-cases, inl,
  inr, String, arith, str_eq, eq_iff, every, ◌↔◌,
}
use omnixys_seat_service.Base.Int.{ℤ, leb_ℤ, ◌≤ℤ◌}
use omnixys_seat_service.Store.Rows.{Uuid}
use omnixys_seat_service.Store.Unique.{All-weaken}
use omnixys_seat_service.ColorGroup.Matching.{
  MatchType, no_inviter, single, custom, all, other, SeatColorGroup, includes, is_empty, matches_as,
  is_match, insert_by_priority, by_priority, Lookups, match,
}

abbrev pub IsAmong : SeatColorGroup → List SeatColorGroup → Type 0
IsAmong g [] = ⊥
IsAmong g (x ∷ xs) = (g ≡ x) ⊎ IsAmong g xs

abbrev pub Includes : List String → String → Type 0
Includes [] value = ⊥
Includes (v ∷ vs) value = (v ≡ value) ⊎ Includes vs value

-- How a guest who named these inviters suits the values of a group: nobody was named; the first value
-- was; all values were.
abbrev pub Suits : MatchType → List String → List String → Type 0
Suits no_inviter values selected = selected ≡ []
Suits single [] selected = ⊥
Suits single (v ∷ vs) selected = Includes selected v
Suits custom values selected = All (Includes selected) values
Suits all values selected = All (Includes selected) values
Suits other values selected = ⊥

-- The group is in use and suits the inviters.
abbrev pub Qualifies : List String → SeatColorGroup → Type 0
Qualifies selected g = (g.is_orphaned ≡ false) × Suits g.match_type g.invited_by_values selected

-- What the choice is to be among the groups.
abbrev pub IsBest : (SeatColorGroup → Type 0) → List SeatColorGroup → Option SeatColorGroup → Type 0
IsBest P gs none = All (λ g. ¬ P g) gs
IsBest P gs (some g) = P g × IsAmong g gs × All (λ x. P x → g.priority ≤ℤ x.priority) gs

includes_iff :
    (selected : List String) (v : String) → (includes selected v ≡ true) ↔ Includes selected v
includes_iff [] v = ((λ e. cc), (λ h. absurd h))
includes_iff (x ∷ xs) v =
    let ih = includes_iff xs v in
    elim (Bool-cases (str_eq x v)) [
      | inl e ↦ rw e ((λ _. inl ((eq_iff x v).0 e)), (λ _. refl))
      | inr e ↦ rw e (
        (λ h. inr (ih.0 h)),
        (λ h. elim h [ inl q ↦ cc (rw ((eq_iff x v).1 q) at e) | inr m ↦ ih.1 m ]),
      )
    ]

every_iff :
    (selected values : List String)
    → (every (includes selected) values ≡ true) ↔ All (Includes selected) values
every_iff selected [] = ((λ _. tt), (λ _. refl))
every_iff selected (v ∷ vs) =
    let ih = every_iff selected vs in
    let own = includes_iff selected v in
    elim (Bool-cases (includes selected v)) [
      | inl e ↦ rw e ((λ h. (own.0 e, ih.0 h)), (λ h. ih.1 h.1))
      | inr e ↦ rw e ((λ h. cc), (λ h. cc (rw (own.1 h.0) at e)))
    ]

empty_iff : (selected : List String) → (is_empty selected ≡ true) ↔ (selected ≡ [])
empty_iff [] = ((λ _. refl), (λ _. refl))
empty_iff (x ∷ xs) = ((λ e. cc), (λ e. cc))

matches_as_iff :
    (kind : MatchType) (values selected : List String)
    → (matches_as kind values selected ≡ true) ↔ Suits kind values selected
matches_as_iff no_inviter values selected = empty_iff selected
matches_as_iff single [] selected = ((λ e. cc), (λ h. absurd h))
matches_as_iff single (v ∷ vs) selected = includes_iff selected v
matches_as_iff custom values selected = every_iff selected values
matches_as_iff all values selected = every_iff selected values
matches_as_iff other values selected = ((λ e. cc), (λ h. absurd h))

-- The code's test says which groups are in use and suit the inviters.
is_match_iff :
    (selected : List String) (g : SeatColorGroup)
    → (is_match selected g ≡ true) ↔ Qualifies selected g
is_match_iff selected g =
    let suits = matches_as_iff g.match_type g.invited_by_values selected in
    elim (Bool-cases g.is_orphaned) [
      | inl e ↦ rw e ((λ h. cc), (λ h. cc))
      | inr e ↦ rw e ((λ h. (refl, suits.0 h)), (λ h. suits.1 h.1))
    ]

abbrev IsSorted : List SeatColorGroup → Type 0
IsSorted [] = Unit
IsSorted (x ∷ xs) = All (λ y. x.priority ≤ℤ y.priority) xs × IsSorted xs

module _ {κ} (P : SeatColorGroup → Type κ) where
  All-insert :
      (g : SeatColorGroup) (xs : List SeatColorGroup)
      → P g
      → All P xs
      → All P (insert_by_priority g xs)
  unfolding insert_by_priority
  All-insert g [] h k = (h, k)
  All-insert g (x ∷ xs) h k = elim (Bool-cases (leb_ℤ g.priority x.priority)) [
    | inl e ↦ rw e (h, k)
    | inr e ↦ rw e (k.0, All-insert g xs h k.1)
  ]

  All-uninsert :
      (g : SeatColorGroup) (xs : List SeatColorGroup)
      → All P (insert_by_priority g xs)
      → P g × All P xs
  unfolding insert_by_priority
  All-uninsert g [] h = h
  All-uninsert g (x ∷ xs) h = elim (Bool-cases (leb_ℤ g.priority x.priority)) [
    | inl e ↦ rw e at h
    | inr e ↦ let k = rw e at h in let (own, rest) = All-uninsert g xs k.1 in (own, (k.0, rest))
  ]

  All-unsort : (xs : List SeatColorGroup) → All P (by_priority xs) → All P xs
  unfolding by_priority
  All-unsort [] h = h
  All-unsort (x ∷ xs) h =
      let (own, rest) = All-uninsert x (by_priority xs) h in (own, All-unsort xs rest)

insert-IsSorted :
    (g : SeatColorGroup) (xs : List SeatColorGroup)
    → IsSorted xs
    → IsSorted (insert_by_priority g xs)
unfolding insert_by_priority
insert-IsSorted g [] h = (tt, tt)
insert-IsSorted g (x ∷ xs) h = elim (Bool-cases (leb_ℤ g.priority x.priority)) [
  | inl e ↦
      let below = le e in
      rw e
        ((below, All-weaken _ _ xs (λ y q. trans g.priority x.priority y.priority below q) h.0), h)
  | inr e ↦
      rw e (All-insert (λ y. x.priority ≤ℤ y.priority) g xs (ge e) h.0, insert-IsSorted g xs h.1)
]
  where
    le : leb_ℤ g.priority x.priority ≡ true → g.priority ≤ℤ x.priority
    le e = ground arith

    ge : leb_ℤ g.priority x.priority ≡ false → x.priority ≤ℤ g.priority
    ge e = ground arith

    trans : (a b c : ℤ) → a ≤ℤ b → b ≤ℤ c → a ≤ℤ c
    trans a b c h k = omega arith

by_priority-IsSorted : (xs : List SeatColorGroup) → IsSorted (by_priority xs)
unfolding by_priority
by_priority-IsSorted [] = tt
by_priority-IsSorted (x ∷ xs) = insert-IsSorted x (by_priority xs) (by_priority-IsSorted xs)

insert-IsAmong :
    (g x : SeatColorGroup) (xs : List SeatColorGroup)
    → IsAmong g (insert_by_priority x xs)
    → (g ≡ x) ⊎ IsAmong g xs
unfolding insert_by_priority
insert-IsAmong g x [] h = h
insert-IsAmong g x (y ∷ ys) h = elim (Bool-cases (leb_ℤ x.priority y.priority)) [
  | inl e ↦ rw e at h
  | inr e ↦ elim (rw e at h) [
    | inl q ↦ inr (inl q)
    | inr q ↦ elim (insert-IsAmong g x ys q) [ inl r ↦ inl r | inr r ↦ inr (inr r) ]
  ]
]

by_priority-IsAmong :
    (g : SeatColorGroup) (xs : List SeatColorGroup) → IsAmong g (by_priority xs) → IsAmong g xs
unfolding by_priority
by_priority-IsAmong g [] h = h
by_priority-IsAmong g (x ∷ xs) h = elim (insert-IsAmong g x (by_priority xs) h) [
  | inl q ↦ inl q
  | inr q ↦ inr (by_priority-IsAmong g xs q)
]

module _ (P : SeatColorGroup → Type 0) (p : SeatColorGroup → Bool)
    (decides : (g : SeatColorGroup) → (p g ≡ true) ↔ P g) where
  find-IsBest : (xs : List SeatColorGroup) → IsSorted xs → IsBest P xs (find p xs)
  find-IsBest [] h = tt
  find-IsBest (x ∷ xs) h = elim (Bool-cases (p x)) [
    | inl e ↦
        rw e ((decides x).0 e, inl refl, ((λ _. omega arith), All-weaken _ _ xs (λ y q _. q) h.0))
    | inr e ↦ rw e (skip (find p xs) (λ q. cc (rw ((decides x).1 q) at e)) (find-IsBest xs h.1))
  ]
    where
      skip : (o : Option SeatColorGroup) → ¬ P x → IsBest P xs o → IsBest P (x ∷ xs) o
      skip none e k = (e, k)
      skip (some g) e k = (k.0, inr k.1, ((λ c. absurd (e c)), k.2))

-- The group that `match` returns for an event with groups is one of them that is not orphaned and suits
-- the inviters that a guest named, and no such group has a smaller priority; when it returns none, there
-- is no such group. A group of the kind NONE suits a guest who named nobody, SINGLE one who named its
-- first value, CUSTOM and ALL one who named all its values.
pub match-IsBest :
    (lookups : Lookups) (event : Uuid) (selected : List String) (groups : List SeatColorGroup)
    → lookups.groups_of event ≡ some groups
    → IsBest (Qualifies selected) groups (match lookups event selected)
unfolding match
match-IsBest lookups event selected groups h = rw h (
    unsort (find (is_match selected) (by_priority groups)) (
      find-IsBest (Qualifies selected) (is_match selected) (is_match_iff selected)
        (by_priority groups) (by_priority-IsSorted groups)))
  where
    unsort :
        (o : Option SeatColorGroup)
        → IsBest (Qualifies selected) (by_priority groups) o
        → IsBest (Qualifies selected) groups o
    unsort none k = All-unsort _ groups k
    unsort (some g) k = (k.0, by_priority-IsAmong g groups k.1, All-unsort _ groups k.2)
