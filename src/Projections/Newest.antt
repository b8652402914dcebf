-- ===== src/Projections/Newest.antt =====
-- The row of a user after any messages on access (handlers/event-role.handler.ts): it is the newest
-- content that is known.
use omnixys_seat_service.Base.{
  true, ◌≡◌, ◌⊎◌, refl, List, [], ◌∷◌, Option, none, some, ltb, ◌≤◌, arith, Bool-cases, inl, inr,
  ◌∙◌, All,
}
use omnixys_seat_service.Store.Rows.{Uuid, Time}
use omnixys_seat_service.Projections.Rows.{Projections}
use omnixys_seat_service.Projections.Roles.{EventAccessDto}
use omnixys_seat_service.Projections.Access.{
  deliver, access, Content, content, content_of, is_about, stale, step, step_of, steps,
  content-deliver,
}

-- The content is at least as new as the time.
abbrev pub IsAtLeast : Time → Option Content → Type 0
IsAtLeast time none = ⊥
IsAtLeast time (some (none, c)) = ⊥
IsAtLeast time (some (some t, c)) = time ≤ t

-- The content is that of one of the messages about the user.
abbrev pub IsFrom : Uuid → Uuid → List (Time × EventAccessDto) → Option Content → Type 0
IsFrom event user [] c = ⊥
IsFrom event user (m ∷ ms) c =
    ((is_about event user m.1 ≡ true) × (c ≡ some (content_of m.1))) ⊎ IsFrom event user ms c

step_of-IsAtLeast :
    (event user : Uuid) (m : EventAccessDto) (time : Time) (c : Option Content)
    → IsAtLeast time c
    → IsAtLeast time (step_of event user m c)
step_of-IsAtLeast event user m time none h = absurd h
step_of-IsAtLeast event user m time (some (none, c)) h = absurd h
step_of-IsAtLeast event user m time (some (some t, c)) h =
    elim (Bool-cases (is_about event user m)) [
      | inl e ↦
          rw e (elim (Bool-cases (ltb m.occurred_at t)) [
            | inl d ↦ rw d h
            | inr d ↦ rw d (ground arith)
          ])
      | inr e ↦ rw e h
    ]

steps-IsAtLeast :
    (event user : Uuid) (ms : List (Time × EventAccessDto)) (time : Time) (c : Option Content)
    → IsAtLeast time c
    → IsAtLeast time (steps event user ms c)
steps-IsAtLeast event user [] time c h = h
steps-IsAtLeast event user (m ∷ ms) time c h =
    steps-IsAtLeast event user ms time (step_of event user m.1 c)
      (step_of-IsAtLeast event user m.1 time c h)

step-IsAtLeast : (m : EventAccessDto) (c : Option Content) → IsAtLeast m.occurred_at (step m c)
step-IsAtLeast m none = omega arith
step-IsAtLeast m (some (none, c)) = omega arith
step-IsAtLeast m (some (some t, c)) = elim (Bool-cases (ltb m.occurred_at t)) [
  | inl d ↦ rw d (ground arith)
  | inr d ↦ rw d (omega arith)
]

steps-newest :
    (event user : Uuid) (ms : List (Time × EventAccessDto)) (c : Option Content)
    → All
        (λ m. is_about event user m.1 ≡ true → IsAtLeast m.1.occurred_at (steps event user ms c))
        ms
steps-newest event user [] c = tt
steps-newest event user (m ∷ ms) c = (
  (λ e.
      steps-IsAtLeast event user ms m.1.occurred_at (step_of event user m.1 c)
        (rw e (step-IsAtLeast m.1 c))),
  steps-newest event user ms (step_of event user m.1 c),
)

step_of-origin :
    (event user : Uuid) (m : Time × EventAccessDto) (c : Option Content)
    → (step_of event user m.1 c ≡ c) ⊎ IsFrom event user (m ∷ []) (step_of event user m.1 c)
step_of-origin event user m c = elim (Bool-cases (is_about event user m.1)) [
  | inl e ↦ elim (Bool-cases (stale m.1.occurred_at c)) [
    | inl d ↦ rw (e, d) (inl refl)
    | inr d ↦ rw (e, d) (inr (inl (refl, refl)))
  ]
  | inr e ↦ rw e (inl refl)
]

steps-origin :
    (event user : Uuid) (ms : List (Time × EventAccessDto)) (c : Option Content)
    → (steps event user ms c ≡ c) ⊎ IsFrom event user ms (steps event user ms c)
steps-origin event user [] c = inl refl
steps-origin event user (m ∷ ms) c = elim (steps-origin event user ms (step_of event user m.1 c)) [
  | inl e ↦ elim (step_of-origin event user m c) [
    | inl d ↦ inl (e ∙ d)
    | inr (inl d) ↦ inr (inl (d.0, e ∙ d.1))
    | inr (inr d) ↦ absurd d
  ]
  | inr f ↦ inr (inr f)
]

-- After any messages, the row of a user is as it was before or says what one of the messages about
-- the user says, and it is at least as new as each of those messages.
pub deliver-newest :
    (event user : Uuid) (ms : List (Time × EventAccessDto)) (s : Projections)
    → let before = content (access event user s) in
      let after = content (access event user (deliver ms s)) in
      ((after ≡ before) ⊎ IsFrom event user ms after)
      × All (λ m. is_about event user m.1 ≡ true → IsAtLeast m.1.occurred_at after) ms
deliver-newest event user ms s =
    let c = content (access event user s) in
    rw (content-deliver event user ms s)
      (steps-origin event user ms c, steps-newest event user ms c)
