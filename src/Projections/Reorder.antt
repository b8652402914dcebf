-- ===== src/Projections/Reorder.antt =====
-- The order in which messages on access come (handlers/event-role.handler.ts) is of no account.
use omnixys_seat_service.Base.{
  true, ◌≡◌, ◌≢◌, refl, List, [], ◌∷◌, ◌++◌, Option, none, some, arith, Bool-cases, inl, inr, sym,
  ◌∙◌, ap,
}
use omnixys_seat_service.Store.Rows.{Uuid, Time}
use omnixys_seat_service.Projections.Rows.{Projections}
use omnixys_seat_service.Projections.Roles.{EventAccessDto}
use omnixys_seat_service.Projections.Access.{
  deliver, access, Content, content, is_about, step, step_of, steps, content-deliver,
}

step-swap :
    (m n : EventAccessDto) (c : Option Content)
    → m.occurred_at ≢ n.occurred_at
    → step n (step m c) ≡ step m (step n c)
step-swap m n none h = ground arith
step-swap m n (some (none, c)) h = ground arith
step-swap m n (some (some t, c)) h = ground arith

step_of-swap :
    (event user : Uuid) (m n : EventAccessDto) (c : Option Content)
    → (is_about event user m ≡ true → is_about event user n ≡ true → m.occurred_at ≢ n.occurred_at)
    → step_of event user n (step_of event user m c) ≡ step_of event user m (step_of event user n c)
step_of-swap event user m n c h = elim (Bool-cases (is_about event user m)) [
  | inl e ↦ elim (Bool-cases (is_about event user n)) [
    | inl d ↦ rw (e, d) (step-swap m n c (h e d))
    | inr d ↦ rw (e, d) refl
  ]
  | inr e ↦ rw e refl
]

steps-swap :
    (event user : Uuid) (ms ns : List (Time × EventAccessDto)) (m n : Time × EventAccessDto)
    (c : Option Content)
    → (is_about event user m.1 ≡ true
        → is_about event user n.1 ≡ true
        → m.1.occurred_at ≢ n.1.occurred_at)
    → steps event user (ms ++ m ∷ n ∷ ns) c ≡ steps event user (ms ++ n ∷ m ∷ ns) c
steps-swap event user [] ns m n c h = ap (steps event user ns) (step_of-swap event user m.1 n.1 c h)
steps-swap event user (l ∷ ms) ns m n c h =
    steps-swap event user ms ns m n (step_of event user l.1 c) h

-- Two messages that follow each other may come in either order, if they are not about one user and
-- of the same time: the content of every row is the same in the end.
pub deliver-swap :
    (event user : Uuid) (ms ns : List (Time × EventAccessDto)) (m n : Time × EventAccessDto)
    (s : Projections)
    → (is_about event user m.1 ≡ true
        → is_about event user n.1 ≡ true
        → m.1.occurred_at ≢ n.1.occurred_at)
    → content (access event user (deliver (ms ++ m ∷ n ∷ ns) s))
      ≡ content (access event user (deliver (ms ++ n ∷ m ∷ ns) s))
deliver-swap event user ms ns m n s h =
    content-deliver event user (ms ++ m ∷ n ∷ ns) s
    ∙ steps-swap event user ms ns m n (content (access event user s)) h
    ∙ sym (content-deliver event user (ms ++ n ∷ m ∷ ns) s)
