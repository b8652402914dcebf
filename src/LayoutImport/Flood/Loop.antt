-- ===== src/LayoutImport/Flood/Loop.antt =====
-- The loop keeps the meaning of the marks, and when the queue is empty every open pixel near a marked
-- one has its mark.
use omnixys_seat_service.Base.{
  ℕ, zero, suc, ◌+◌, ◌≤◌, ◌≡◌, refl, sym, ◌∙◌, ◌≢◌, ◌⊎◌, inl, inr, Bool, true, Option, none, some,
  List, [], ◌∷◌, ◌++◌, ◌==◌, ◌&&◌, ==_iff, arith, Bool-cases, subst, length, All, and-eq-true,
}
use omnixys_seat_service.LayoutImport.Flood.Defs.{visit, visit_all, flood, Has, Leads, here, step}
use omnixys_seat_service.LayoutImport.Flood.Fuel.{unmarked, IsBelow, flood-enough}
use omnixys_seat_service.LayoutImport.Flood.Marks.{IsLabelling, connected_trans, extend}

Has-snoc_last : (xs : List ℕ) (x : ℕ) → Has x (xs ++ x ∷ [])
Has-snoc_last [] x = inl refl
Has-snoc_last (y ∷ xs) x = inr (Has-snoc_last xs x)

Has-snoc_init : (xs : List ℕ) (x i : ℕ) → Has i xs → Has i (xs ++ x ∷ [])
Has-snoc_init [] x i h = absurd h
Has-snoc_init (y ∷ xs) x i (inl e) = inl e
Has-snoc_init (y ∷ xs) x i (inr h) = inr (Has-snoc_init xs x i h)

Has-snoc_cases : (xs : List ℕ) (x i : ℕ) → Has i (xs ++ x ∷ []) → (i ≡ x) ⊎ Has i xs
Has-snoc_cases [] x i h = h
Has-snoc_cases (y ∷ xs) x i (inl e) = inr (inl e)
Has-snoc_cases (y ∷ xs) x i (inr h) = elim (Has-snoc_cases xs x i h) [
  | inl e ↦ inl e
  | inr a ↦ inr (inr a)
]

module _ (is_open : ℕ → Bool) (k : ℕ) (h : k ≢ 0) where
  -- A mark stays.
  visit-mark_stays :
      (labels : ℕ → ℕ) (queue : List ℕ) (o : Option ℕ) (i : ℕ)
      → labels i ≢ 0
      → (visit is_open k labels queue o).0 i ≢ 0
  unfolding visit
  visit-mark_stays labels queue none i m = m
  visit-mark_stays labels queue (some n) i m = ground arith

  visit-marks :
      (labels : ℕ → ℕ) (queue : List ℕ) (i : ℕ)
      → is_open i ≡ true
      → (visit is_open k labels queue (some i)).0 i ≢ 0
  unfolding visit
  visit-marks labels queue i o = ground arith

  visit_all-mark_stays :
      (labels : ℕ → ℕ) (queue : List ℕ) (os : List (Option ℕ)) (i : ℕ)
      → labels i ≢ 0
      → (visit_all is_open k labels queue os).0 i ≢ 0
  unfolding visit_all
  visit_all-mark_stays labels queue [] i m = m
  visit_all-mark_stays labels queue (o ∷ os) i m =
      let r = visit is_open k labels queue o in
      visit_all-mark_stays r.0 r.1 os i (visit-mark_stays labels queue o i m)

  -- All open neighbours are marked.
  visit_all-marks :
      (labels : ℕ → ℕ) (queue : List ℕ) (os : List (Option ℕ)) (i : ℕ)
      → is_open i ≡ true
      → Leads i os
      → (visit_all is_open k labels queue os).0 i ≢ 0
  unfolding visit_all
  visit_all-marks labels queue [] i o l = absurd l
  visit_all-marks labels queue (n ∷ os) i o (inl e) =
      let r = visit is_open k labels queue n in
      visit_all-mark_stays r.0 r.1 os i (
        subst (λ x. (visit is_open k labels queue x).0 i ≢ 0) (sym e)
          (visit-marks labels queue i o))
  visit_all-marks labels queue (n ∷ os) i o (inr l) =
      let r = visit is_open k labels queue n in visit_all-marks r.0 r.1 os i o l

module _ (is_open : ℕ → Bool) (Near : ℕ → ℕ → Type 0) (near_sym : (p q : ℕ) → Near p q → Near q p)
    (k : ℕ) (h : k ≢ 0) where
  visit_keeps :
      (labels : ℕ → ℕ) (queue : List ℕ) (current : ℕ) (o : Option ℕ)
      → ((i : ℕ) → o ≡ some i → Near current i)
      → IsLabelling is_open Near labels (current ∷ queue) k
      → (let r = visit is_open k labels queue o in IsLabelling is_open Near r.0 (current ∷ r.1) k)
  unfolding visit
  visit_keeps labels queue current none near l = l
  visit_keeps labels queue current (some n) near l =
      elim (Bool-cases (labels n == 0 && is_open n)) [
        | inl e ↦
            let (z, o) = and-eq-true (labels n == 0) (is_open n) e in
            let c = l.marked current (inl refl) in
            let oc = l.opened current (λ x. h (sym c ∙ x)) in
            let close = near n refl in
            rw e (
              extend is_open Near near_sym labels (current ∷ queue) (current ∷ (queue ++ n ∷ [])) k
                k n l o ((==_iff _ 0).0 z) l.marked (inr (Has-snoc_last queue n))
                (λ q w. elim w [ inl x ↦ inl x | inr x ↦ inr (Has-snoc_init queue n q x) ])
                (λ q w. (
                  connected_trans is_open Near (step here oc (near_sym current n close))
                      (l.connected current q (λ x. h (sym c ∙ x)) (c ∙ sym w)),
                  step (l.connected q current (λ x. h (sym w ∙ x)) (w ∙ sym c)) o close,
                ))
                (omega arith)
                (λ q w. elim w [
                  | inl x ↦ inr (inl x)
                  | inr x ↦ elim (Has-snoc_cases queue n q x) [
                    | inl y ↦ inl y
                    | inr y ↦ inr (inr y)
                  ]
                ]))
        | inr e ↦ rw e l
      ]

  visit_all_keeps :
      (labels : ℕ → ℕ) (queue : List ℕ) (current : ℕ) (os : List (Option ℕ))
      → ((i : ℕ) → Leads i os → Near current i)
      → IsLabelling is_open Near labels (current ∷ queue) k
      → (let r = visit_all is_open k labels queue os in
          IsLabelling is_open Near r.0 (current ∷ r.1) k)
  unfolding visit_all
  visit_all_keeps labels queue current [] near l = l
  visit_all_keeps labels queue current (o ∷ os) near l =
      let r = visit is_open k labels queue o in
      visit_all_keeps r.0 r.1 current os (λ i w. near i (inr w))
        (visit_keeps labels queue current o (λ i w. near i (inl w)) l)

  -- A pixel whose open neighbours are marked needs no more work.
  retire :
      (labels : ℕ → ℕ) (queue : List ℕ) (current : ℕ)
      → ((r : ℕ) → is_open r ≡ true → Near current r → labels r ≢ 0)
      → IsLabelling is_open Near labels (current ∷ queue) k
      → IsLabelling is_open Near labels queue k
  retire labels queue current all l = record {
    opened = l.opened;
    spread = λ q r m o near. elim (l.spread q r m o near) [
      | inl e ↦ inl e
      | inr (inl e, z) ↦ absurd (all r o (subst (λ x. Near x r) e near) z)
      | inr (inr a, z) ↦ inr (a, z)
    ];
    marked = λ q a. l.marked q (inr a);
    connected = l.connected;
    bounded = l.bounded;
  }

  module _ {S : Type 0} (neighbours : ℕ → List (Option ℕ)) (body : S → ℕ → S)
      (sound : (p q : ℕ) → Leads q (neighbours p) → Near p q)
      (complete : (p q : ℕ)
        → is_open p ≡ true
        → is_open q ≡ true
        → Near p q
        → Leads q (neighbours p)) where
    flood_keeps :
        (rounds : ℕ) (labels : ℕ → ℕ) (queue : List ℕ) (s : S)
        → IsLabelling is_open Near labels queue k
        → (let r = flood is_open neighbours k body rounds labels queue s in
            IsLabelling is_open Near r.0 r.1 k)
    unfolding flood
    flood_keeps zero labels queue s l = l
    flood_keeps (suc rounds) labels [] s l = l
    flood_keeps (suc rounds) labels (x ∷ queue) s l =
        let r = visit_all is_open k labels queue (neighbours x) in
        let ox = l.opened x (λ z. h (sym (l.marked x (inl refl)) ∙ z)) in
        flood_keeps rounds r.0 r.1 (body s x) (
          retire r.0 r.1 x
            (λ i o near.
              visit_all-marks is_open k h labels queue (neighbours x) i o (complete x i ox o near))
            (visit_all_keeps labels queue x (neighbours x) (sound x) l))

    -- With as many rounds as there are pixels to work on, nothing is left to work on.
    pub flood_done :
        (n rounds : ℕ) (labels : ℕ → ℕ) (queue : List ℕ) (s : S)
        → ((i : ℕ) → All (IsBelow n) (neighbours i))
        → unmarked labels n + length queue ≤ rounds
        → IsLabelling is_open Near labels queue k
        → IsLabelling is_open Near (flood is_open neighbours k body rounds labels queue s).0 [] k
    flood_done n rounds labels queue s below enough l =
        subst
          (λ q.
            IsLabelling is_open Near (flood is_open neighbours k body rounds labels queue s).0 q k)
          (flood-enough is_open neighbours k n body h below rounds labels queue s enough)
          (flood_keeps rounds labels queue s l)

module _ {S : Type 0} (is_open : ℕ → Bool) (neighbours : ℕ → List (Option ℕ)) (k : ℕ) (h : k ≢ 0)
    (body : S → ℕ → S) where
  -- A mark that was there stays.
  pub flood-mark_stays :
      (rounds : ℕ) (labels : ℕ → ℕ) (queue : List ℕ) (s : S) (i : ℕ)
      → labels i ≢ 0
      → (flood is_open neighbours k body rounds labels queue s).0 i ≢ 0
  unfolding flood
  flood-mark_stays zero labels queue s i m = m
  flood-mark_stays (suc rounds) labels [] s i m = m
  flood-mark_stays (suc rounds) labels (x ∷ queue) s i m =
      let r = visit_all is_open k labels queue (neighbours x) in
      flood-mark_stays rounds r.0 r.1 (body s x) i
        (visit_all-mark_stays is_open k h labels queue (neighbours x) i m)
