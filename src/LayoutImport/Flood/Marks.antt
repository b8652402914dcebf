-- ===== src/LayoutImport/Flood/Marks.antt =====
-- What the marks mean while the loop runs: pixels with one mark are connected, and an open pixel near
-- a marked one has its mark, or is not marked yet and the marked one is still to be worked on.
use omnixys_seat_service.Base.{
  ℕ, ◌≤◌, ◌≡◌, sym, ◌∙◌, ◌≢◌, ◌⊎◌, inl, inr, Bool, true, List, ◌==◌, ==_iff, arith, Bool-cases,
  subst,
}
use omnixys_seat_service.LayoutImport.Flood.Defs.{mark, Has, Connected, here, step}

module _ (is_open : ℕ → Bool) (Near : ℕ → ℕ → Type 0) where
  pub record IsLabelling (labels : ℕ → ℕ) (active : List ℕ) (k : ℕ) : Type 0 where
    pub opened : (q : ℕ) → labels q ≢ 0 → is_open q ≡ true
    pub spread :
        (q r : ℕ)
        → labels q ≢ 0
        → is_open r ≡ true
        → Near q r
        → (labels r ≡ labels q) ⊎ (Has q active × (labels r ≡ 0))
    pub marked : (q : ℕ) → Has q active → labels q ≡ k
    pub connected : (p q : ℕ) → labels p ≢ 0 → labels p ≡ labels q → Connected is_open Near p q
    pub bounded : (q : ℕ) → labels q ≤ k

  pub connected_trans :
      {p q r : ℕ}
      → Connected is_open Near p q
      → Connected is_open Near q r
      → Connected is_open Near p r
  connected_trans a here = a
  connected_trans a (step b o n) = step (connected_trans a b) o n

-- The label of a pixel that may just have been marked.
mark-cases :
    (labels : ℕ → ℕ) (i k q : ℕ)
    → ((q ≡ i) × (mark labels i k q ≡ k)) ⊎ ((q ≢ i) × (mark labels i k q ≡ labels q))
mark-cases labels i k q = ground (arith, ==_iff q i)

module _ (is_open : ℕ → Bool) (Near : ℕ → ℕ → Type 0)
    (near_sym : (p q : ℕ) → Near p q → Near q p) where
  module _ (labels : ℕ → ℕ) (active active' : List ℕ) (j k next : ℕ)
      (l : IsLabelling is_open Near labels active j) (open_next : is_open next ≡ true)
      (z : labels next ≡ 0) (m : (q : ℕ) → Has q active → labels q ≡ k) (new : Has next active')
      (keep : (q : ℕ) → Has q active → Has q active') where
    -- A pixel near the new one.
    spread_new : (r : ℕ) → is_open r ≡ true → Near next r → (labels r ≡ k) ⊎ (labels r ≡ 0)
    spread_new r op near = elim (Bool-cases (labels r == 0)) [
      | inl e ↦ inr ((==_iff _ 0).0 e)
      | inr e ↦ elim (l.spread r next (ground arith) open_next (near_sym next r near)) [
        | inl w ↦ absurd (ground arith)
        | inr (a, w) ↦ inl (m r a)
      ]
    ]

    -- A pixel that the new one is near to.
    spread_old : (q : ℕ) → labels q ≢ 0 → Near q next → labels q ≡ k
    spread_old q h near = elim (l.spread q next h open_next near) [
      | inl w ↦ absurd (h (sym w ∙ z))
      | inr (a, w) ↦ m q a
    ]

    spread_all :
        (q r : ℕ)
        → mark labels next k q ≢ 0
        → is_open r ≡ true
        → Near q r
        → (mark labels next k r ≡ mark labels next k q)
          ⊎ (Has q active' × (mark labels next k r ≡ 0))
    spread_all q r h op near = elim (mark-cases labels next k q) [
      | inl (qn, ql) ↦ elim (mark-cases labels next k r) [
        | inl (rn, rl) ↦ inl (rl ∙ sym ql)
        | inr (rn, rl) ↦ elim (spread_new r op (subst (λ x. Near x r) qn near)) [
          | inl w ↦ inl (rl ∙ w ∙ sym ql)
          | inr w ↦ inr (rw qn new, rl ∙ w)
        ]
      ]
      | inr (qn, ql) ↦
          let h' : labels q ≢ 0 = λ x. h (ql ∙ x) in
          elim (mark-cases labels next k r) [
            | inl (rn, rl) ↦
                inl (rl ∙ sym (spread_old q h' (subst (λ x. Near q x) rn near)) ∙ sym ql)
            | inr (rn, rl) ↦ elim (l.spread q r h' op near) [
              | inl w ↦ inl (rl ∙ w ∙ sym ql)
              | inr (a, w) ↦ inr (keep q a, rl ∙ w)
            ]
          ]
    ]

    module _
        (c : (q : ℕ)
          → labels q ≡ k
          → Connected is_open Near next q × Connected is_open Near q next) where
      connected_all :
          (p q : ℕ)
          → mark labels next k p ≢ 0
          → mark labels next k p ≡ mark labels next k q
          → Connected is_open Near p q
      connected_all p q h e = elim (mark-cases labels next k p) [
        | inl (pn, pl) ↦ elim (mark-cases labels next k q) [
          | inl (qn, ql) ↦ subst (λ x. Connected is_open Near p x) (pn ∙ sym qn) here
          | inr (qn, ql) ↦
              subst (λ x. Connected is_open Near x q) (sym pn) (c q (sym ql ∙ sym e ∙ pl)).0
        ]
        | inr (pn, pl) ↦ elim (mark-cases labels next k q) [
          | inl (qn, ql) ↦
              subst (λ x. Connected is_open Near p x) (sym qn) (c p (sym pl ∙ e ∙ ql)).1
          | inr (qn, ql) ↦ l.connected p q (λ x. h (pl ∙ x)) (sym pl ∙ e ∙ ql)
        ]
      ]

      -- One more pixel is marked.
      pub extend :
          j ≤ k
          → ((q : ℕ) → Has q active' → (q ≡ next) ⊎ Has q active)
          → IsLabelling is_open Near (mark labels next k) active' k
      extend le only = record {
        opened = λ q h. elim (mark-cases labels next k q) [
          | inl e ↦ rw e.0 open_next
          | inr e ↦ l.opened q (λ x. h (e.1 ∙ x))
        ];
        spread = spread_all;
        marked = λ q h. elim (mark-cases labels next k q) [
          | inl e ↦ e.1
          | inr e ↦ elim (only q h) [ inl w ↦ absurd (e.0 w) | inr a ↦ e.1 ∙ m q a ]
        ];
        connected = connected_all;
        bounded = λ q. ground (arith, mark-cases labels next k q, l.bounded q);
      }
