-- ===== src/Layout/Copies/Growth.antt =====
-- Actions after which the rows that were there are there still.
use omnixys_seat_service.Base.{
  Bool, true, ◌&&◌, ◌≡◌, refl, sym, subst, ◌⊎◌, inl, inr, Option, some, List, [], ◌∷◌, ◌++◌, All,
  Bool-cases, is_some, select,
}
use omnixys_seat_service.Store.Rows.{
  Uuid, Seat, Section, Table, Db, SaveLayoutVersionInput, LayoutChangeType, ChangePayload,
  LayoutVersion,
}
use omnixys_seat_service.Store.Exec.{Error, Env, Exec, Result, gets, or_raise, ◌>>=◌}
use omnixys_seat_service.Store.Post.{Post, Post-continue, Post-weaken, Post-transaction}
use omnixys_seat_service.Store.Tables.{
  new_id, keys_ok, seats_ok, tables_ok, sections_ok, has_table, find_section, create_seat_row,
  create_section_row, create_table_row,
}
use omnixys_seat_service.Store.Sets.{
  create_each, create_many_seats, create_version_row, versions_clash,
}
use omnixys_seat_service.Audit.{log_change}
use omnixys_seat_service.Layout.Versions.{save_layout_version}

module _ {A : Type 0} where
  abbrev pub Among : A → List A → Type 0
  Among a [] = ⊥
  Among a (x ∷ xs) = (a ≡ x) ⊎ Among a xs

  Among-append : (a : A) (xs ys : List A) → Among a xs → Among a (xs ++ ys)
  Among-append a [] ys h = absurd h
  Among-append a (x ∷ xs) ys (inl e) = inl e
  Among-append a (x ∷ xs) ys (inr h) = inr (Among-append a xs ys h)

  pub Among-All : (P : A → Type 0) (a : A) (xs : List A) → All P xs → Among a xs → P a
  Among-All P a [] h m = absurd m
  Among-All P a (x ∷ xs) h (inl e) = subst P (sym e) h.0
  Among-All P a (x ∷ xs) h (inr m) = Among-All P a xs h.1 m

  pub Among-select :
      (p : A → Bool) (a : A) (xs : List A) → Among a xs → p a ≡ true → Among a (select p xs)
  Among-select p a [] m h = absurd m
  Among-select p a (x ∷ xs) m h = elim (Bool-cases (p x)) [
    | inl e ↦ rw e (elim m [ inl q ↦ inl q | inr k ↦ inr (Among-select p a xs k h) ])
    | inr e ↦ rw e (elim m [ inl q ↦ cc (rw (← q) at e) | inr k ↦ Among-select p a xs k h ])
  ]

  Among-last : (a : A) (xs : List A) → Among a (xs ++ a ∷ [])
  Among-last a [] = inl refl
  Among-last a (x ∷ xs) = inr (Among-last a xs)

-- Seats and tables that were there are there still, and the unique keys of the seats hold if they did.
pub record Grows (s s' : Db) : Type 0 where
  pub seats : (x : Seat) → Among x s.seats → Among x s'.seats
  pub tables : (x : Table) → Among x s.tables → Among x s'.tables
  pub valid : seats_ok s.seats ≡ true → seats_ok s'.seats ≡ true

pub Grows-refl : (s : Db) → Grows s s
Grows-refl s = record { seats = λ x h. h; tables = λ x h. h; valid = λ h. h }

pub Grows-trans : (s t u : Db) → Grows s t → Grows t u → Grows s u
Grows-trans s t u g h = record {
  seats = λ x m. h.seats x (g.seats x m);
  tables = λ x m. h.tables x (g.tables x m);
  valid = λ v. h.valid (g.valid v);
}

-- The action throws, or it returns and the rows grow and meet the condition.
abbrev pub Leaves : {A : Type 0} → (A → Db → Type 0) → Db → Result A × Db → Type 0
Leaves Q s r = Post (λ a s'. Grows s s' × Q a s') (λ _. Unit {0}) r

module _ {A B : Type 0} where
  pub Leaves-bind :
      (Q : A → Db → Type 0) (R : B → Db → Type 0) (m : Exec A) (f : A → Exec B) (s : Db)
      → Leaves Q s (m s)
      → ((a : A) (s' : Db) → Grows s s' → Q a s' → Leaves R s' (f a s'))
      → Leaves R s ((m >>= f) s)
  unfolding ◌>>=◌
  Leaves-bind Q R m f s h next =
      Post-continue (λ a s'. Grows s s' × Q a s') (λ b t. Grows s t × R b t) (λ _. Unit) (m s) f h
        (λ a s' k.
          Post-weaken _ _ _ (f a s') (next a s' k.0 k.1)
            (λ b t l. (Grows-trans s s' t k.0 l.0, l.1)))

module _ {A B : Type 0} (R : B → Db → Type 0) (f : A → Exec B) (s : Db) where
  pub Leaves-gets : (g : Db → A) → Leaves R s (f (g s) s) → Leaves R s ((gets g >>= f) s)
  unfolding ◌>>=◌
  Leaves-gets g h = h

  pub Leaves-or_raise :
      (o : Option A) (x : Error) (a : A)
      → o ≡ some a
      → Leaves R s (f a s)
      → Leaves R s ((or_raise o x >>= f) s)
  unfolding ◌>>=◌ or_raise
  Leaves-or_raise o x a e h = rw e h

pub new_id-Leaves : (e : Env) (s : Db) → Leaves (λ _ _. Unit {0}) s (new_id e s)
unfolding new_id
new_id-Leaves e s = (record { seats = λ x h. h; tables = λ x h. h; valid = λ h. h }, tt)

pub log_change-Leaves :
    (e : Env) (event actor : Uuid) (change : LayoutChangeType) (payload : ChangePayload) (s : Db)
    → Leaves (λ _ _. Unit {0}) s (log_change e event actor change payload s)
unfolding log_change
log_change-Leaves e event actor change payload s =
    (record { seats = λ x h. h; tables = λ x h. h; valid = λ h. h }, tt)

create_seat_row-Leaves :
    (r : Seat) (s : Db) → Leaves (λ _ s'. Among r s'.seats) s (create_seat_row r s)
unfolding create_seat_row
create_seat_row-Leaves r s =
    elim (Bool-cases (is_some (find_section r.section_id s) && has_table r.table_id s)) [
      | inr unknown ↦ rw unknown tt
      | inl known ↦ elim (Bool-cases (seats_ok (s.seats ++ r ∷ []))) [
        | inr clash ↦ rw (known, clash) tt
        | inl fine ↦
            rw (known, fine)
              (
                record {
                  seats = λ x h. Among-append x s.seats (r ∷ []) h;
                  tables = λ x h. h;
                  valid = λ h. fine;
                },
                Among-last r s.seats,
              )
      ]
    ]

pub create_table_row-Leaves :
    (r : Table) (s : Db) → Leaves (λ t s'. (t ≡ r) × Among r s'.tables) s (create_table_row r s)
unfolding create_table_row
create_table_row-Leaves r s = elim (Bool-cases (is_some (find_section r.section_id s))) [
  | inr unknown ↦ rw unknown tt
  | inl known ↦ elim (Bool-cases (tables_ok (s.tables ++ r ∷ []))) [
    | inr clash ↦ rw (known, clash) tt
    | inl fine ↦
        rw (known, fine)
          (
            record {
              seats = λ x h. h;
              tables = λ x h. Among-append x s.tables (r ∷ []) h;
              valid = λ h. h;
            },
            (refl, Among-last r s.tables),
          )
  ]
]

pub create_section_row-Leaves :
    (r : Section) (s : Db) → Leaves (λ t _. t ≡ r) s (create_section_row r s)
unfolding create_section_row
create_section_row-Leaves r s = elim (Bool-cases (sections_ok (s.sections ++ r ∷ []))) [
  | inr clash ↦ rw clash tt
  | inl fine ↦ rw fine (record { seats = λ x h. h; tables = λ x h. h; valid = λ h. h }, refl)
]

create_each-Leaves :
    (rows : List Seat) (s : Db)
    → Leaves (λ _ s'. (r : Seat) → Among r rows → Among r s'.seats) s (create_each rows s)
unfolding create_each
create_each-Leaves [] s = (Grows-refl s, λ r h. absurd h)
create_each-Leaves (r ∷ rest) s =
    Leaves-bind (λ _ s'. Among r s'.seats) _ (create_seat_row r) _ s (create_seat_row-Leaves r s)
      (λ a s' g h. Post-weaken _ _ _ (create_each rest s') (create_each-Leaves rest s') (λ _ t k. (
        k.0,
        λ x m. elim m [
          | inl q ↦ subst (λ y. Among y t.seats) (sym q) (k.0.seats r h)
          | inr l ↦ k.1 x l
        ],
      )))

pub create_many_seats-Leaves :
    (rows : List Seat) (s : Db)
    → Leaves (λ _ s'. (r : Seat) → Among r rows → Among r s'.seats) s (create_many_seats rows s)
unfolding create_many_seats
create_many_seats-Leaves rows s =
    Post-transaction _ _ (create_each rows) s (create_each-Leaves rows s)

create_version_row-Leaves :
    (v : LayoutVersion) (s : Db) → Leaves (λ _ _. Unit {0}) s (create_version_row v s)
unfolding create_version_row
create_version_row-Leaves v s =
    elim (Bool-cases (keys_ok versions_clash (s.layout_versions ++ v ∷ []))) [
      | inr clash ↦ rw clash tt
      | inl fine ↦ rw fine (record { seats = λ x h. h; tables = λ x h. h; valid = λ h. h }, tt)
    ]

pub save_layout_version-Leaves :
    (e : Env) (input : SaveLayoutVersionInput) (actor : Uuid) (s : Db)
    → Leaves (λ _ _. Unit {0}) s (save_layout_version e input actor s)
unfolding save_layout_version
save_layout_version-Leaves e input actor s =
    Leaves-bind (λ _ _. Unit) _ _ _ s (Grows-refl s, tt)
      λ snapshot s1 _ _.
        Leaves-bind (λ _ _. Unit) _ _ _ s1 (new_id-Leaves e s1)
          λ id s2 _ _.
            Leaves-bind (λ _ _. Unit) _ _ _ s2 (create_version_row-Leaves _ s2)
              λ created s3 _ _.
                Leaves-bind (λ _ _. Unit) _ _ _ s3 (log_change-Leaves e input.event_id actor _ _ s3)
                  λ _ s4 _ _. (Grows-refl s4, tt)
