-- ===== src/Store/Unique.antt =====
-- The unique keys of the seats under an update of some rows.
use omnixys_seat_service.Base.{
  Bool, true, false, not, ◌||◌, ◌≡◌, ◌≢◌, refl, List, [], ◌∷◌, some, arith, ◌==◌, if◌then◌else◌,
  every, any, select, find, All, update_if, Bool-cases, inl, inr, and-eq-true, and_intro, sym, ◌∙◌,
  some_inj, ==_iff, not-eq-true, not_intro,
}
use omnixys_seat_service.Store.Rows.{Uuid, Seat}
use omnixys_seat_service.Store.Tables.{seats_clash, seats_ok, keys_ok}

pub All-weaken {ℓ κ μ} :
    {A : Type ℓ} (P : A → Type κ) (Q : A → Type μ) (xs : List A)
    → ((x : A) → P x → Q x)
    → All P xs
    → All Q xs
All-weaken P Q [] h a = tt
All-weaken P Q (x ∷ xs) h a = (h x a.0, All-weaken P Q xs h a.1)

pub All-update_if {ℓ κ μ} :
    {A : Type ℓ} (P : A → Type κ) (Q : A → Type μ) (p : A → Bool) (f : A → A) (xs : List A)
    → ((x : A) → P x → Q (if p x then f x else x))
    → All P xs
    → All Q (update_if p f xs)
All-update_if P Q p f [] h a = tt
All-update_if P Q p f (x ∷ xs) h a = (h x a.0, All-update_if P Q p f xs h a.1)

-- Every element that passes is among those selected, by its id.
pub select-covers :
    (q : Seat → Bool) (xs : List Seat)
    → All (λ x. q x ≡ true → any (λ r. r.id == x.id) (select q xs) ≡ true) xs
select-covers q [] = tt
select-covers q (x ∷ xs) = (
  ground arith,
  All-weaken (λ y. q y ≡ true → any (λ r. r.id == y.id) (select q xs) ≡ true)
      (λ y. q y ≡ true → any (λ r. r.id == y.id) (select q (x ∷ xs)) ≡ true) xs
      (λ y h p. wider y (h p)) (select-covers q xs),
)
  where
    wider :
        (y : Seat)
        → any (λ r. r.id == y.id) (select q xs) ≡ true
        → any (λ r. r.id == y.id) (select q (x ∷ xs)) ≡ true
    wider y h = ground arith

module _ {A : Type 0} (clash : A → A → Bool) (p : A → Bool) (f : A → A) (W : A → Type 0)
    (keeps : (s t : A)
      → W s
      → W t
      → clash s t ≡ false
      → clash (if p s then f s else s) (if p t then f t else t) ≡ false) where
  every-update_if :
      (s : A) (ts : List A)
      → W s
      → All W ts
      → every (λ t. not (clash s t)) ts ≡ true
      → every (λ t. not (clash (if p s then f s else s) t)) (update_if p f ts) ≡ true
  every-update_if s [] ws wt h = refl
  every-update_if s (t ∷ ts) ws wt h =
      let (first, rest) = and-eq-true (not (clash s t)) _ h in
      and_intro _ _ (not_intro _ (keeps s t ws wt.0 (not-eq-true _ first)))
        (every-update_if s ts ws wt.1 rest)

  -- An update that makes no two rows clash keeps the unique keys.
  pub keys_ok-update_if :
      (xs : List A) → All W xs → keys_ok clash xs ≡ true → keys_ok clash (update_if p f xs) ≡ true
  unfolding keys_ok
  keys_ok-update_if [] w h = refl
  keys_ok-update_if (x ∷ xs) w h =
      let (first, rest) = and-eq-true (every (λ t. not (clash x t)) xs) _ h in
      and_intro _ _ (every-update_if x xs w.0 w.1 first) (keys_ok-update_if xs w.1 rest)

pub any-update_if {ℓ} :
    {A : Type ℓ} (q p : A → Bool) (f : A → A) (xs : List A)
    → ((x : A) → q x ≡ true → q (if p x then f x else x) ≡ true)
    → any q xs ≡ true
    → any q (update_if p f xs) ≡ true
any-update_if q p f [] h a = a
any-update_if q p f (x ∷ xs) h a = elim (Bool-cases (q x)) [
  | inl e ↦ rw (h x e)
  | inr e ↦ later (q (if p x then f x else x)) (any-update_if q p f xs h (rw e at a))
]
  where
    later : (b : Bool) → any q (update_if p f xs) ≡ true → b || any q (update_if p f xs) ≡ true
    later true e = refl
    later false e = e

-- The rows that a query selects are there, by their ids.
pub select-present :
    (q : Seat → Bool) (xs : List Seat) → All (λ r. any (λ x. x.id == r.id) xs ≡ true) (select q xs)
select-present q [] = tt
select-present q (x ∷ xs) = elim (Bool-cases (q x)) [
  | inl e ↦ rw e (self, more (select-present q xs))
  | inr e ↦ rw e (more (select-present q xs))
]
  where
    self : (x.id == x.id) || any (λ (y : Seat). y.id == x.id) xs ≡ true
    self = ground arith

    more :
        All (λ r. any (λ y. y.id == r.id) xs ≡ true) (select q xs)
        → All (λ r. any (λ y. y.id == r.id) (x ∷ xs) ≡ true) (select q xs)
    more = All-weaken _ _ (select q xs) (λ r h. ground arith)

pub select-passes {ℓ} :
    {A : Type ℓ} (q : A → Bool) (xs : List A) → All (λ r. q r ≡ true) (select q xs)
select-passes q [] = tt
select-passes q (x ∷ xs) = elim (Bool-cases (q x)) [
  | inl e ↦ rw e (e, select-passes q xs)
  | inr e ↦ rw e (select-passes q xs)
]

-- What a search finds passes its test, and is among the rows.
pub find-passes {ℓ} :
    {A : Type ℓ} (p : A → Bool) (xs : List A) {a : A} → find p xs ≡ some a → p a ≡ true
find-passes p [] h = cc
find-passes p (x ∷ xs) {a} h = ground (arith, find-passes p xs {a = a})

pub find-any {ℓ} :
    {A : Type ℓ} (p q : A → Bool) (xs : List A) {a : A}
    → find p xs ≡ some a
    → q a ≡ true
    → any q xs ≡ true
find-any p q [] h c = cc
find-any p q (x ∷ xs) {a} h c = ground (arith, find-any p q xs {a = a})

every-apart :
    (k : Uuid) (x : Seat) (xs : List Seat)
    → x.id ≡ k
    → every (λ t. not (seats_clash x t)) xs ≡ true
    → All (λ y. y.id ≢ k) xs
every-apart k x [] e h = tt
every-apart k x (y ∷ ys) e h =
    let (first, rest) = and-eq-true (not (seats_clash x y)) _ h in
    (apart (not-eq-true _ first), every-apart k x ys e rest)
  where
    apart : seats_clash x y ≡ false → y.id ≢ k
    apart n q = ground (arith, (==_iff x.id y.id).1 (e ∙ sym q))

-- With the ids unique, a search by id finds the only row.
pub find-only :
    (k : Uuid) (xs : List Seat) {a : Seat}
    → seats_ok xs ≡ true
    → find (λ r. r.id == k) xs ≡ some a
    → All (λ x. x.id ≡ k → x ≡ a) xs
unfolding keys_ok
find-only k [] h f = tt
find-only k (x ∷ xs) {a} h f =
    let (first, rest) = and-eq-true (every (λ t. not (seats_clash x t)) xs) _ h in
    elim (Bool-cases (x.id == k)) [
      | inl e ↦ (
        (λ _. some_inj (rw e at f)),
        All-weaken _ _ xs (λ y n q. absurd (n q)) (every-apart k x xs ((==_iff x.id k).0 e) first),
      )
      | inr e ↦ ((λ q. absurd (differ e q)), find-only k xs rest (rw e at f))
    ]
  where
    differ : (x.id == k) ≡ false → x.id ≢ k
    differ e q = ground (arith, (==_iff x.id k).1 q)

-- What holds of all rows, and what a selected row has passed, give a fact of each selected row.
pub All-select {ℓ κ μ} :
    {A : Type ℓ} (P : A → Type κ) (Q : A → Type μ) (q : A → Bool) (xs : List A)
    → ((x : A) → P x → q x ≡ true → Q x)
    → All P xs
    → All Q (select q xs)
All-select P Q q [] h a = tt
All-select P Q q (x ∷ xs) h a = elim (Bool-cases (q x)) [
  | inl e ↦ rw e (h x a.0 e, All-select P Q q xs h a.1)
  | inr e ↦ rw e (All-select P Q q xs h a.1)
]
