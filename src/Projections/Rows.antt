-- ===== src/Projections/Rows.antt =====
-- The rows of the projections, and the statements of the Prisma client on a list of rows: `upsert` on a
-- unique key and `deleteMany`. What they do to the row of the key, and to that of any other key.
use omnixys_seat_service.Base.{
  ℕ, Bool, true, false, not, ◌&&◌, ◌≡◌, refl, List, [], ◌∷◌, Option, none, some, ◌==◌,
  if◌then◌else◌, find, select, String, Bool-cases, inl, inr,
}
use omnixys_seat_service.Store.Rows.{Uuid, Time}
use omnixys_seat_service.Meta.{Json}

pub data EventRoleType : Type 0 where
  admin security guest support driver usher : EventRoleType

pub record EventRoleProjection : Type 0 where
  pub event_id : Uuid
  pub user_id : Uuid
  pub role : EventRoleType
  pub updated_at : Option Time

pub record EventAccessProjection : Type 0 where
  pub event_id : Uuid
  pub user_id : Uuid
  pub permissions : List String
  pub roles : Json
  pub occurred_at : Option Time
  pub updated_at : Option Time

pub record EventSettingsProjection : Type 0 where
  pub event_id : Uuid
  pub name : Option String
  pub ends_at : Option Time
  pub max_seats : Option ℕ
  pub allow_guest_seat_selection : Bool
  pub seat_color_groups : Option Json
  pub updated_at : Option Time

pub record Projections : Type 0 where
  pub roles : List EventRoleProjection
  pub accesses : List EventAccessProjection
  pub settings : List EventSettingsProjection

-- `uq_event_role_projection` and `uq_event_access_projection`
abbrev pub role_of : Uuid → Uuid → EventRoleProjection → Bool
role_of event user r = (r.event_id == event) && (r.user_id == user)

abbrev pub access_of : Uuid → Uuid → EventAccessProjection → Bool
access_of event user r = (r.event_id == event) && (r.user_id == user)

module _ {A : Type 0} where
  -- The row of a key is updated, or one is created.
  unfoldable pub upsert : (A → Bool) → A → (A → A) → List A → List A
  upsert p create update [] = create ∷ []
  upsert p create update (x ∷ xs) =
      let rest = upsert p create update xs in if p x then update x ∷ xs else x ∷ rest

  unfoldable pub delete_many : (A → Bool) → List A → List A
  delete_many p xs = select (λ x. not (p x)) xs

  abbrev pub upserted : A → (A → A) → Option A → A
  upserted create update none = create
  upserted create update (some x) = update x

  -- The row of the key after an upsert.
  pub find-upsert :
      (p : A → Bool) (create : A) (update : A → A) (xs : List A)
      → p create ≡ true
      → ((x : A) → p x ≡ true → p (update x) ≡ true)
      → find p (upsert p create update xs) ≡ some (upserted create update (find p xs))
  unfolding upsert
  find-upsert p create update [] h k = rw h refl
  find-upsert p create update (x ∷ xs) h k = elim (Bool-cases (p x)) [
    | inl e ↦ rw (e, k x e) refl
    | inr e ↦ rw (e, e) (find-upsert p create update xs h k)
  ]

  -- The row of another key after an upsert.
  pub find-upsert_other :
      (p q : A → Bool) (create : A) (update : A → A) (xs : List A)
      → q create ≡ false
      → ((x : A) → p x ≡ true → (q x ≡ false) × (q (update x) ≡ false))
      → find q (upsert p create update xs) ≡ find q xs
  unfolding upsert
  find-upsert_other p q create update [] h k = rw h refl
  find-upsert_other p q create update (x ∷ xs) h k = elim (Bool-cases (p x)) [
    | inl e ↦ rw (e, (k x e).0, (k x e).1) refl
    | inr e ↦ rw (e, find-upsert_other p q create update xs h k) refl
  ]

  -- What is deleted is not found.
  pub find-delete_many : (p : A → Bool) (xs : List A) → find p (delete_many p xs) ≡ none
  unfolding delete_many
  find-delete_many p [] = refl
  find-delete_many p (x ∷ xs) = elim (Bool-cases (p x)) [
    | inl e ↦ rw e (find-delete_many p xs)
    | inr e ↦ rw (e, e) (find-delete_many p xs)
  ]

  -- What the filter does not take is found as before.
  pub find-delete_many_other :
      (p q : A → Bool) (xs : List A)
      → ((x : A) → q x ≡ true → p x ≡ false)
      → find q (delete_many p xs) ≡ find q xs
  unfolding delete_many
  find-delete_many_other p q [] h = refl
  find-delete_many_other p q (x ∷ xs) h = elim (Bool-cases (q x)) [
    | inl e ↦ rw (e, h x e, e) refl
    | inr e ↦ elim (Bool-cases (p x)) [
      | inl d ↦ rw (e, d) (find-delete_many_other p q xs h)
      | inr d ↦ rw (e, d, e) (find-delete_many_other p q xs h)
    ]
  ]
