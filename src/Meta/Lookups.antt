-- ===== src/Meta/Lookups.antt =====
-- What a merged object holds at each key.
use omnixys_seat_service.Base.{
  ◌≡◌, refl, sym, ap, subst, some_inj, String, Option, none, some, str_eq, eq_iff, arith,
  if◌then◌else◌, ◌∙◌, Bool-cases, inl, inr,
}
use omnixys_seat_service.Meta.{
  Json, Fields, end, field, null, bool, num, str, arr, obj, or_empty, get, set, merge_fields,
  merge_value, own_entries, deep_merge_meta, prepare_meta, default_meta,
}

pub get-set :
    (k j : String) (v : Json) (fs : Fields)
    → get j (set k v fs) ≡ (if str_eq k j then some v else get j fs)
unfolding get set
get-set k j v end = refl
get-set k j v (field i w fs) = ground (arith, get-set k j v fs, eq_iff k j, eq_iff i k, eq_iff i j)

-- The keys are distinct, as those of a JavaScript object are.
abbrev pub IsDistinct : Fields → Type 0
IsDistinct end = Unit
IsDistinct (field k v fs) = (get k fs ≡ none) × IsDistinct fs

-- What the key holds after the merge: what the override says, or what was there before.
abbrev pub resolve : Option Json → Option Json → Option Json
resolve old none = old
resolve old (some v) = some (merge_value old v)

pub get-merge_fields :
    (k : String) (result fs : Fields)
    → IsDistinct fs
    → get k (merge_fields result fs) ≡ resolve (get k result) (get k fs)
unfolding merge_fields get
get-merge_fields k result end h = refl
get-merge_fields k result (field j v fs) h =
    get-merge_fields k (set j (merge_value (get j result) v) result) fs h.1
    ∙ ground (arith, get-set j k (merge_value (get j result) v) result, eq_iff j k, h.0)

-- No object of an override has a key twice, at any depth; arrays are not looked into.
unfoldable mutual
  pub IsTidy : Json → Type 0
  IsTidy (obj fs) = AreTidy fs
  IsTidy v = Unit

  pub AreTidy : Fields → Type 0
  AreTidy end = Unit
  AreTidy (field k v fs) = (get k fs ≡ none) × IsTidy v × AreTidy fs

-- The properties that are there before an override: those of the old value, or none.
abbrev pub properties : Option Json → Fields
unfolding own_entries
properties none = end
properties (some v) = own_entries v

abbrev pub IsObject : Json → Type 0
IsObject (obj fs) = Unit
IsObject v = ⊥

-- The third value is the second, laid over the first: what is no object takes the old value's place; an
-- object changes the properties that it has, each laid over the old one, and keeps every other one.
pub data Overlaid : Option Json → Json → Json → Type 0 where
  replaced : {old : Option Json} {v : Json} → ¬ IsObject v → Overlaid old v v
  joined :
      {old : Option Json} {fs rs : Fields}
      → ((k : String) → get k fs ≡ none → get k rs ≡ get k (properties old))
      → ((k : String) (v w : Json)
          → get k fs ≡ some v
          → get k rs ≡ some w
          → Overlaid (get k (properties old)) v w)
      → ((k : String) (v : Json) → get k fs ≡ some v → (w : Json) × (get k rs ≡ some w))
      → Overlaid old (obj fs) (obj rs)

AreTidy-IsDistinct : (fs : Fields) → AreTidy fs → IsDistinct fs
unfolding AreTidy
AreTidy-IsDistinct end h = tt
AreTidy-IsDistinct (field k v fs) h = (h.0, AreTidy-IsDistinct fs h.2)

properties_lem : (old : Option Json) → own_entries (or_empty old) ≡ properties old
unfolding own_entries
properties_lem none = refl
properties_lem (some null) = refl
properties_lem (some (bool b)) = refl
properties_lem (some (num n)) = refl
properties_lem (some (str t)) = refl
properties_lem (some (arr xs)) = refl
properties_lem (some (obj fs)) = refl

module _ (old : Option Json) (fs : Fields) (distinct : IsDistinct fs) where
  get-merged :
      (k : String)
      → get k (merge_fields (own_entries (or_empty old)) fs)
        ≡ resolve (get k (properties old)) (get k fs)
  get-merged k =
      get-merge_fields k (own_entries (or_empty old)) fs distinct
      ∙ ap (λ b. resolve (get k b) (get k fs)) (properties_lem old)

  merged-Overlaid :
      ((k : String) (v : Json)
        → get k fs ≡ some v
        → (o : Option Json) → Overlaid o v (merge_value o v))
      → Overlaid old (obj fs) (obj (merge_fields (own_entries (or_empty old)) fs))
  merged-Overlaid each =
      joined (λ k e. get-merged k ∙ ap (resolve (get k (properties old))) e)
        (λ k v w e f.
          let o = get k (properties old) in
          subst (Overlaid o v) (some_inj (sym (get-merged k ∙ ap (resolve o) e) ∙ f))
            (each k v e o))
        (λ k v e. (
          merge_value (get k (properties old)) v,
          get-merged k ∙ ap (resolve (get k (properties old))) e,
        ))

mutual
  unfolding merge_value IsTidy AreTidy get

  merge_value-Overlaid :
      (v : Json) → IsTidy v → (old : Option Json) → Overlaid old v (merge_value old v)
  merge_value-Overlaid null h old = replaced (λ o. o)
  merge_value-Overlaid (bool b) h old = replaced (λ o. o)
  merge_value-Overlaid (num n) h old = replaced (λ o. o)
  merge_value-Overlaid (str t) h old = replaced (λ o. o)
  merge_value-Overlaid (arr xs) h old = replaced (λ o. o)
  merge_value-Overlaid (obj fs) h old =
      merged-Overlaid old fs (AreTidy-IsDistinct fs h) (λ k v e o. property-Overlaid fs h k v e o)

  property-Overlaid :
      (fs : Fields)
      → AreTidy fs
      → (k : String) (v : Json) → get k fs ≡ some v
      → (old : Option Json) → Overlaid old v (merge_value old v)
  property-Overlaid end h k v e old = cc
  property-Overlaid (field j u fs) h k v e old = elim (Bool-cases (str_eq j k)) [
    | inl same ↦
        subst (λ x. Overlaid old x (merge_value old x)) (some_inj (rw same at e))
          (merge_value-Overlaid u h.1 old)
    | inr other ↦ property-Overlaid fs h.2 k v (rw other at e) old
  ]

-- Metadata prepared from an object in which no object has a key twice is the defaults with that object
-- laid over them: what it says takes a default's place, except that an object in it changes, at any
-- depth, the properties that it has and keeps every other one.
pub prepare_meta-Overlaid :
    (fs : Fields) → AreTidy fs → Overlaid (some default_meta) (obj fs) (prepare_meta (obj fs))
unfolding prepare_meta deep_merge_meta merge_value own_entries IsTidy AreTidy
prepare_meta-Overlaid fs h = merge_value-Overlaid (obj fs) h (some default_meta)
