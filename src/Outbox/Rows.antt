-- ===== src/Outbox/Rows.antt =====
-- What the publisher's updates do to the rows of the outbox (analytics/analytics-outbox.publisher.ts).
use omnixys_seat_service.Base.{
  ◌+◌, ◌≤◌, Bool, true, false, ◌&&◌, ◌||◌, ◌≡◌, refl, sym, ◌∙◌, String, List, [], ◌∷◌, Option, none,
  some, leb, ◌==◌, if◌then◌else◌, is_some, find, update_if, All, Bool-cases, inl, inr, arith,
  some_inj,
}
use omnixys_seat_service.Store.Rows.{Uuid, Time, AnalyticsOutbox}
use omnixys_seat_service.Outbox.Publish.{is_settled, can_lock, lock, outcome}

abbrev pub same_id : AnalyticsOutbox → AnalyticsOutbox → Bool
same_id r s = r.id == s.id

-- A row keeps its fact and its addressee, and once it is settled it does not change at all.
pub record IsKept (r r' : AnalyticsOutbox) : Type 0 where
  pub id : r'.id ≡ r.id
  pub topic : r'.topic ≡ r.topic
  pub payload : r'.payload ≡ r.payload
  pub tenant : r'.tenant_id ≡ r.tenant_id
  pub created : r'.created_at ≡ r.created_at
  pub settled : is_settled r ≡ true → r' ≡ r

-- At most ten attempts, a dead letter after the tenth only, and no dead letter that was published.
pub record IsSound (r : AnalyticsOutbox) : Type 0 where
  pub attempts : r.attempts ≤ 10
  pub dead : is_some r.dead_lettered_at ≡ leb 10 r.attempts
  pub once : is_some r.published_at && is_some r.dead_lettered_at ≡ false

abbrev pub AllKept : List AnalyticsOutbox → List AnalyticsOutbox → Type 0
AllKept [] [] = Unit
AllKept [] (y ∷ ys) = ⊥
AllKept (x ∷ xs) [] = ⊥
AllKept (x ∷ xs) (y ∷ ys) = IsKept x y × AllKept xs ys

IsKept-refl : (r : AnalyticsOutbox) → IsKept r r
IsKept-refl r = record {
  id = refl;
  topic = refl;
  payload = refl;
  tenant = refl;
  created = refl;
  settled = λ _. refl;
}

IsKept-trans : {r s t : AnalyticsOutbox} → IsKept r s → IsKept s t → IsKept r t
IsKept-trans {r} {s} {t} h k = record {
  id = k.id ∙ h.id;
  topic = k.topic ∙ h.topic;
  payload = k.payload ∙ h.payload;
  tenant = k.tenant ∙ h.tenant;
  created = k.created ∙ h.created;
  settled = λ e. let same = h.settled e in k.settled (rw same e) ∙ same;
}

pub AllKept-refl : (xs : List AnalyticsOutbox) → AllKept xs xs
AllKept-refl [] = tt
AllKept-refl (x ∷ xs) = (IsKept-refl x, AllKept-refl xs)

pub AllKept-trans :
    (xs ys zs : List AnalyticsOutbox) → AllKept xs ys → AllKept ys zs → AllKept xs zs
AllKept-trans [] [] [] h k = tt
AllKept-trans [] [] (z ∷ zs) h k = absurd k
AllKept-trans [] (y ∷ ys) zs h k = absurd h
AllKept-trans (x ∷ xs) [] zs h k = absurd h
AllKept-trans (x ∷ xs) (y ∷ ys) [] h k = absurd k
AllKept-trans (x ∷ xs) (y ∷ ys) (z ∷ zs) h k =
    (IsKept-trans h.0 k.0, AllKept-trans xs ys zs h.1 k.1)

pub AllKept-update_if :
    (p : AnalyticsOutbox → Bool) (f : AnalyticsOutbox → AnalyticsOutbox) (xs : List AnalyticsOutbox)
    → All (λ x. p x ≡ true → IsKept x (f x)) xs
    → AllKept xs (update_if p f xs)
AllKept-update_if p f [] h = tt
AllKept-update_if p f (x ∷ xs) h = (first, AllKept-update_if p f xs h.1)
  where
    first : IsKept x (if p x then f x else x)
    first = elim (Bool-cases (p x)) [ inl e ↦ rw e (h.0 e) | inr e ↦ rw e (IsKept-refl x) ]

-- No row of the id is settled.
abbrev pub Open : Uuid → List AnalyticsOutbox → Type 0
Open k = All (λ r. (r.id == k) ≡ true → is_settled r ≡ false)

pub lock-IsKept :
    (now : Time) (k instance_id : Uuid) (r : AnalyticsOutbox)
    → can_lock now k r ≡ true
    → IsKept r (lock now instance_id r)
lock-IsKept now k instance_id r h = record {
  id = refl;
  topic = refl;
  payload = refl;
  tenant = refl;
  created = refl;
  settled = λ e. absurd (ground arith);
}

pub lock-IsSound :
    (now : Time) (instance_id : Uuid) (r : AnalyticsOutbox)
    → IsSound r
    → IsSound (lock now instance_id r)
lock-IsSound now instance_id r h = record { attempts = h.attempts; dead = h.dead; once = h.once }

pub outcome-IsKept :
    (now : Time) (found : AnalyticsOutbox) (error : Option String) (r : AnalyticsOutbox)
    → is_settled r ≡ false
    → IsKept r (outcome now found error r)
outcome-IsKept now found none r h = record {
  id = refl;
  topic = refl;
  payload = refl;
  tenant = refl;
  created = refl;
  settled = λ e. absurd (ground arith);
}
outcome-IsKept now found (some error) r h = record {
  id = refl;
  topic = refl;
  payload = refl;
  tenant = refl;
  created = refl;
  settled = λ e. absurd (ground arith);
}

neither : (a b : Option Time) → is_some a || is_some b ≡ false → (a ≡ none) × (b ≡ none)
neither none none h = (refl, refl)
neither none (some b) h = cc
neither (some a) b h = cc

-- A row that is not settled has had nine attempts at most.
unsettled-attempts : (r : AnalyticsOutbox) → IsSound r → is_settled r ≡ false → r.attempts + 1 ≤ 10
unsettled-attempts r h e = let a = h.attempts in let d = h.dead in ground arith

pub outcome-IsSound :
    (now : Time) (found : AnalyticsOutbox) (error : Option String) (r : AnalyticsOutbox)
    → IsSound found
    → is_settled found ≡ false
    → IsSound r
    → is_settled r ≡ false
    → IsSound (outcome now found error r)
outcome-IsSound now found none r hf ef h e = record {
  attempts = h.attempts;
  dead = h.dead;
  once = ground arith;
}
outcome-IsSound now found (some error) r hf ef h e = record {
  attempts = unsettled-attempts found hf ef;
  dead =
      rw (neither r.published_at r.dead_lettered_at e).1 (is_some-if (leb 10 (found.attempts + 1)));
  once = rw (neither r.published_at r.dead_lettered_at e).0 refl;
}
  where
    is_some-if : (b : Bool) → is_some (if b then some now else none) ≡ b
    is_some-if true = refl
    is_some-if false = refl

-- What a row is that a search by id finds.
pub find-All {κ} :
    (P : AnalyticsOutbox → Type κ) (p : AnalyticsOutbox → Bool) (xs : List AnalyticsOutbox)
    {a : AnalyticsOutbox}
    → All P xs
    → find p xs ≡ some a
    → P a × (p a ≡ true)
find-All P p [] h f = cc
find-All P p (x ∷ xs) {a} h f = elim (Bool-cases (p x)) [
  | inl e ↦ let same = some_inj (rw e at f) in rw (sym same) (h.0, e)
  | inr e ↦ find-All P p xs h.1 (rw e at f)
]
