-- ===== src/Outbox/Later.antt =====
-- Claims and attempts lead from a sound outbox to a later one (analytics/analytics-outbox.publisher.ts).
use omnixys_seat_service.Base.{
  ◌+◌, Bool, true, false, not, ◌≡◌, refl, List, [], ◌∷◌, Option, none, some, ◌==◌, if◌then◌else◌,
  find, every, update_if, count_if, All, Bool-cases, inl, inr, and-eq-true, arith, String,
}
use omnixys_seat_service.Store.Rows.{Uuid, Time, AnalyticsOutbox}
use omnixys_seat_service.Store.Tables.{keys_ok}
use omnixys_seat_service.Store.Unique.{All-weaken, All-update_if, keys_ok-update_if}
use omnixys_seat_service.Outbox.Publish.{is_settled, can_lock, lock, outcome}
use omnixys_seat_service.Outbox.Rows.{
  same_id, IsSound, AllKept, AllKept-trans, AllKept-update_if, Open, lock-IsKept, lock-IsSound,
  outcome-IsKept, outcome-IsSound, find-All,
}

-- A later state of the outbox, from the rows at the start.
pub record IsLater (start rows : List AnalyticsOutbox) : Type 0 where
  pub kept : AllKept start rows
  pub sound : All IsSound rows
  pub ids : keys_ok same_id rows ≡ true

apart :
    (k : Uuid) (x : AnalyticsOutbox) (xs : List AnalyticsOutbox)
    → (x.id == k) ≡ true
    → every (λ y. not (same_id x y)) xs ≡ true
    → All (λ y. (y.id == k) ≡ false) xs
apart k x [] e h = tt
apart k x (y ∷ ys) e h =
    let (first, rest) = and-eq-true (not (same_id x y)) _ h in (ground arith, apart k x ys e rest)

none_locked :
    (now : Time) (k : Uuid) (xs : List AnalyticsOutbox)
    → All (λ y. (y.id == k) ≡ false) xs
    → count_if (can_lock now k) xs ≡ 0
none_locked now k [] h = refl
none_locked now k (x ∷ xs) h = rw (h.0, none_locked now k xs h.1) refl

others-Open :
    (now : Time) (k instance_id : Uuid) (xs : List AnalyticsOutbox)
    → All (λ y. (y.id == k) ≡ false) xs
    → Open k (update_if (can_lock now k) (lock now instance_id) xs)
others-Open now k instance_id xs h =
    All-update_if _ _ (can_lock now k) (lock now instance_id) xs (λ y e. rw e (λ c. cc)) h

foreign_lem :
    (now : Time) (k : Uuid) (x : AnalyticsOutbox) → (x.id == k) ≡ false → can_lock now k x ≡ false
foreign_lem now k x e = rw e refl

-- A claim that locked one row locked the row of the id, which is not settled.
pub locked-Open :
    (now : Time) (k instance_id : Uuid) (xs : List AnalyticsOutbox)
    → keys_ok same_id xs ≡ true
    → count_if (can_lock now k) xs ≡ 1
    → Open k (update_if (can_lock now k) (lock now instance_id) xs)
unfolding keys_ok
locked-Open now k instance_id [] h c = tt
locked-Open now k instance_id (x ∷ xs) h c =
    let (first, rest) = and-eq-true (every (λ y. not (same_id x y)) xs) _ h in
    elim (Bool-cases (x.id == k)) [
      | inl e ↦
          let far = apart k x xs e first in
          (own (none_locked now k xs far), others-Open now k instance_id xs far)
      | inr e ↦
          let d = foreign_lem now k x e in
          (rw (d, e) (λ q. cc), locked-Open now k instance_id xs rest (sum (rw d at c)))
    ]
  where
    sum : 0 + count_if (can_lock now k) xs ≡ 1 → count_if (can_lock now k) xs ≡ 1
    sum q = omega arith

    own :
        count_if (can_lock now k) xs ≡ 0
        → ((if can_lock now k x then lock now instance_id x else x).id == k) ≡ true
        → is_settled (if can_lock now k x then lock now instance_id x else x) ≡ false
    own zeros = elim (Bool-cases (can_lock now k x)) [
      | inl d ↦ rw d (λ _. ground arith)
      | inr d ↦ let impossible = rw (d, zeros) at c in cc
    ]

either {κ} : {A : Type 0} (P : A → Type κ) (b : Bool) {x y : A} → P x → P y → P (if b then x else y)
either P true h k = h
either P false h k = k

pub update-id :
    (p : AnalyticsOutbox → Bool) (f : AnalyticsOutbox → AnalyticsOutbox) (x : AnalyticsOutbox)
    → (f x).id ≡ x.id
    → (if p x then f x else x).id ≡ x.id
update-id p f x same = either (λ (y : AnalyticsOutbox). y.id ≡ x.id) (p x) same refl

ids-update_if :
    (p : AnalyticsOutbox → Bool) (f : AnalyticsOutbox → AnalyticsOutbox) (xs : List AnalyticsOutbox)
    → ((x : AnalyticsOutbox) → (f x).id ≡ x.id)
    → keys_ok same_id xs ≡ true
    → keys_ok same_id (update_if p f xs) ≡ true
ids-update_if p f xs same h = keys_ok-update_if same_id p f (λ _. Unit {0}) differ xs (all xs) h
  where
    all : (ys : List AnalyticsOutbox) → All (λ _. Unit {0}) ys
    all [] = tt
    all (y ∷ ys) = (tt, all ys)

    differ :
        (s t : AnalyticsOutbox)
        → Unit {0}
        → Unit {0}
        → same_id s t ≡ false
        → same_id (if p s then f s else s) (if p t then f t else t) ≡ false
    differ s t _ _ d = rw (update-id p f s (same s), update-id p f t (same t)) d

pub claim-IsLater :
    (now : Time) (k instance_id : Uuid) (start rows : List AnalyticsOutbox)
    → IsLater start rows
    → IsLater start (update_if (can_lock now k) (lock now instance_id) rows)
claim-IsLater now k instance_id start rows h = record {
  kept = AllKept-trans start rows _ h.kept (
      AllKept-update_if (can_lock now k) (lock now instance_id) rows
        (All-weaken _ _ rows (λ r _. lock-IsKept now k instance_id r) h.sound));
  sound =
      All-update_if IsSound IsSound (can_lock now k) (lock now instance_id) rows
        (λ x s. either IsSound (can_lock now k x) (lock-IsSound now instance_id x s) s) h.sound;
  ids = ids-update_if (can_lock now k) (lock now instance_id) rows (λ x. refl) h.ids;
}

outcome-id :
    (now : Time) (found : AnalyticsOutbox) (error : Option String) (r : AnalyticsOutbox)
    → (outcome now found error r).id ≡ r.id
outcome-id now found none r = refl
outcome-id now found (some error) r = refl

All-both {κ μ} :
    {A : Type 0} (P : A → Type κ) (Q : A → Type μ) (xs : List A)
    → All P xs
    → All Q xs
    → All (λ x. P x × Q x) xs
All-both P Q [] h k = tt
All-both P Q (x ∷ xs) h k = ((h.0, k.0), All-both P Q xs h.1 k.1)

-- The rows after the outcome of an attempt, whose row was found by its id and is not settled.
pub outcome-IsLater :
    (now : Time) (k : Uuid) (found : AnalyticsOutbox) (error : Option String)
    (start rows : List AnalyticsOutbox)
    → IsLater start rows
    → Open k rows
    → find (λ r. r.id == k) rows ≡ some found
    → IsLater start (update_if (λ r. r.id == k) (outcome now found error) rows)
outcome-IsLater now k found error start rows h unsettled f =
    let (facts, own) = find-All _ (λ r. r.id == k) rows (All-both _ _ rows h.sound unsettled) f in
    record {
      kept = AllKept-trans start rows _ h.kept (
          AllKept-update_if (λ r. r.id == k) (outcome now found error) rows
            (All-weaken _ _ rows (λ r o e. outcome-IsKept now found error r (o e)) unsettled));
      sound =
          All-update_if _ IsSound (λ r. r.id == k) (outcome now found error) rows
            (λ x s. step x s facts own) (All-both _ _ rows h.sound unsettled);
      ids =
          ids-update_if (λ r. r.id == k) (outcome now found error) rows (outcome-id now found error)
            h.ids;
    }
  where
    step :
        (x : AnalyticsOutbox)
        → IsSound x × ((x.id == k) ≡ true → is_settled x ≡ false)
        → IsSound found × ((found.id == k) ≡ true → is_settled found ≡ false)
        → (found.id == k) ≡ true
        → IsSound (if x.id == k then outcome now found error x else x)
    step x s facts own = elim (Bool-cases (x.id == k)) [
      | inl e ↦ rw e (outcome-IsSound now found error x facts.0 (facts.1 own) s.0 (s.1 e))
      | inr e ↦ rw e s.0
    ]
