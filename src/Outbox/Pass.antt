-- ===== src/Outbox/Pass.antt =====
-- A pass of the publisher, and any number of passes (analytics/analytics-outbox.publisher.ts).
use omnixys_seat_service.Base.{
  ◌+◌, Bool, true, false, not, ◌&&◌, ◌≡◌, refl, List, [], ◌∷◌, none, ◌==◌, ==_iff, find, update_if,
  count_if, All, ◌≢◌, Bool-cases, inl, inr, arith, Option-cases,
}
use omnixys_seat_service.Store.Rows.{Uuid, AnalyticsOutbox, Db}
use omnixys_seat_service.Store.Exec.{Env, Error, ◌>>=◌, when, or_raise}
use omnixys_seat_service.Store.Post.{Post, Post-continue}
use omnixys_seat_service.Store.Tables.{keys_ok}
use omnixys_seat_service.Outbox.Publish.{
  Broker, is_settled, can_lock, lock, is_unlocked, message, claim_row, publish, publish_each,
  publish_ready, find_candidates,
}
use omnixys_seat_service.Outbox.Rows.{same_id, IsSound, AllKept-refl, Open}
use omnixys_seat_service.Outbox.Later.{
  IsLater, locked-Open, claim-IsLater, outcome-IsLater, update-id,
}

abbrev Later : List AnalyticsOutbox → {A : Type 0} → A → Db → Type 0
Later start _ s = IsLater start s.outbox

abbrev Nothing : Error → Type 0
Nothing _ = ⊥

find-present :
    (k : Uuid) (p : AnalyticsOutbox → Bool) (xs : List AnalyticsOutbox)
    → count_if (λ r. r.id == k && p r) xs ≡ 1
    → find (λ r. r.id == k) xs ≢ none
find-present k p [] c = omega arith
find-present k p (x ∷ xs) c = elim (Bool-cases (x.id == k)) [
  | inl e ↦ rw e (λ q. cc)
  | inr e ↦ rw e (find-present k p xs (sum (rw e at c)))
]
  where
    sum :
        0 + count_if (λ (r : AnalyticsOutbox). r.id == k && p r) xs ≡ 1
        → count_if (λ (r : AnalyticsOutbox). r.id == k && p r) xs ≡ 1
    sum q = omega arith

find-update_if :
    (k : Uuid) (p : AnalyticsOutbox → Bool) (f : AnalyticsOutbox → AnalyticsOutbox)
    (xs : List AnalyticsOutbox)
    → ((x : AnalyticsOutbox) → (f x).id ≡ x.id)
    → find (λ r. r.id == k) xs ≢ none
    → find (λ r. r.id == k) (update_if p f xs) ≢ none
find-update_if k p f [] same h = h
find-update_if k p f (x ∷ xs) same h = elim (Bool-cases (x.id == k)) [
  | inl e ↦ rw (update-id p f x (same x), e) (λ q. cc)
  | inr e ↦ rw (update-id p f x (same x), e) (find-update_if k p f xs same (rw e at h))
]

publish-IsLater :
    (e : Env) (send : Broker) (k : Uuid) (start : List AnalyticsOutbox) (s : Db)
    → IsLater start s.outbox
    → Open k s.outbox
    → find (λ r. r.id == k) s.outbox ≢ none
    → Post (Later start) Nothing (publish e send k s)
unfolding publish ◌>>=◌ or_raise
publish-IsLater e send k start s h unsettled there =
    elim (Option-cases (find (λ r. r.id == k) s.outbox)) [
      | inl f ↦ absurd (there f)
      | inr (found, f) ↦
          rw f (outcome-IsLater e.now k found (send (message found)) start s.outbox h unsettled f)
    ]

claimed-IsLater :
    (e : Env) (send : Broker) (instance_id k : Uuid) (start : List AnalyticsOutbox) (s : Db)
    → IsLater start s.outbox
    → Post (Later start) Nothing (
        when
          (count_if (can_lock e.now k) s.outbox == 1)
          (publish e send k)
          (record s { outbox = update_if (can_lock e.now k) (lock e.now instance_id) s.outbox }))
unfolding when
claimed-IsLater e send instance_id k start s h =
    elim (Bool-cases (count_if (can_lock e.now k) s.outbox == 1)) [
      | inl c ↦
          let one = (==_iff (count_if (can_lock e.now k) s.outbox) 1).0 c in
          rw c (
            publish-IsLater e send k start _ (claim-IsLater e.now k instance_id start s.outbox h)
              (locked-Open e.now k instance_id s.outbox h.ids one)
              (find-update_if k (can_lock e.now k) (lock e.now instance_id) s.outbox (λ x. refl)
                (find-present k (λ r. not (is_settled r) && is_unlocked e.now r.locked_at) s.outbox
                  one)))
      | inr c ↦ rw c (claim-IsLater e.now k instance_id start s.outbox h)
    ]

publish_each-IsLater :
    (e : Env) (send : Broker) (instance_id : Uuid) (candidates start : List AnalyticsOutbox)
    (s : Db)
    → IsLater start s.outbox
    → Post (Later start) Nothing (publish_each e send instance_id candidates s)
unfolding publish_each claim_row ◌>>=◌
publish_each-IsLater e send instance_id [] start s h = h
publish_each-IsLater e send instance_id (candidate ∷ rest) start s h =
    Post-continue (Later start) (Later start) Nothing _ _
      (claimed-IsLater e send instance_id candidate.id start s h)
      (λ _ s' h'. publish_each-IsLater e send instance_id rest start s' h')

at_start :
    (s : Db) → All IsSound s.outbox → keys_ok same_id s.outbox ≡ true → IsLater s.outbox s.outbox
at_start s sound ids = record { kept = AllKept-refl s.outbox; sound = sound; ids = ids }

-- On an outbox of sound rows with distinct ids a pass throws nothing, whatever the broker does:
-- every row keeps its fact and its addressee, the settled rows are as they were, and all rows are
-- sound again.
pub publish_ready-IsLater :
    (e : Env) (send : Broker) (instance_id : Uuid) (running : Bool) (s : Db)
    → All IsSound s.outbox
    → keys_ok same_id s.outbox ≡ true
    → Post
        (λ _ s'. IsLater s.outbox s'.outbox)
        (λ _. ⊥)
        (publish_ready e send instance_id running s)
unfolding publish_ready ◌>>=◌
publish_ready-IsLater e send instance_id true s sound ids = at_start s sound ids
publish_ready-IsLater e send instance_id false s sound ids =
    publish_each-IsLater e send instance_id (find_candidates e.now s) s.outbox s
      (at_start s sound ids)
