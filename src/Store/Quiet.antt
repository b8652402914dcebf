-- ===== src/Store/Quiet.antt =====
-- Actions that do not touch the seats, and the updates of the seats where the unique keys hold.
use omnixys_seat_service.Base.{
  String, Bool, true, ◌≡◌, ◌≢◌, refl, ◌∙◌, Option, none, some, List, [], ◌∷◌, ◌⊎◌, any, arith, ◌==◌,
  find, update_if, count_if, Option-cases, inl, inr,
}
use omnixys_seat_service.Store.Rows.{
  Uuid, Seat, SeatAssignmentAction, LogData, LayoutChangeType, ChangePayload, Fact, Db,
}
use omnixys_seat_service.Store.Exec.{Error, tenant_required, invalid_fact, ok, Env, Exec, ◌>>=◌}
use omnixys_seat_service.Store.Post.{Post, Post-continue, Post-weaken}
use omnixys_seat_service.Store.Tables.{
  seats_ok, find_seat, log_assignment, update_many_seats, update_seat_at,
}
use omnixys_seat_service.Audit.{log_change, enqueue}

-- The action returns and leaves the seats alone, or throws an error of the kind `E`.
abbrev pub IsQuiet : {A : Type 0} → (Error → Type 0) → Exec A → Type 0
IsQuiet E m = (s : Db) → Post (λ _ s'. s'.seats ≡ s.seats) E (m s)

module _ (E : Error → Type 0) where
  pub log_assignment-IsQuiet :
      (e : Env) (event seat : Uuid) (guest invitation : Option Uuid) (action : SeatAssignmentAction)
      (details : LogData)
      → IsQuiet E (log_assignment e event seat guest invitation action details)
  unfolding log_assignment
  log_assignment-IsQuiet e event seat guest invitation action details s = refl

  pub log_change-IsQuiet :
      (e : Env) (event actor : Uuid) (change : LayoutChangeType) (payload : ChangePayload)
      → IsQuiet E (log_change e event actor change payload)
  unfolding log_change
  log_change-IsQuiet e event actor change payload s = refl

  pub IsQuiet-bind :
      {A B : Type 0} (m : Exec A) (f : A → Exec B)
      → IsQuiet E m
      → ((a : A) → IsQuiet E (f a))
      → IsQuiet E (m >>= f)
  unfolding ◌>>=◌
  IsQuiet-bind m f qm qf s =
      Post-continue (λ _ s'. s'.seats ≡ s.seats) _ _ (m s) f (qm s)
        (λ a s' e. Post-weaken _ _ _ (f a s') (qf a s') (λ _ _ e'. e' ∙ e))

-- The outbox refuses a fact without the UUID of a tenant, or one that its schema refuses.
abbrev pub IsRefusedFact : Error → Type 0
IsRefusedFact er = (er ≡ tenant_required) ⊎ (er ≡ invalid_fact)

pub enqueue-IsQuiet :
    (e : Env) (topic : String) (fact : Fact) → IsQuiet IsRefusedFact (enqueue e topic fact)
unfolding enqueue
enqueue-IsQuiet e topic fact s = ground arith

-- The request has a tenant and the schema accepts its facts.
pub record IsReady (e : Env) : Type 0 where
  pub tenant : (t : Uuid) × (e.tenant_id ≡ some t) × (e.is_uuid t ≡ true)
  pub facts : (f : Fact) → e.accepts f ≡ true

pub enqueue-IsQuiet_ready :
    (e : Env) → IsReady e → (topic : String) (fact : Fact) → IsQuiet (λ _. ⊥) (enqueue e topic fact)
unfolding enqueue
enqueue-IsQuiet_ready e r topic fact s = rw (r.tenant.1, r.tenant.2, r.facts fact) refl

-- After an update that keeps the unique keys the rows are the updated ones.
pub update_many_seats_lem :
    (p : Seat → Bool) (f : Seat → Seat) (s : Db)
    → seats_ok (update_if p f s.seats) ≡ true
    → update_many_seats p f s
      ≡ (ok (count_if p s.seats), record s { seats = update_if p f s.seats })
unfolding update_many_seats
update_many_seats_lem p f s h = rw h

pub update_seat_at_lem :
    (E : Error → Type 0) (k : Uuid) (f : Seat → Seat) (s : Db)
    → seats_ok (update_if (λ r. r.id == k) f s.seats) ≡ true
    → any (λ r. r.id == k) s.seats ≡ true
    → Post (λ _ s'. s'.seats ≡ update_if (λ r. r.id == k) f s.seats) E (update_seat_at k f s)
unfolding update_seat_at
update_seat_at_lem E k f s h known = elim (Option-cases (find_seat k s)) [
  | inl e ↦ absurd (find-any s.seats known e)
  | inr (r, e) ↦ rw (e, h) refl
]
  where
    find-any : (xs : List Seat) → any (λ r. r.id == k) xs ≡ true → find (λ r. r.id == k) xs ≢ none
    find-any [] a = cc
    find-any (x ∷ xs) a = ground (arith, find-any xs)
