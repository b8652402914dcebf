-- ===== src/Store/Post.antt =====
-- What an action guarantees from a given state: a condition on what it returns and on the new
-- state, or on the error that it throws. One rule for each way to build an action.
use omnixys_seat_service.Base.{◌≡◌, refl, Option, none, some}
use omnixys_seat_service.Store.Rows.{Db}
use omnixys_seat_service.Store.Exec.{
  Error, Result, ok, err, Exec, or_raise, continue, settle, transaction,
}

abbrev pub Post : {A : Type 0} → (A → Db → Type 0) → (Error → Type 0) → Result A × Db → Type 0
Post Q E (ok a, s) = Q a s
Post Q E (err e, s) = E e

module _ {A B : Type 0} where
  pub Post-continue :
      (Q : A → Db → Type 0) (R : B → Db → Type 0) (E : Error → Type 0) (r : Result A × Db)
      (f : A → Exec B)
      → Post Q E r
      → ((a : A) (s : Db) → Q a s → Post R E (f a s))
      → Post R E (continue r f)
  Post-continue Q R E (ok a, s) f h k = k a s h
  Post-continue Q R E (err e, s) f h k = h

module _ {A : Type 0} where
  pub Post-weaken :
      (Q R : A → Db → Type 0) (E : Error → Type 0) (r : Result A × Db)
      → Post Q E r
      → ((a : A) (s : Db) → Q a s → R a s)
      → Post R E r
  Post-weaken Q R E (ok a, s) h k = k a s h
  Post-weaken Q R E (err e, s) h k = h

  pub Post-transaction :
      (Q : A → Db → Type 0) (E : Error → Type 0) (m : Exec A) (s : Db)
      → Post Q E (m s)
      → Post Q E (transaction m s)
  unfolding transaction
  Post-transaction Q E m s h = go (m s) h
    where
      go : (r : Result A × Db) → Post Q E r → Post Q E (settle r s)
      go (ok a, s') h = h
      go (err e, s') h = h

  pub Post-or_raise :
      (Q : A → Db → Type 0) (E : Error → Type 0) (o : Option A) (e : Error) (s : Db)
      → ((a : A) → o ≡ some a → Q a s)
      → E e
      → Post Q E (or_raise o e s)
  unfolding or_raise
  Post-or_raise Q E none e s h k = k
  Post-or_raise Q E (some a) e s h k = h a refl
