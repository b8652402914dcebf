-- ===== src/Store/Keeps.antt =====
-- Invariants of actions, whether they return or throw, with a rule for each way to build one.
use omnixys_seat_service.Base.{Bool, true, false, Option, none, some, if◌then◌else◌}
use omnixys_seat_service.Store.Rows.{Db}
use omnixys_seat_service.Store.Exec.{
  Error, Result, ok, err, Exec, pure, raise, gets, or_raise, continue, ◌>>=◌, when, settle,
  transaction,
}

pub record Keeps {A : Type 0} (P : Db → Type 0) (m : Exec A) : Type 0 where
  pub at : (s : Db) → P s → P (m s).1

settle_keeps :
    {A : Type 0} (P : Db → Type 0) (r : Result A × Db) (s : Db) → P r.1 → P s → P (settle r s).1
settle_keeps P (ok a, s') s h k = h
settle_keeps P (err e, s') s h k = k

module _ {A : Type 0} {P : Db → Type 0} where
  pub Keeps-pure : (a : A) → Keeps P (pure a)
  Keeps-pure a = record { at = λ s h. h }

  pub Keeps-raise : (e : Error) → Keeps P (raise {A = A} e)
  Keeps-raise e = record { at = λ s h. h }

  pub Keeps-gets : (f : Db → A) → Keeps P (gets f)
  Keeps-gets f = record { at = λ s h. h }

  pub Keeps-or_raise : (o : Option A) (e : Error) → Keeps P (or_raise o e)
  unfolding or_raise
  Keeps-or_raise none e = record { at = λ s h. h }
  Keeps-or_raise (some a) e = record { at = λ s h. h }

  pub Keeps-if : (b : Bool) (m n : Exec A) → Keeps P m → Keeps P n → Keeps P (if b then m else n)
  Keeps-if true m n km kn = km
  Keeps-if false m n km kn = kn

  pub Keeps-transaction : (m : Exec A) → Keeps P m → Keeps P (transaction m)
  unfolding transaction
  Keeps-transaction m k = record { at = λ s h. settle_keeps P (m s) s (k.at s h) h }

module _ {P : Db → Type 0} where
  pub Keeps-when : (b : Bool) (m : Exec Unit) → Keeps P m → Keeps P (when b m)
  unfolding when
  Keeps-when true m k = k
  Keeps-when false m k = record { at = λ s h. h }

module _ {A B : Type 0} {P : Db → Type 0} where
  continue_keeps :
      (r : Result A × Db) (f : A → Exec B) → P r.1 → ((a : A) → Keeps P (f a)) → P (continue r f).1
  continue_keeps (ok a, s) f h k = (k a).at s h
  continue_keeps (err e, s) f h k = h

  pub Keeps-bind :
      (m : Exec A) (f : A → Exec B) → Keeps P m → ((a : A) → Keeps P (f a)) → Keeps P (m >>= f)
  unfolding ◌>>=◌
  Keeps-bind m f km kf = record { at = λ s h. continue_keeps (m s) f (km.at s h) kf }

pub ruleset keeps_rules = (
  Keeps-pure, Keeps-raise, Keeps-gets, Keeps-or_raise, Keeps-if, Keeps-transaction, Keeps-when,
  Keeps-bind,
)
