-- ===== src/Store/Exec.antt =====
-- A service method: it runs against the database and returns or throws. What was written before a
-- throw stays written, unless a transaction rolls it back.
use omnixys_seat_service.Base.{ℕ, String, Bool, true, false, Option, none, some}
use omnixys_seat_service.Base.Int.{ℤ}
use omnixys_seat_service.Meta.{Json}
use omnixys_seat_service.Store.Rows.{Uuid, Time, Fact, Db, CurrentLayout}

pub data Entity : Type 0 where
  section table : Entity

-- seat-domain.error.ts, the errors of the Prisma client, those of the outbox, and those of the libraries
-- of encryption, cache and broker (`service_failed`).
pub data Error : Type 0 where
  seat_not_found : Uuid → Error
  seat_unavailable : Uuid → Option Uuid → Error
  seat_holder_conflict : Error
  seat_event_mismatch : Uuid → Uuid → Uuid → Error
  seat_assignment_not_found : Uuid → Uuid → Error
  seat_verification_token : String → Error
  entity_not_found : Entity → Uuid → Error
  seating_conflict : Entity → String → Error
  tenant_required : Error
  invalid_fact : Error
  unique_violation : Error
  foreign_key_violation : Error
  record_not_found : Error
  invalid_value : Error
  service_failed : Error

pub data Result (A : Type 0) : Type 0 where
  ok : A → Result A
  err : Error → Result A

-- The arithmetic of JavaScript on floating point numbers, which are integer codes here; zero has the
-- code 0. `ceil` is taken of numbers from 0 on.
pub record Floats : Type 0 where
  pub of_ℕ : ℕ → ℤ
  pub add : ℤ → ℤ → ℤ
  pub sub : ℤ → ℤ → ℤ
  pub mul : ℤ → ℤ → ℤ
  pub div : ℤ → ℤ → ℤ
  pub neg : ℤ → ℤ
  pub min : ℤ → ℤ → ℤ
  pub max : ℤ → ℤ → ℤ
  pub cos : ℤ → ℤ
  pub sin : ℤ → ℤ
  pub sqrt : ℤ → ℤ
  pub pi : ℤ
  pub infinity : ℤ
  pub ceil : ℤ → ℕ

-- What a call meets outside the program: the clock, the id generator, the request's context
-- (`ContextAccessor`), `isUUID`, `jsonpatch.compare` and the schema of the analytics facts.
pub record Env : Type 0 where
  pub now : Time
  pub uuid : ℕ → Uuid
  pub tenant_id : Option Uuid
  pub is_uuid : Uuid → Bool
  pub accepts : Fact → Bool
  pub correlation_id : Option Uuid
  pub principal_id : Option Uuid
  pub floats : Floats
  pub compare : CurrentLayout → CurrentLayout → Json

abbrev pub Exec : Type 0 → Type 0
Exec A = Db → Result A × Db

module _ {A : Type 0} where
  abbrev pub pure : A → Exec A
  pure a s = (ok a, s)

  abbrev pub raise : Error → Exec A
  raise e s = (err e, s)

  abbrev pub gets : (Db → A) → Exec A
  gets f s = (ok (f s), s)

  -- `if (!row) throw …`
  unfoldable pub or_raise : Option A → Error → Exec A
  or_raise none e = raise e
  or_raise (some a) e = pure a

  abbrev pub settle : Result A × Db → Db → Result A × Db
  settle (ok a, s') s = (ok a, s')
  settle (err e, s') s = (err e, s)

  -- `prisma.$transaction`: a throw undoes the writes.
  unfoldable pub transaction : Exec A → Exec A
  transaction m s = settle (m s) s

abbrev pub modify : (Db → Db) → Exec Unit
modify f s = (ok tt, f s)

module _ {A B : Type 0} where
  abbrev pub continue : Result A × Db → (A → Exec B) → Result B × Db
  continue (ok a, s) f = f a s
  continue (err e, s) f = (err e, s)

infixl 5 ◌>>=◌ ◌>>◌
unfoldable pub ◌>>=◌ : {A B : Type 0} → Exec A → (A → Exec B) → Exec B
◌>>=◌ m f s = continue (m s) f

abbrev pub ◌>>◌ : {B : Type 0} → Exec Unit → Exec B → Exec B
m >> k = m >>= λ _. k

unfoldable pub when : Bool → Exec Unit → Exec Unit
when true m = m
when false m = pure tt
