-- ===== src/Store/Monad.antt =====
-- An operation: state and exceptions. The state comes back after a raise too, since what was
-- written outside a transaction stays written.
use saas_backend_api.Prelude.{ℕ, suc, String, Bool, Option, none, some, [], ◌∷◌, if◌then◌else◌}
use saas_backend_api.Common.Errors.{ErrorClass, text, init_error, Exc, domain}
use saas_backend_api.Store.Tables.{Db, Mail, State}

pub data Result (A : Type 0) : Type 0 where
  ok : A → Result A
  err : Exc → Result A

abbrev pub error_of : {A : Type 0} → Result A → Option Exc
error_of (ok a) = none
error_of (err e) = some e

abbrev pub Action : Type 0 → Type 0
Action A = State → Result A × State

module _ {A : Type 0} where
  abbrev pub pure : A → Action A
  pure a s = (ok a, s)

  abbrev pub raise : Exc → Action A
  raise e s = (err e, s)

  abbrev pub gets : (Db → A) → Action A
  gets f s = (ok (f s.db), s)

  abbrev pub or_raise : Option A → Exc → Action A
  or_raise none e = raise e
  or_raise (some a) e = pure a

  -- A call of library code that returns or raises.
  abbrev pub answered : Result A → Action A
  answered r s = (r, s)

  -- `transaction.atomic`: an exception restores the tables. Queued tasks and drawn values stay.
  abbrev pub atomic : Action A → Action A
  atomic m s =
      let (r, s') = m s in elim r [ ok a ↦ (ok a, s') | err e ↦ (err e, record s' { db = s.db }) ]

infixl 5 ◌>>=◌ ◌>>◌
abbrev pub ◌>>=◌ : {A B : Type 0} → Action A → (A → Action B) → Action B
◌>>=◌ m f s = let (r, s') = m s in elim r [ ok a ↦ f a s' | err e ↦ (err e, s') ]

abbrev pub ◌>>◌ : {A B : Type 0} → Action A → Action B → Action B
m >> k = m >>= λ _. k

abbrev pub raise_if : Bool → Exc → Action (Unit {0})
raise_if c e s = (if c then err e else ok tt, s)

abbrev pub modify : (Db → Db) → Action (Unit {0})
modify f s = (ok tt, record s { db = f s.db })

-- `uuid.uuid4()`, and every other random value.
abbrev pub draw : Action ℕ
draw s = (ok s.draws, record s { draws = suc s.draws })

-- `task.delay(...)`
abbrev pub delay : Mail → Action (Unit {0})
delay m s = (ok tt, record s { outbox = m ∷ s.outbox })

-- A domain error with a message and a code.
abbrev pub error : ErrorClass → String → String → Exc
error cls message code = domain (init_error cls (text message) code [])
