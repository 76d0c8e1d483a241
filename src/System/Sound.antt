-- ===== src/System/Sound.antt =====
-- Soundness of the tables, and rules that show of an action that it keeps it.
use saas_backend_api.Prelude.{
  true, false, if◌then◌else◌, Option, none, some, ℕ, suc, ◌<◌, ◌≤◌, List, arith, Bool,
}
use saas_backend_api.Users.Models.{User}
use saas_backend_api.Authentication.Models.{Token, UserSession}
use saas_backend_api.ApiKeys.Models.{ApiKey}
use saas_backend_api.Subscriptions.Table.{IsUnique, IsUnique-mono}
use saas_backend_api.Subscriptions.Quotas.{AreOrdered, AreOrdered-mono}
use saas_backend_api.Store.{
  Db, State, Result, ok, err, Action, pure, gets, or_raise, atomic, raise_if, draw, delay, ◌>>=◌,
  Mail,
}
use saas_backend_api.Common.Errors.{Exc}
use saas_backend_api.System.Tables.{IsTable, IsTable-mono}
use saas_backend_api.System.Kept.{IsKept, IsKept-refl, IsKept-trans}

abbrev pub AreUsers : ℕ → List User → Type 0
AreUsers = IsTable (λ u. u.id) (λ u. u.email)

abbrev pub AreTokens : ℕ → List Token → Type 0
AreTokens = IsTable (λ t. t.id) (λ t. t.token_hash)

abbrev pub AreSessions : ℕ → List UserSession → Type 0
AreSessions = IsTable (λ r. r.id) (λ r. r.refresh_jti)

abbrev pub AreKeys : ℕ → List ApiKey → Type 0
AreKeys = IsTable (λ k. k.id) (λ k. k.key_hash)

-- In every table the keys fall and are below the bound; e-mail addresses, hashes and `jti`s are
-- distinct; no user has two active subscriptions; a quota is newer than its subscription.
pub record IsSoundAt (n : ℕ) (db : Db) : Type 0 where
  pub users : AreUsers n db.users
  pub subscriptions : IsUnique n db.subscriptions
  pub quotas : AreOrdered n db.quotas
  pub keys : AreKeys n db.api_keys
  pub verifications : AreTokens n db.verification_tokens
  pub resets : AreTokens n db.reset_tokens
  pub sessions : AreSessions n db.sessions

pub IsSoundAt-mono : (m n : ℕ) (db : Db) → m ≤ n → IsSoundAt m db → IsSoundAt n db
IsSoundAt-mono m n db le h = record {
  users = IsTable-mono (λ u. u.id) (λ u. u.email) m n db.users le h.users;
  subscriptions = IsUnique-mono m n db.subscriptions le h.subscriptions;
  quotas = AreOrdered-mono m n db.quotas le h.quotas;
  keys = IsTable-mono (λ k. k.id) (λ k. k.key_hash) m n db.api_keys le h.keys;
  verifications =
      IsTable-mono (λ t. t.id) (λ t. t.token_hash) m n db.verification_tokens le h.verifications;
  resets = IsTable-mono (λ t. t.id) (λ t. t.token_hash) m n db.reset_tokens le h.resets;
  sessions = IsTable-mono (λ r. r.id) (λ r. r.refresh_jti) m n db.sessions le h.sessions;
}

abbrev pub IsSound : State → Type 0
IsSound s = IsSoundAt s.draws s.db

-- The state `t` is sound, no draw of `s` is undone, and what was used up in `s` stays so.
pub record Follows (s t : State) : Type 0 where
  pub sound : IsSound t
  pub later : s.draws ≤ t.draws
  pub kept : IsKept s.db t.db

pub Follows-refl : (s : State) → IsSound s → Follows s s
Follows-refl s h = record { sound = h; later = omega arith; kept = IsKept-refl s.db }

pub Follows-trans : (s t u : State) → Follows s t → Follows t u → Follows s u
Follows-trans s t u f g = record {
  sound = g.sound;
  later = omega (arith, f.later, g.later);
  kept = IsKept-trans s.db t.db u.db f.kept g.kept;
}

-- An action keeps soundness, whether it returns or raises.
pub record Keeps {A : Type 0} (m : Action A) : Type 0 where
  pub keeps : (s : State) → IsSound s → Follows s (m s).1

-- So does an action that may use the key `id`, which no row has yet.
pub record KeepsFrom {A : Type 0} (id : ℕ) (m : Action A) : Type 0 where
  pub keeps : (s : State) → IsSoundAt id s.db → id < s.draws → Follows s (m s).1

module _ {A : Type 0} where
  pub pure-Keeps : (a : A) → Keeps (pure a)
  pure-Keeps a = record { keeps = λ s h. Follows-refl s h }

  pub gets-Keeps : (f : Db → A) → Keeps (gets f)
  gets-Keeps f = record { keeps = λ s h. Follows-refl s h }

  pub after_Follows :
      {B : Type 0} (f : A → Action B) (s : State) (r : Result A) (t : State)
      → ((a : A) → Keeps (f a))
      → Follows s t
      → Follows s (elim r as (λ _. Result B × State) [ ok a ↦ f a t | err e ↦ (err e, t) ]).1
  after_Follows f s (ok a) t k h = Follows-trans s t (f a t).1 h ((k a).keeps t h.sound)
  after_Follows f s (err e) t k h = h

  pub bind-Keeps :
      {B : Type 0} (m : Action A) (f : A → Action B)
      → Keeps m
      → ((a : A) → Keeps (f a))
      → Keeps (m >>= f)
  bind-Keeps m f k l = record { keeps = λ s h. after_Follows f s (m s).0 (m s).1 l (k.keeps s h) }

  pub or_raise-Keeps : (o : Option A) (e : Exc) → Keeps (or_raise o e)
  or_raise-Keeps none e = record { keeps = λ s h. Follows-refl s h }
  or_raise-Keeps (some a) e = pure-Keeps a

  pub atomic-Keeps : (m : Action A) → Keeps m → Keeps (atomic m)
  atomic-Keeps m k = record { keeps = λ s h. restored s (m s).0 (m s).1 h (k.keeps s h) }
    where
      restored :
          (s : State) (r : Result A) (t : State)
          → IsSound s
          → Follows s t
          → Follows s
              (elim r as (λ _. Result A × State) [
                | ok a ↦ (ok a, t)
                | err e ↦ (err e, record t { db = s.db })
              ]).1
      restored s (ok a) t h f = f
      restored s (err e) t h f = record {
        sound = IsSoundAt-mono s.draws t.draws s.db f.later h;
        later = f.later;
        kept = IsKept-refl s.db;
      }

  pub if-Keeps : (c : Bool) (m k : Action A) → Keeps m → Keeps k → Keeps (if c then m else k)
  if-Keeps true m k l r = l
  if-Keeps false m k l r = r

  -- A key that is drawn is new.
  pub draw-Keeps : (f : ℕ → Action A) → ((id : ℕ) → KeepsFrom id (f id)) → Keeps (draw >>= f)
  draw-Keeps f k = record {
    keeps = λ s h.
        let t : State = record s { draws = suc s.draws } in
        let next = (k s.draws).keeps t h (omega arith) in
        record { sound = next.sound; later = omega (arith, next.later); kept = next.kept };
  }

  pub KeepsFrom-draw :
      (id : ℕ) (f : ℕ → Action A) → ((n : ℕ) → KeepsFrom id (f n)) → KeepsFrom id (draw >>= f)
  KeepsFrom-draw id f k = record {
    keeps = λ s h lt.
        let t : State = record s { draws = suc s.draws } in
        let next = (k s.draws).keeps t h (omega arith) in
        record { sound = next.sound; later = omega (arith, next.later); kept = next.kept };
  }

  pub KeepsFrom-bind :
      {B : Type 0} (id : ℕ) (m : Action A) (f : A → Action B)
      → KeepsFrom id m
      → ((a : A) → Keeps (f a))
      → KeepsFrom id (m >>= f)
  KeepsFrom-bind id m f k l = record {
    keeps = λ s h lt. after_Follows f s (m s).0 (m s).1 l (k.keeps s h lt);
  }

  -- The drawn value is used for something else than a key.
  pub KeepsFrom-Keeps : (id : ℕ) (m : Action A) → Keeps m → KeepsFrom id m
  KeepsFrom-Keeps id m k = record {
    keeps = λ s h lt. k.keeps s (IsSoundAt-mono id s.draws s.db (omega arith) h);
  }

pub raise_if-Keeps : (c : Bool) (e : Exc) → Keeps (raise_if c e)
raise_if-Keeps c e = record { keeps = λ s h. Follows-refl s h }

pub delay-Keeps : (m : Mail) → Keeps (delay m)
delay-Keeps m = record {
  keeps = λ s h. record { sound = h; later = omega arith; kept = IsKept-refl s.db };
}

-- An action built of these parts keeps soundness.
pub ruleset keeping = (
  pure-Keeps, gets-Keeps, bind-Keeps, or_raise-Keeps, atomic-Keeps, raise_if-Keeps, delay-Keeps,
  if-Keeps, draw-Keeps, KeepsFrom-draw, KeepsFrom-bind, KeepsFrom-Keeps,
)
