-- ===== src/Subscriptions/Enrollment.antt =====
-- The invariant of the subscriptions and quotas, and `_create_subscription` and
-- `enroll_in_free_plan` of apps/subscriptions/services.py.
use saas_backend_api.Prelude.{
  ℕ, suc, ◌+◌, ◌*◌, ◌≡◌, ◌≢◌, Bool, false, some, ◌∷◌, arith, exists, update_where, sym,
}
use saas_backend_api.Clock.{day}
use saas_backend_api.Store.{Env, State, ok}
use saas_backend_api.Subscriptions.Models.{
  free_slug, Plan, Subscription, is_active_status, period_days,
}
use saas_backend_api.Subscriptions.Selectors.{
  is_users_active, get_active_subscription, get_plan_by_slug,
}
use saas_backend_api.Subscriptions.Services.{
  new_subscription, new_quota, quota_end, create_subscription, enroll_in_free_plan,
}
use saas_backend_api.Subscriptions.Table.{
  IsUnique, has_id, IsUnique-update_where, exists-update_where_self, first-update_where_ne,
}
use saas_backend_api.Subscriptions.Quotas.{AreOrdered, AreOrdered-mono, exists-fresh}

-- What every operation on subscriptions keeps.
pub record IsValid (s : State) : Type 0 where
  pub unique : IsUnique s.draws s.db.subscriptions
  pub ordered : AreOrdered s.draws s.db.quotas

-- The user has no active row.
abbrev pub IsFree : ℕ → State → Type 0
IsFree u s = exists (is_users_active u) s.db.subscriptions ≡ false

-- The period of a new quota can be computed, and ends at `end`.
abbrev pub EndsAt : Env → Plan → Bool → ℕ → Type 0
EndsAt e plan expires end = quota_end expires e.now (e.now + period_days plan * day) ≡ some end

-- The state after `_create_subscription`.
abbrev pub created : Env → ℕ → Plan → Bool → ℕ → State → State
created e user plan expires end s = record s {
  draws = suc (suc s.draws);
  db = record s.db {
    subscriptions = new_subscription e user plan expires s.draws ∷ s.db.subscriptions;
    quotas = new_quota (suc s.draws) s.draws e.now end ∷ s.db.quotas;
  };
}

pub create_subscription_lem :
    (e : Env) (user : ℕ) (plan : Plan) (expires : Bool) (end : ℕ) (s : State)
    → IsValid s
    → IsFree user s
    → EndsAt e plan expires end
    → create_subscription e user plan expires s
      ≡ (ok (new_subscription e user plan expires s.draws), created e user plan expires end s)
unfolding create_subscription
create_subscription_lem e user plan expires end s v free ends =
    ground (arith, exists-fresh s.draws e.now s.draws s.db.quotas)

pub created-IsValid :
    (e : Env) (user : ℕ) (plan : Plan) (expires : Bool) (end : ℕ) (s : State)
    → IsValid s
    → IsFree user s
    → IsValid (created e user plan expires end s)
created-IsValid e user plan expires end s v free = record {
  unique = (omega arith, λ active. free, v.unique);
  ordered =
      (omega arith, omega arith, AreOrdered-mono s.draws (suc s.draws) _ (omega arith) v.ordered);
}

-- A new active row is the one that is found, and the other users' stay.
pub get_active-created :
    (e : Env) (user : ℕ) (plan : Plan) (expires : Bool) (end : ℕ) (s : State)
    → get_active_subscription user (created e user plan expires end s).db
      ≡ some (new_subscription e user plan expires s.draws)
unfolding get_active_subscription
get_active-created e user plan expires end s = ground arith

pub get_active-created_ne :
    (e : Env) (user v : ℕ) (plan : Plan) (expires : Bool) (end : ℕ) (s : State)
    → v ≢ user
    → get_active_subscription v (created e user plan expires end s).db
      ≡ get_active_subscription v s.db
unfolding get_active_subscription
get_active-created_ne e user v plan expires end s ne = ground arith

pub enroll_in_free_plan_lem :
    (e : Env) (user : ℕ) (plan : Plan) (end : ℕ) (s : State)
    → IsValid s
    → IsFree user s
    → get_plan_by_slug free_slug s.db ≡ some plan
    → EndsAt e plan false end
    → enroll_in_free_plan e user s
      ≡ (ok (new_subscription e user plan false s.draws), created e user plan false end s)
unfolding enroll_in_free_plan
enroll_in_free_plan_lem e user plan end s v free found ends =
    ground (arith, create_subscription_lem e user plan false end s v free)

-- The state after the current subscription was ended by `f`.
abbrev pub ended : (Subscription → Subscription) → Subscription → State → State
ended f sub s = record s {
  db = record s.db { subscriptions = update_where (has_id sub.id) f s.db.subscriptions };
}

module _ (f : Subscription → Subscription)
    (off : (s : Subscription)
      → ((f s).id ≡ s.id) × ((f s).user ≡ s.user) × (is_active_status (f s).status ≡ false)) where
  pub ended-IsValid : (sub : Subscription) (s : State) → IsValid s → IsValid (ended f sub s)
  ended-IsValid sub s v = record {
    unique = IsUnique-update_where f off s.draws sub.id s.db.subscriptions v.unique;
    ordered = v.ordered;
  }

  pub ended-IsFree :
      (user : ℕ) (sub : Subscription) (s : State)
      → IsValid s
      → get_active_subscription user s.db ≡ some sub
      → IsFree user (ended f sub s)
  unfolding get_active_subscription
  ended-IsFree user sub s v e =
      exists-update_where_self f off user s.draws s.db.subscriptions sub v.unique e

  pub get_active-ended_ne :
      (user w : ℕ) (sub : Subscription) (s : State)
      → IsValid s
      → w ≢ user
      → get_active_subscription user s.db ≡ some sub
      → get_active_subscription w (ended f sub s).db ≡ get_active_subscription w s.db
  unfolding get_active_subscription
  get_active-ended_ne user w sub s v ne e =
      first-update_where_ne f off user w s.draws s.db.subscriptions sub (λ p. ne (sym p)) v.unique e
