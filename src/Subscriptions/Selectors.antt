-- ===== src/Subscriptions/Selectors.antt =====
-- apps/subscriptions/selectors.py.
use saas_backend_api.Prelude.{
  ℕ, String, Bool, Option, none, some, List, [], ◌∷◌, leb, ◌==◌, ◌&&◌, if◌then◌else◌, str_eq, first,
}
use saas_backend_api.Store.{Db}
use saas_backend_api.Subscriptions.Models.{
  Plan, Subscription, is_active_status, UsageQuota, is_current,
}

-- `filter(user=user, status=ACTIVE)`
abbrev pub is_users_active : ℕ → Subscription → Bool
is_users_active user s = s.user == user && is_active_status s.status

unfoldable pub get_active_subscription : ℕ → Db → Option Subscription
get_active_subscription user db = first (is_users_active user) db.subscriptions

-- The first of the rows ordered by `-period_start`: the latest start, and of equal ones the newest.
abbrev later_start : UsageQuota → Option UsageQuota → UsageQuota
later_start q none = q
later_start q (some r) = if leb r.period_start q.period_start then q else r

abbrev pub latest_quota : (UsageQuota → Bool) → List UsageQuota → Option UsageQuota
latest_quota p [] = none
latest_quota p (q ∷ qs) =
    let rest = latest_quota p qs in if p q then some (later_start q rest) else rest

-- `filter(subscription=..., period_start__lte=now, period_end__gt=now)`
abbrev pub is_subs_current : ℕ → ℕ → UsageQuota → Bool
is_subs_current now sub q = q.subscription == sub && is_current now q

unfoldable pub get_current_quota : ℕ → Subscription → Db → Option UsageQuota
get_current_quota now sub db = latest_quota (is_subs_current now sub.id) db.quotas

-- `filter(slug=slug, is_active=True)`
abbrev pub has_slug : String → Plan → Bool
has_slug slug p = str_eq p.slug slug && p.is_active

unfoldable pub get_plan_by_slug : String → Db → Option Plan
get_plan_by_slug slug db = first (has_slug slug) db.plans

-- The row behind a foreign key to a plan.
abbrev pub plan_by_id : ℕ → Db → Option Plan
plan_by_id id db = first (λ p. p.id == id) db.plans
