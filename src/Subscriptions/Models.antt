-- ===== src/Subscriptions/Models.antt =====
-- apps/subscriptions/models.py. Times are seconds (`Clock`), prices are cents.
use saas_backend_api.Prelude.{
  ℕ, ◌+◌, ◌-◌, ◌*◌, String, Bool, true, false, Option, none, some, List, ltb, leb, ◌==◌, ◌&&◌, not,
  if◌then◌else◌,
}
use saas_backend_api.Clock.{day}

-- `PlanSlug`
abbrev pub free_slug : String
free_slug = "free"

pub record Plan : Type 0 where
  pub id : ℕ
  pub name : String
  pub slug : String
  pub description : String
  pub price : ℕ
  pub currency : String
  pub request_quota : ℕ
  pub rate_limit_per_minute : ℕ
  pub max_api_keys : ℕ
  pub duration_days : ℕ
  pub features : List (String × Bool)
  pub is_active : Bool

pub data SubscriptionStatus : Type 0 where
  active canceled expired past_due : SubscriptionStatus

abbrev pub is_active_status : SubscriptionStatus → Bool
is_active_status active = true
is_active_status canceled = false
is_active_status expired = false
is_active_status past_due = false

-- `user` and `plan` are the foreign keys `user_id` and `plan_id`.
pub record Subscription : Type 0 where
  pub id : ℕ
  pub user : ℕ
  pub plan : ℕ
  pub status : SubscriptionStatus
  pub started_at : ℕ
  pub expires_at : Option ℕ
  pub canceled_at : Option ℕ
  pub auto_renew : Bool
  pub created_at : ℕ

-- `expires_at and expires_at <= now`
abbrev pub is_due : ℕ → Option ℕ → Bool
is_due now none = false
is_due now (some t) = leb t now

-- `Subscription.is_active`
unfoldable pub is_active : ℕ → Subscription → Bool
is_active now sub =
    if not (is_active_status sub.status)
    then false
    else if is_due now sub.expires_at
    then false
    else true

pub record UsageQuota : Type 0 where
  pub id : ℕ
  pub subscription : ℕ
  pub period_start : ℕ
  pub period_end : ℕ
  pub requests_used : ℕ

-- `UsageQuota.is_current`
abbrev pub is_current : ℕ → UsageQuota → Bool
is_current now q = leb q.period_start now && ltb now q.period_end

-- The result of `quota_remaining`, whose -1 means no limit.
pub data Remaining : Type 0 where
  unlimited : Remaining
  left : ℕ → Remaining

-- `UsageQuota.quota_remaining`, of a quota whose subscription has the given plan;
-- `max(0, limit - used)` is the truncated subtraction.
unfoldable pub quota_remaining : Plan → UsageQuota → Remaining
quota_remaining plan q =
    if plan.request_quota == 0 then unlimited else left (plan.request_quota - q.requests_used)

-- `plan.duration_days or 30`
abbrev pub period_days : Plan → ℕ
period_days plan = if plan.duration_days == 0 then 30 else plan.duration_days

abbrev pub default_period_window : Plan → ℕ → ℕ × ℕ
default_period_window plan start = (start, start + period_days plan * day)
