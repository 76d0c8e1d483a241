-- ===== src/Dashboard/Views.antt =====
-- apps/dashboard/views.py and apps/dashboard/serializers.py.
use saas_backend_api.Prelude.{ℕ, Option, none, some, List, min, max, length, count}
use saas_backend_api.Common.Responses.{Payload, success}
use saas_backend_api.Users.Models.{User}
use saas_backend_api.Users.Views.{UserData, user_data}
use saas_backend_api.Store.{Env, Action, pure, gets, ◌>>=◌}
use saas_backend_api.Subscriptions.Models.{Subscription}
use saas_backend_api.Subscriptions.Selectors.{get_active_subscription}
use saas_backend_api.Subscriptions.Views.{SubscriptionData, subscription_data}
use saas_backend_api.ApiKeys.Models.{is_active}
use saas_backend_api.ApiKeys.Services.{is_users_active_key}
use saas_backend_api.Analytics.Models.{RequestLog}
use saas_backend_api.Analytics.Selectors.{
  UsageSummary, usage_summary, Point, daily_chart, monthly_chart, recent_requests,
}

-- A query parameter as `int` reads it: absent, no integer, or an integer, of which a negative one
-- is below every bound.
pub data Param : Type 0 where
  absent not_an_int negative : Param
  int : ℕ → Param

-- `max(min_v, min(max_v, n))`
abbrev pub clamp : ℕ → ℕ → ℕ → ℕ
clamp lo hi n = max lo (min hi n)

-- `_parse_int_param`; a negative integer is clamped to `min_v`, and a text that is no integer gives
-- the default as it is.
unfoldable pub parse_int_param : Param → ℕ → ℕ → ℕ → ℕ
parse_int_param absent default lo hi = clamp lo hi default
parse_int_param not_an_int default lo hi = default
parse_int_param negative default lo hi = clamp lo hi 0
parse_int_param (int n) default lo hi = clamp lo hi n

-- `OverviewSerializer`
pub record Overview : Type 0 where
  pub user_summary : UserData
  pub subscription : Option SubscriptionData
  pub usage : UsageSummary
  pub api_keys_active : ℕ

abbrev maybe_subscription : Env → Option Subscription → Action (Option SubscriptionData)
maybe_subscription e none = pure none
maybe_subscription e (some sub) = do pure (some (← subscription_data e sub))

-- `OverviewView.get`
unfoldable pub overview_view : Env → User → Action (Payload Overview)
overview_view e u = do
  sub ← gets (get_active_subscription u.id)
  content ← maybe_subscription e sub
  usage ← gets (usage_summary e (some u.id) 30)
  keys ← gets (λ db. count (is_users_active_key u.id) db.api_keys)
  pure (
      success
        (some (record {
          user_summary = user_data e u;
          subscription = content;
          usage = usage;
          api_keys_active = keys;
        }))
        "" 200)

-- `UsageSummaryView.get`
unfoldable pub usage_summary_view : Env → User → Param → Action (Payload UsageSummary)
usage_summary_view e u days = do
  content ← gets (usage_summary e (some u.id) (parse_int_param days 30 1 90))
  pure (success (some content) "" 200)

-- `DailyUsageChartView.get`
unfoldable pub daily_chart_view : Env → User → Param → Action (Payload (List Point))
daily_chart_view e u days = do
  content ← gets (daily_chart e (some u.id) (parse_int_param days 30 1 90))
  pure (success (some content) "" 200)

-- `MonthlyUsageChartView.get`
unfoldable pub monthly_chart_view : Env → User → Param → Action (Payload (List Point))
monthly_chart_view e u months = do
  content ← gets (monthly_chart e (some u.id) (parse_int_param months 6 1 12))
  pure (success (some content) "" 200)

-- `RecentRequestsView.get`
unfoldable pub recent_requests_view : User → Param → Action (Payload (List RequestLog))
recent_requests_view u limit = do
  content ← gets (recent_requests u.id (parse_int_param limit 20 1 100))
  pure (success (some content) "" 200)

-- `SystemOverviewSerializer`
pub record SystemOverview : Type 0 where
  pub usage : UsageSummary
  pub api_keys_active : ℕ
  pub users_total : ℕ

-- `SystemOverviewView.get`
unfoldable pub system_overview_view : Env → Action (Payload SystemOverview)
system_overview_view e = do
  usage ← gets (usage_summary e none 30)
  keys ← gets (λ db. count is_active db.api_keys)
  users ← gets (λ db. length db.users)
  pure (
      success (some (record { usage = usage; api_keys_active = keys; users_total = users })) "" 200)

-- `SystemDailyChartView.get`
unfoldable pub system_daily_chart_view : Env → Param → Action (Payload (List Point))
system_daily_chart_view e days = do
  content ← gets (daily_chart e none (parse_int_param days 30 1 90))
  pure (success (some content) "" 200)

-- `SystemMonthlyChartView.get`
unfoldable pub system_monthly_chart_view : Env → Param → Action (Payload (List Point))
system_monthly_chart_view e months = do
  content ← gets (monthly_chart e none (parse_int_param months 6 1 12))
  pure (success (some content) "" 200)
