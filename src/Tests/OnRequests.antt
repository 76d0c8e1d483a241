-- ===== src/Tests/OnRequests.antt =====
-- Witnesses for the properties of the middleware, the charts, the errors and the dashboard.
use saas_backend_api.Subscriptions.Services.{record_request}
use saas_backend_api.Common.Utils.{text_length, client_ip}
use saas_backend_api.Analytics.Buckets.{shown_at, requests_in, monthly_chart-by_month}
use mathlib.Core.Option
use saas_backend_api.Analytics.Months.{Ascends, shown, recorded}
use saas_backend_api.Common.Throttling.{get_cache_key, bucket}
use saas_backend_api.Clock.{date_of}
use saas_backend_api.Analytics.Charts.{is_on, tallies, daily_chart-tallies}
use saas_backend_api.Common.Handling.{StartsEmpty, handler-fails_iff}
use saas_backend_api.Analytics.Models.{RequestLog}
use saas_backend_api.Analytics.Rollup.{figures, measured, rollup_daily_usage-measures}
use saas_backend_api.Store.{State}
use saas_backend_api.Tests.Fixture.{bob, env, no_meta, installed, today}
use saas_backend_api.Common.Requests.{Response, Request}
use saas_backend_api.Analytics.Stack.{
  answer_as, stack-throttles_as_free, analytics-transparent, stack-logs_no_time, is_logged,
}
use saas_backend_api.Store.{Db}
use saas_backend_api.Analytics.Middleware.{
  middleware_stack, log_row, analytics_middleware, is_storable, with_log,
}
use saas_backend_api.Common.Handler.{Caught, custom_exception_handler, api, fields, errs}
use saas_backend_api.Analytics.Selectors.{
  target_or, rollup_daily_usage, daily_chart, is_charted, earliest_day, chart_start, monthly_chart,
}
use saas_backend_api.Prelude.{
  ◌≡◌, arith, refl, some, none, ◌∷◌, true, select, ℕ, ◌↔◌, ◌-◌, if◌then◌else◌, [], first, ends_with,
  ◌*◌, ◌+◌,
}

abbrev request : Request
request = record {
  method = "GET";
  path = "/api/v1/plans/";
  meta = no_meta;
  user = none;
  auth = none;
  request_id = none;
  duration_ms = none;
  subscription = none;
  subscription_plan_slug = none;
}

abbrev response : Response
response = record { status_code = 200; request_id = none }

analytics-transparent_example :
    let ((response', q), after) = answer_as bob response request installed in
    let (answer, s') = analytics_middleware env (answer_as bob response) request installed in
    (answer ≡ (response', q))
    × (s'.db.request_logs ≡ elim q.user [
      | none ↦ after.db.request_logs
      | some u ↦
          if is_logged env u q response' after
          then log_row env after.draws u q response' ∷ after.db.request_logs
          else after.db.request_logs
    ])
    × (s'.db ≡ elim q.user [
      | none ↦ after.db
      | some u ↦
          if is_logged env u q response' after
          then (record_request env u.id (with_log env u q response' after)).1.db
          else after.db
    ])
analytics-transparent_example = analytics-transparent env (answer_as bob response) request installed

stack-throttles_as_free_example :
    let ((_, q), _) = middleware_stack env "id" 12 (answer_as bob response) request installed in
    (q.user ≡ some bob) × (get_cache_key q.user q.subscription_plan_slug ≡ bucket "plan_free" 1 60)
stack-throttles_as_free_example =
    stack-throttles_as_free env "id" 12 bob response request installed refl

stored : is_storable env (log_row env installed.draws bob request response) ≡ true
unfolding text_length client_ip
stored = refl

stack-logs_no_time_example :
    let ((_, q), s') = middleware_stack env "id" 12 (answer_as bob response) request installed in
    (q.duration_ms ≡ some 12)
    × (Option.map (λ r. r.response_ms) (first (λ r. true) s'.db.request_logs) ≡ some 0)
unfolding ends_with
stack-logs_no_time_example =
    stack-logs_no_time env "id" 12 bob response request installed refl refl stored

-- Three requests of two days, one of them with an error.
abbrev log_at : ℕ → ℕ → RequestLog
log_at status t = record (log_row env 30 bob request response) {
  status_code = status;
  created_at = t;
}

abbrev logged : Db
logged = record installed.db {
  request_logs = log_at 200 today ∷ log_at 500 (today - 10) ∷ log_at 200 (today - 20) ∷ [];
  daily_usages =
      record {
        id = 1;
        user = 1;
        date = 739684;
        request_count = 3;
        error_count = 1;
        avg_response_ms = 0;
      }
      ∷ record {
        id = 2;
        user = 1;
        date = 739650;
        request_count = 4;
        error_count = 0;
        avg_response_ms = 0;
      }
      ∷ [];
}

daily_chart-tallies_example :
    daily_chart env (some 1) 7 logged ≡ tallies (some 1) 7 (chart_start today 7) logged.request_logs
daily_chart-tallies_example = daily_chart-tallies env (some 1) 7 logged

monthly_chart-by_month_example :
    let rows = select (is_charted (earliest_day (date_of today) 6) (some 1)) logged.daily_usages in
    (shown_at (2026 * 12 + 3) (monthly_chart env (some 1) 6 logged) ≡ requests_in 2026 3 rows)
    × Ascends 0 (monthly_chart env (some 1) 6 logged)
    × (shown (monthly_chart env (some 1) 6 logged) ≡ recorded rows)
monthly_chart-by_month_example =
    monthly_chart-by_month env (some 1) 6 2026 3 logged (omega arith) (omega arith)

abbrev caught : Caught
caught = api 400 "invalid" (fields (("email", errs []) ∷ []))

handler-fails_iff_example : (custom_exception_handler caught ≡ none) ↔ StartsEmpty caught
handler-fails_iff_example = handler-fails_iff caught

abbrev busy : State
busy = record installed { db = logged }

rollup_daily_usage-measures_example :
    let t = target_or env none in
    let s' = (rollup_daily_usage env none busy).1 in
    (figures 1 t s' ≡ measured (select (is_on (some 1) t) logged.request_logs) (figures 1 t busy))
    × (figures 1 739684 s' ≡ figures 1 739684 busy)
    × (figures 1 t (rollup_daily_usage env none s').1 ≡ figures 1 t s')
rollup_daily_usage-measures_example =
    rollup_daily_usage-measures env none 1 739684 busy (omega arith)
