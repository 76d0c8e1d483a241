-- ===== src/Analytics/Tasks.antt =====
-- apps/analytics/tasks.py, less the log line.
use saas_backend_api.Prelude.{ℕ, String, Option, none, some, if◌then◌else◌, str_eq}
use saas_backend_api.Common.Errors.{value_error}
use saas_backend_api.Store.{Env, Action, pure, or_raise, ◌>>=◌}
use saas_backend_api.Analytics.Selectors.{rollup_daily_usage}

-- `date.fromisoformat(text) if text else None`; the function is a parameter, and `none` stands for
-- its `ValueError`.
abbrev pub target_of : (String → Option ℕ) → Option String → Action (Option ℕ)
target_of fromisoformat none = pure none
target_of fromisoformat (some text) =
    if str_eq text ""
    then pure none
    else or_raise (fromisoformat text) value_error >>= λ date. pure (some date)

-- `rollup_daily_usage_task`
unfoldable pub rollup_daily_usage_task : Env → (String → Option ℕ) → Option String → Action ℕ
rollup_daily_usage_task e fromisoformat target_date_iso = do
  target ← target_of fromisoformat target_date_iso
  rollup_daily_usage e target
