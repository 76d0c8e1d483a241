-- ===== src/Subscriptions/Tasks.antt =====
-- apps/subscriptions/tasks.py, less the log line.
use saas_backend_api.Prelude.{ℕ}
use saas_backend_api.Store.{Env, Action}
use saas_backend_api.Subscriptions.Services.{expire_due_subscriptions}

-- `expire_due_subscriptions_task`
unfoldable pub expire_due_subscriptions_task : Env → Action ℕ
expire_due_subscriptions_task e = expire_due_subscriptions e
