-- ===== src/Subscriptions/Middleware.antt =====
-- apps/subscriptions/middleware.py.
use mathlib.Core.Option
use saas_backend_api.Prelude.{Option, none, some}
use saas_backend_api.Users.Models.{User}
use saas_backend_api.Subscriptions.Models.{Subscription}
use saas_backend_api.Subscriptions.Selectors.{get_active_subscription, plan_by_id}
use saas_backend_api.Common.Requests.{Request, Answering}
use saas_backend_api.Store.{Db}

abbrev with_subscription : Option Subscription → Db → Request → Request
with_subscription none db request = request
with_subscription (some sub) db request = record request {
  subscription = some sub;
  subscription_plan_slug = Option.map (λ p. p.slug) (plan_by_id sub.plan db);
}

abbrev with_user_subscription : Option User → Db → Request → Request
with_user_subscription none db request = request
with_user_subscription (some user) db request =
    with_subscription (get_active_subscription user.id db) db request

-- `SubscriptionContextMiddleware.__call__`; the user is the one that the request has on entry.
unfoldable pub subscription_context_middleware : Answering → Answering
subscription_context_middleware get_response request s =
    get_response
      (with_user_subscription request.user s.db
        (record request { subscription = none; subscription_plan_slug = some "free" }))
      s
