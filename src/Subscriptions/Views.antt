-- ===== src/Subscriptions/Views.antt =====
-- apps/subscriptions/serializers.py and apps/subscriptions/views.py.
use saas_backend_api.Prelude.{
  ℕ, String, Bool, Option, none, some, List, [], ◌∷◌, leb, if◌then◌else◌, select,
}
use saas_backend_api.Common.Errors.{not_found}
use saas_backend_api.Common.Responses.{Payload, success}
use saas_backend_api.Users.Models.{User}
use saas_backend_api.Store.{Env, Action, pure, gets, or_raise, ◌>>=◌, error}
use saas_backend_api.Subscriptions.Models.{
  Plan, Subscription, SubscriptionStatus, UsageQuota, Remaining, quota_remaining,
}
use saas_backend_api.Subscriptions.Selectors.{get_active_subscription, get_current_quota}
use saas_backend_api.Subscriptions.Services.{plan_of, subscribe, cancel}

-- `UsageQuotaSerializer`
pub record QuotaData : Type 0 where
  pub id : ℕ
  pub period_start : ℕ
  pub period_end : ℕ
  pub requests_used : ℕ
  pub quota_remaining : Remaining

abbrev pub quota_data : Plan → UsageQuota → QuotaData
quota_data plan q = record {
  id = q.id;
  period_start = q.period_start;
  period_end = q.period_end;
  requests_used = q.requests_used;
  quota_remaining = quota_remaining plan q;
}

-- `SubscriptionSerializer`; `PlanSerializer` gives every field of the plan.
pub record SubscriptionData : Type 0 where
  pub id : ℕ
  pub plan : Plan
  pub status : SubscriptionStatus
  pub started_at : ℕ
  pub expires_at : Option ℕ
  pub canceled_at : Option ℕ
  pub auto_renew : Bool
  pub current_quota : Option QuotaData
  pub created_at : ℕ

abbrev maybe_quota : Plan → Option UsageQuota → Option QuotaData
maybe_quota plan none = none
maybe_quota plan (some q) = some (quota_data plan q)

unfoldable pub subscription_data : Env → Subscription → Action SubscriptionData
subscription_data e sub = do
  plan ← plan_of sub
  q ← gets (get_current_quota e.now sub)
  pure (record {
    id = sub.id;
    plan = plan;
    status = sub.status;
    started_at = sub.started_at;
    expires_at = sub.expires_at;
    canceled_at = sub.canceled_at;
    auto_renew = sub.auto_renew;
    current_quota = maybe_quota plan q;
    created_at = sub.created_at;
  })

-- `order_by("price")`, on rows of which equal prices keep their order.
unfoldable pub insert_by_price : Plan → List Plan → List Plan
insert_by_price p [] = p ∷ []
insert_by_price p (q ∷ ps) = if leb p.price q.price then p ∷ q ∷ ps else q ∷ insert_by_price p ps

unfoldable pub order_by_price : List Plan → List Plan
order_by_price [] = []
order_by_price (p ∷ ps) = insert_by_price p (order_by_price ps)

-- `PlanListView.get`
unfoldable pub plan_list_view : Action (Payload (List Plan))
plan_list_view = do
  plans ← gets (λ db. order_by_price (select (λ p. p.is_active) db.plans))
  pure (success (some plans) "" 200)

-- `MySubscriptionView.get`
unfoldable pub my_subscription_view : Env → User → Action (Payload SubscriptionData)
my_subscription_view e u = do
  found ← gets (get_active_subscription u.id)
  sub ← or_raise found (error not_found "No active subscription." "no_active_subscription")
  content ← subscription_data e sub
  pure (success (some content) "" 200)

-- `SubscribeView.post`
unfoldable pub subscribe_view : Env → User → String → Action (Payload SubscriptionData)
subscribe_view e u plan_slug = do
  sub ← subscribe e u.id plan_slug
  content ← subscription_data e sub
  pure (success (some content) "Subscription updated." 200)

-- `CancelSubscriptionView.post`
unfoldable pub cancel_view : Env → User → Action (Payload SubscriptionData)
cancel_view e u = do
  sub ← cancel e u.id
  content ← subscription_data e sub
  pure (success (some content) "Subscription canceled." 200)
