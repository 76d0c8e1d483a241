-- ===== src/Api/Privacy.antt =====
-- What a user reads of the service rests on that user's own rows and the plans.
use saas_backend_api.ApiKeys.Services.{is_users_active_key}
use saas_backend_api.Clock.{date_of, day}
use saas_backend_api.Prelude.{
  [], ◌∷◌, ℕ, String, Bool, true, false, some, List, ◌≡◌, refl, ap, arith, inl, inr, select,
  first-agrees, select-agrees, ◌==◌, sym, ◌-◌, ◌∙◌, ◌*◌, Option-cases, count, count-agrees,
}
use saas_backend_api.Users.Models.{User}
use saas_backend_api.Users.Views.{me_view}
use saas_backend_api.Store.{Db, Env, State, Action}
use saas_backend_api.Subscriptions.Models.{Subscription, UsageQuota}
use saas_backend_api.Subscriptions.Selectors.{
  get_active_subscription, get_current_quota, is_users_active, latest_quota, is_subs_current,
  plan_by_id,
}
use saas_backend_api.Subscriptions.Views.{plan_list_view, my_subscription_view, subscription_data}
use saas_backend_api.ApiKeys.Views.{api_key_list_view}
use saas_backend_api.Authentication.Views.{session_list_view}
use saas_backend_api.Analytics.Selectors.{
  usage_summary, daily_chart, monthly_chart, recent_requests, log_in_scope, usage_in_scope,
  is_recent, is_since, is_charted, chart_start, earliest_day,
}
use saas_backend_api.Dashboard.Views.{
  overview_view, usage_summary_view, daily_chart_view, monthly_chart_view, recent_requests_view,
  parse_int_param,
}
use saas_backend_api.Api.Endpoints.{Endpoint}
use saas_backend_api.Api.Dispatch.{respond}

-- The reading methods that are not the staff's.
unfoldable pub is_own_read : Endpoint → Bool
is_own_read Endpoint.session_list = true
is_own_read Endpoint.me = true
is_own_read Endpoint.plan_list = true
is_own_read Endpoint.my_subscription = true
is_own_read Endpoint.api_key_list = true
is_own_read Endpoint.overview = true
is_own_read (Endpoint.usage_summary days) = true
is_own_read (Endpoint.daily_chart days) = true
is_own_read (Endpoint.monthly_chart months) = true
is_own_read (Endpoint.recent_requests limit) = true
is_own_read _ = false

-- The tables agree on the plans and on the rows of the user `v`; of the quotas, on those of the
-- active subscription.
pub record IsAlike (v : ℕ) (a b : Db) : Type 0 where
  pub plans : a.plans ≡ b.plans
  pub keys : select (λ k. k.user == v) a.api_keys ≡ select (λ k. k.user == v) b.api_keys
  pub sessions : select (λ r. r.user == v) a.sessions ≡ select (λ r. r.user == v) b.sessions
  pub subscriptions :
      select (λ s. s.user == v) a.subscriptions ≡ select (λ s. s.user == v) b.subscriptions
  pub quotas :
      (sub : Subscription)
      → get_active_subscription v a ≡ some sub
      → select (λ q. q.subscription == sub.id) a.quotas
        ≡ select (λ q. q.subscription == sub.id) b.quotas
  pub logs :
      select (log_in_scope (some v)) a.request_logs ≡ select (log_in_scope (some v)) b.request_logs
  pub usages :
      select (usage_in_scope (some v)) a.daily_usages
      ≡ select (usage_in_scope (some v)) b.daily_usages

latest_quota-select :
    (now id : ℕ) (qs : List UsageQuota)
    → latest_quota (is_subs_current now id) (select (λ q. q.subscription == id) qs)
      ≡ latest_quota (is_subs_current now id) qs
latest_quota-select now id [] = refl
latest_quota-select now id (q ∷ qs) = ground (arith, latest_quota-select now id qs)

module _ (v : ℕ) (a b : Db) (h : IsAlike v a b) where
  active-agrees : get_active_subscription v a ≡ get_active_subscription v b
  unfolding get_active_subscription
  active-agrees =
      first-agrees (is_users_active v) (λ s. s.user == v) (λ s is. ground (arith, is))
        a.subscriptions b.subscriptions h.subscriptions

  keys-agree : count (is_users_active_key v) a.api_keys ≡ count (is_users_active_key v) b.api_keys
  keys-agree =
      count-agrees (is_users_active_key v) (λ k. k.user == v) (λ k is. ground (arith, is))
        a.api_keys b.api_keys h.keys

  quota-agrees :
      (now : ℕ) (sub : Subscription)
      → get_active_subscription v a ≡ some sub
      → get_current_quota now sub a ≡ get_current_quota now sub b
  unfolding get_current_quota
  quota-agrees now sub own =
      sym (latest_quota-select now sub.id a.quotas)
      ∙ ap (latest_quota (is_subs_current now sub.id)) (h.quotas sub own)
      ∙ latest_quota-select now sub.id b.quotas

  summary-agrees :
      (e : Env) (days : ℕ) → usage_summary e (some v) days a ≡ usage_summary e (some v) days b
  unfolding usage_summary
  summary-agrees e days =
      rw
        (select-agrees (is_recent (e.now - days * day) (some v)) (log_in_scope (some v))
          (λ r is. ground (arith, is)) a.request_logs b.request_logs h.logs)
        refl

  daily-agrees :
      (e : Env) (days : ℕ) → daily_chart e (some v) days a ≡ daily_chart e (some v) days b
  unfolding daily_chart
  daily-agrees e days =
      rw
        (select-agrees (is_since (chart_start e.now days) (some v)) (log_in_scope (some v))
          (λ r is. ground (arith, is)) a.request_logs b.request_logs h.logs)
        refl

  monthly-agrees :
      (e : Env) (months : ℕ) → monthly_chart e (some v) months a ≡ monthly_chart e (some v) months b
  unfolding monthly_chart
  monthly-agrees e months =
      rw
        (select-agrees (is_charted (earliest_day (date_of e.now) months) (some v))
          (usage_in_scope (some v)) (λ r is. ground (arith, is)) a.daily_usages b.daily_usages
          h.usages)
        refl

module _ (e : Env) (v : ℕ) (s t : State) (h : IsAlike v s.db t.db) where
  subscription_data-agrees :
      (sub : Subscription)
      → get_active_subscription v s.db ≡ some sub
      → ((subscription_data e sub s).0 ≡ (subscription_data e sub t).0)
        × ((subscription_data e sub s).1 ≡ s)
        × ((subscription_data e sub t).1 ≡ t)
  unfolding subscription_data
  subscription_data-agrees sub own = elim (Option-cases (plan_by_id sub.plan s.db)) [
    | inl missing ↦ ground (arith, missing, h.plans)
    | inr (plan, found) ↦ ground (arith, found, h.plans, quota-agrees v s.db t.db h e.now sub own)
  ]

module _ {Tokens : Type 0} (post : String → Action Tokens) (e : Env) (u : User) where
  -- What the reading views answer to a user, the staff's ones left aside, rests on nothing but the
  -- plans and that user's own rows: in two states that agree on these the answers are the same,
  -- errors included, whatever the rows of the others are; and a reading view changes no state.
  pub respond-private :
      (r : Endpoint) (s t : State)
      → is_own_read r ≡ true
      → IsAlike u.id s.db t.db
      → ((respond post e (some u) r s).0 ≡ (respond post e (some u) r t).0)
        × ((respond post e (some u) r s).1 ≡ s)
  unfolding respond is_own_read me_view session_list_view plan_list_view my_subscription_view
      api_key_list_view overview_view usage_summary_view daily_chart_view monthly_chart_view
      recent_requests_view recent_requests
  respond-private (Endpoint.register sent) s t o h = absurd (ground arith)
  respond-private (Endpoint.log_in check meta) s t o h = absurd (ground arith)
  respond-private (Endpoint.refresh token) s t o h = absurd (ground arith)
  respond-private (Endpoint.log_out token) s t o h = absurd (ground arith)
  respond-private (Endpoint.verify_email token) s t o h = absurd (ground arith)
  respond-private (Endpoint.resend_verification email) s t o h = absurd (ground arith)
  respond-private (Endpoint.password_reset_request email) s t o h = absurd (ground arith)
  respond-private (Endpoint.password_reset_confirm sent) s t o h = absurd (ground arith)
  respond-private Endpoint.session_list s t o h = ground (arith, h.sessions)
  respond-private (Endpoint.session_revoke id) s t o h = absurd (ground arith)
  respond-private Endpoint.me s t o h = ground arith
  respond-private (Endpoint.me_patch first_name last_name) s t o h = absurd (ground arith)
  respond-private (Endpoint.change_password current new) s t o h = absurd (ground arith)
  respond-private (Endpoint.user_list paginate) s t o h = absurd (ground arith)
  respond-private Endpoint.plan_list s t o h = ground (arith, h.plans)
  respond-private Endpoint.my_subscription s t o h =
      elim (Option-cases (get_active_subscription u.id s.db)) [
        | inl free ↦ ground (arith, free, active-agrees u.id s.db t.db h)
        | inr (sub, found) ↦ ground (
          arith,
          found,
          active-agrees u.id s.db t.db h,
          subscription_data-agrees e u.id s t h sub found,
        )
      ]
  respond-private (Endpoint.subscribe slug) s t o h = absurd (ground arith)
  respond-private Endpoint.cancel_subscription s t o h = absurd (ground arith)
  respond-private Endpoint.api_key_list s t o h = ground (arith, h.keys)
  respond-private (Endpoint.api_key_create name) s t o h = absurd (ground arith)
  respond-private (Endpoint.api_key_revoke id) s t o h = absurd (ground arith)
  respond-private (Endpoint.api_key_rotate id) s t o h = absurd (ground arith)
  respond-private Endpoint.overview s t o h =
      let usage = summary-agrees u.id s.db t.db h e 30 in
      let keys = keys-agree u.id s.db t.db h in
      elim (Option-cases (get_active_subscription u.id s.db)) [
        | inl free ↦ ground (arith, free, active-agrees u.id s.db t.db h, usage, keys)
        | inr (sub, found) ↦ ground (
          arith,
          found,
          active-agrees u.id s.db t.db h,
          subscription_data-agrees e u.id s t h sub found,
          usage,
          keys,
        )
      ]
  respond-private (Endpoint.usage_summary days) s t o h =
      ground (arith, summary-agrees u.id s.db t.db h e (parse_int_param days 30 1 90))
  respond-private (Endpoint.daily_chart days) s t o h =
      ground (arith, daily-agrees u.id s.db t.db h e (parse_int_param days 30 1 90))
  respond-private (Endpoint.monthly_chart months) s t o h =
      ground (arith, monthly-agrees u.id s.db t.db h e (parse_int_param months 6 1 12))
  respond-private (Endpoint.recent_requests limit) s t o h = ground (arith, h.logs)
  respond-private Endpoint.system_overview s t o h = absurd (ground arith)
  respond-private (Endpoint.system_daily_chart days) s t o h = absurd (ground arith)
  respond-private (Endpoint.system_monthly_chart months) s t o h = absurd (ground arith)
  respond-private Endpoint.health s t o h = absurd (ground arith)
