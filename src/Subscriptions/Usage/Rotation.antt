-- ===== src/Subscriptions/Usage/Rotation.antt =====
-- `record_request` when the period of the last quota is over: `_current_or_rotate_quota` of
-- apps/subscriptions/services.py opens the next one.
use saas_backend_api.Prelude.{
  ℕ, min, zero, suc, ◌+◌, ◌*◌, ◌≤◌, ◌<◌, ◌≡◌, ◌≢◌, refl, false, some, none, List, [], ◌∷◌, All,
  arith, Bool-cases, inl, inr, ◌==◌, ◌&&◌, exists,
}
use saas_backend_api.Clock.{day}
use saas_backend_api.Store.{Env, State, ok}
use saas_backend_api.Subscriptions.Models.{Plan, Subscription, UsageQuota, period_days}
use saas_backend_api.Subscriptions.Selectors.{
  get_active_subscription, get_current_quota, plan_by_id, latest_quota, is_subs_current,
}
use saas_backend_api.Subscriptions.Services.{
  max_integer, counted, current_or_rotate_quota, record_request, new_quota,
}
use saas_backend_api.Subscriptions.Quotas.{full-above, counted-above}
use saas_backend_api.Subscriptions.Table.{first-id-lt, IsUnique-mono}
use saas_backend_api.Subscriptions.Enrollment.{IsValid}
use saas_backend_api.Subscriptions.Usage.{IsBilled, run_requests, run_requests-limit}

-- Every quota ends after it starts.
abbrev pub ArePeriods : List UsageQuota → Type 0
ArePeriods = All (λ q. q.period_start < q.period_end)

-- Without a current quota, none starts now.
exists-lapsed :
    (now sub : ℕ) (qs : List UsageQuota)
    → ArePeriods qs
    → latest_quota (is_subs_current now sub) qs ≡ none
    → exists (λ r. r.subscription == sub && r.period_start == now) qs ≡ false
exists-lapsed now sub [] h e = refl
exists-lapsed now sub (q ∷ qs) (h, hs) e = elim (Bool-cases (is_subs_current now sub q)) [
  | inl here ↦ ground arith
  | inr other ↦ ground (arith, h, exists-lapsed now sub qs hs)
]

module _ (e : Env) (user : ℕ) (sub : Subscription) (plan : Plan) (s : State) (v : IsValid s)
    (subscribed : get_active_subscription user s.db ≡ some sub)
    (on_plan : plan_by_id sub.plan s.db ≡ some plan)
    (lapsed : get_current_quota e.now sub s.db ≡ none) (periods : ArePeriods s.db.quotas)
    (limited : plan.request_quota ≢ 0) where
  -- The quota that the first request of a period opens, with that request counted.
  abbrev opened : UsageQuota
  opened = counted (new_quota s.draws sub.id e.now (e.now + period_days plan * day))

  abbrev rotated : State
  rotated = record s { draws = suc s.draws; db = record s.db { quotas = opened ∷ s.db.quotas } }

  record_request-rotates : record_request e user s ≡ (ok tt, rotated)
  unfolding record_request current_or_rotate_quota get_current_quota
  record_request-rotates = ground (
    arith,
    exists-lapsed e.now sub.id s.db.quotas periods lapsed,
    full-above s.draws s.draws s.db.quotas (omega arith) v.ordered,
    counted-above s.draws s.draws s.db.quotas (omega arith) v.ordered,
  )

  sub-id-lt : sub.id < s.draws
  unfolding get_active_subscription
  sub-id-lt = first-id-lt _ s.draws s.db.subscriptions sub v.unique subscribed

  rotated-IsBilled : IsBilled e user sub plan opened rotated
  unfolding get_current_quota get_active_subscription
  rotated-IsBilled = record {
    valid = record {
      unique = IsUnique-mono s.draws (suc s.draws) _ (omega arith) v.unique;
      ordered = (omega arith, sub-id-lt, v.ordered);
    };
    subscribed = subscribed;
    on_plan = on_plan;
    metered = ground (arith, lapsed);
  }

  -- When the period of the last quota is over, the whole limit of the plan is there again: of `n`
  -- requests as many are counted as the plan's limit, or all of them if that is more. The tables
  -- are valid, every quota ends after it starts, the subscription is active, its plan has a limit,
  -- which fits the column, and no quota is current.
  pub run_requests-next_period :
      (n : ℕ)
      → plan.request_quota ≤ max_integer
      → (run_requests e user n s).0 ≡ min n plan.request_quota
  unfolding run_requests
  run_requests-next_period zero fits = omega arith
  run_requests-next_period (suc n) fits = ground (
    arith,
    record_request-rotates,
    run_requests-limit e user sub plan opened n rotated rotated-IsBilled limited fits,
  )
