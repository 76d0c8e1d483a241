-- ===== src/Subscriptions/Usage.antt =====
-- `record_request` of apps/subscriptions/services.py, once and in a row.
pub mod Concurrent
pub mod Periods
pub mod Rotation
use saas_backend_api.Prelude.{
  ℕ, min, zero, suc, ◌-◌, ◌≤◌, ◌<◌, ◌≡◌, refl, true, false, some, ◌==◌, leb, arith, exists,
  update_where, inl, inr, ◌⊎◌, Bool-cases, ◌≢◌, leb-false, ◌∙◌, ◌&&◌,
}
use saas_backend_api.Store.{Env, State, ok, err}
use saas_backend_api.Subscriptions.Models.{Plan, Subscription, UsageQuota, left, quota_remaining}
use saas_backend_api.Subscriptions.Selectors.{
  is_subs_current, get_active_subscription, get_current_quota, plan_by_id,
}
use saas_backend_api.Subscriptions.Services.{
  counted, max_integer, is_over, quota_error, current_or_rotate_quota, record_request,
}
use saas_backend_api.Subscriptions.Quotas.{AreOrdered-counted, full-found, latest_quota-counted}
use saas_backend_api.Subscriptions.Enrollment.{IsValid}

-- The user has an active subscription with a plan and a quota for the current period.
pub record IsBilled (e : Env) (user : ℕ) (sub : Subscription) (plan : Plan) (q : UsageQuota)
    (s : State) : Type 0 where
  pub valid : IsValid s
  pub subscribed : get_active_subscription user s.db ≡ some sub
  pub on_plan : plan_by_id sub.plan s.db ≡ some plan
  pub metered : get_current_quota e.now sub s.db ≡ some q

-- The state after a request was counted in the quota.
abbrev pub counted_in : UsageQuota → State → State
counted_in q s = record s {
  db = record s.db { quotas = update_where (λ r. r.id == q.id) counted s.db.quotas };
}

module _ (e : Env) (user : ℕ) (sub : Subscription) (plan : Plan) (q : UsageQuota) (s : State)
    (billed : IsBilled e user sub plan q s) where
  pub not_full :
      q.requests_used < max_integer
      → exists (λ r. r.id == q.id && leb max_integer r.requests_used) s.db.quotas ≡ false
  unfolding get_current_quota
  not_full lt =
      full-found (is_subs_current e.now sub.id) s.draws s.db.quotas q billed.valid.ordered
        billed.metered
      ∙ leb-false max_integer q.requests_used lt

  pub record_request_counts :
      is_over plan q ≡ false
      → q.requests_used < max_integer
      → record_request e user s ≡ (ok tt, counted_in q s)
  unfolding record_request current_or_rotate_quota
  record_request_counts under lt =
      ground (arith, billed.subscribed, billed.on_plan, billed.metered, not_full lt)

  pub record_request_refuses :
      is_over plan q ≡ true → record_request e user s ≡ (err (quota_error plan q), s)
  unfolding record_request current_or_rotate_quota
  record_request_refuses over = ground (arith, billed.subscribed, billed.on_plan, billed.metered)

  pub counted_in-IsBilled : IsBilled e user sub plan (counted q) (counted_in q s)
  unfolding get_current_quota get_active_subscription
  counted_in-IsBilled = record {
    valid = record {
      unique = billed.valid.unique;
      ordered = AreOrdered-counted s.draws q.id s.db.quotas billed.valid.ordered;
    };
    subscribed = billed.subscribed;
    on_plan = billed.on_plan;
    metered =
        latest_quota-counted e.now sub.id s.draws s.db.quotas q billed.valid.ordered billed.metered;
  }

-- A request is counted, and changes nothing but its quota's counter, exactly if something is left
-- of the quota; otherwise it is refused with a 429 that tells the plan, the limit and the use, and
-- nothing changes.
pub record_request_by_remaining :
    (e : Env) (user : ℕ) (sub : Subscription) (plan : Plan) (q : UsageQuota) (s : State)
    → IsBilled e user sub plan q s
    → q.requests_used < max_integer
    → ((quota_remaining plan q ≢ left 0) × (record_request e user s ≡ (ok tt, counted_in q s)))
      ⊎ ((quota_remaining plan q ≡ left 0)
          × (record_request e user s ≡ (err (quota_error plan q), s)))
unfolding quota_remaining
record_request_by_remaining e user sub plan q s billed lt = elim (Bool-cases (is_over plan q)) [
  | inl over ↦ inr (ground arith, record_request_refuses e user sub plan q s billed over)
  | inr under ↦ inl (ground arith, record_request_counts e user sub plan q s billed under lt)
]

-- `n` requests one after the other: how many were counted, and the state after them.
unfoldable pub run_requests : Env → ℕ → ℕ → State → ℕ × State
run_requests e user zero s = (0, s)
run_requests e user (suc n) s =
    let (r, s') = record_request e user s in
    let (k, s'') = run_requests e user n s' in (elim r [ ok _ ↦ suc k | err _ ↦ k ], s'')

run_requests-full :
    (e : Env) (user : ℕ) (sub : Subscription) (plan : Plan) (q : UsageQuota) (n : ℕ) (s : State)
    → IsBilled e user sub plan q s
    → is_over plan q ≡ true
    → run_requests e user n s ≡ (0, s)
unfolding run_requests
run_requests-full e user sub plan q zero s billed over = refl
run_requests-full e user sub plan q (suc n) s billed over = ground (
  arith,
  record_request_refuses e user sub plan q s billed over,
  run_requests-full e user sub plan q n s billed over,
)

-- Of `n` requests one after the other at one time, for a user whose subscription has a quota for
-- that time, exactly as many are counted as the quota has left, or all of them if that is more. The
-- plan has a limit, which fits the column.
pub run_requests-limit :
    (e : Env) (user : ℕ) (sub : Subscription) (plan : Plan) (q : UsageQuota) (n : ℕ) (s : State)
    → IsBilled e user sub plan q s
    → plan.request_quota ≢ 0
    → plan.request_quota ≤ max_integer
    → (run_requests e user n s).0 ≡ min n (plan.request_quota - q.requests_used)
unfolding run_requests
run_requests-limit e user sub plan q zero s billed limited fits = omega arith
run_requests-limit e user sub plan q (suc n) s billed limited fits =
    elim (Bool-cases (is_over plan q)) [
      | inl over ↦ rw (run_requests-full e user sub plan q (suc n) s billed over) (ground arith)
      | inr under ↦ ground (
        arith,
        record_request_counts e user sub plan q s billed under,
        run_requests-limit e user sub plan (counted q) n (counted_in q s)
            (counted_in-IsBilled e user sub plan q s billed),
      )
    ]
