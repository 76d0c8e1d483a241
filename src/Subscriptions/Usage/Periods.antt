-- ===== src/Subscriptions/Usage/Periods.antt =====
-- `record_request` over the whole period of a quota, and in the next one.
use saas_backend_api.Prelude.{
  ℕ, min, suc, ◌-◌, ◌≤◌, ◌<◌, ◌≡◌, ◌≢◌, refl, true, false, some, none, List, [], ◌∷◌, length, All,
  arith, Bool-cases, inl, inr,
}
use saas_backend_api.Clock.{fifty_years_on}
use saas_backend_api.Store.{Env, State, ok, err}
use saas_backend_api.Subscriptions.Models.{Plan, Subscription, UsageQuota, free_slug}
use saas_backend_api.Subscriptions.Selectors.{
  get_current_quota, get_plan_by_slug, plan_by_id, latest_quota, is_subs_current,
}
use saas_backend_api.Subscriptions.Services.{
  max_integer, counted, is_over, record_request, new_quota, new_subscription, enroll_in_free_plan,
}
use saas_backend_api.Subscriptions.Quotas.{AreOrdered}
use saas_backend_api.Subscriptions.Enrollment.{
  IsValid, IsFree, created, created-IsValid, get_active-created, enroll_in_free_plan_lem,
}
use saas_backend_api.Subscriptions.Usage.{
  IsBilled, counted_in, counted_in-IsBilled, record_request_counts, record_request_refuses,
}

abbrev pub at : ℕ → Env → Env
at t e = record e { now = t }

-- Requests of a user at the given times: how many were counted, and the state after them.
unfoldable pub run_at : Env → ℕ → List ℕ → State → ℕ × State
run_at e user [] s = (0, s)
run_at e user (t ∷ ts) s =
    let (r, s') = record_request (at t e) user s in
    let (k, s'') = run_at e user ts s' in (elim r [ ok _ ↦ suc k | err _ ↦ k ], s'')

abbrev pub Within : UsageQuota → ℕ → Type 0
Within q t = (q.period_start ≤ t) × (t < q.period_end)

-- The quota is the user's at every time of its period.
abbrev pub BilledThroughout : Env → ℕ → Subscription → Plan → UsageQuota → State → Type 0
BilledThroughout e user sub plan q s = (t : ℕ) → Within q t → IsBilled (at t e) user sub plan q s

module _ (e : Env) (user : ℕ) (sub : Subscription) (plan : Plan) (limited : plan.request_quota ≢ 0)
    (fits : plan.request_quota ≤ max_integer) where
  run_at-full :
      (q : UsageQuota) (ts : List ℕ) (s : State)
      → BilledThroughout e user sub plan q s
      → is_over plan q ≡ true
      → All (Within q) ts
      → run_at e user ts s ≡ (0, s)
  unfolding run_at
  run_at-full q [] s billed over h = refl
  run_at-full q (t ∷ ts) s billed over (h, hs) = ground (
    arith,
    record_request_refuses (at t e) user sub plan q s (billed t h) over,
    run_at-full q ts s billed over hs,
  )

  run_at-limit :
      (q : UsageQuota) (ts : List ℕ) (s : State)
      → BilledThroughout e user sub plan q s
      → All (Within q) ts
      → (run_at e user ts s).0 ≡ min (length ts) (plan.request_quota - q.requests_used)
  unfolding run_at
  run_at-limit q [] s billed h = omega arith
  run_at-limit q (t ∷ ts) s billed (h, hs) = elim (Bool-cases (is_over plan q)) [
    | inl over ↦ rw (run_at-full q (t ∷ ts) s billed over (h, hs)) (ground arith)
    | inr under ↦ ground (
      arith,
      record_request_counts (at t e) user sub plan q s (billed t h) under,
      run_at-limit (counted q) ts (counted_in q s)
          (λ i w. counted_in-IsBilled (at i e) user sub plan q s (billed i w)) hs,
    )
  ]

-- A new subscription has no quota, current or not.
latest_quota-fresh :
    (t k n : ℕ) (qs : List UsageQuota)
    → n ≤ k
    → AreOrdered n qs
    → latest_quota (is_subs_current t k) qs ≡ none
latest_quota-fresh t k n [] le h = refl
latest_quota-fresh t k n (q ∷ qs) le h = ground (arith, latest_quota-fresh t k q.id qs)

module _ (e : Env) (user : ℕ) (plan : Plan) (end : ℕ) (s : State) (v : IsValid s)
    (free : IsFree user s) (ends : fifty_years_on e.now ≡ some end)
    (keyed : plan_by_id plan.id s.db ≡ some plan) where
  abbrev free_quota : UsageQuota
  free_quota = new_quota (suc s.draws) s.draws e.now end

  created-BilledThroughout :
      BilledThroughout e user
        (new_subscription e user plan false s.draws)
        plan
        free_quota
        (created e user plan false end s)
  unfolding get_current_quota
  created-BilledThroughout t w = record {
    valid = created-IsValid e user plan false end s v free;
    subscribed = get_active-created e user plan false end s;
    on_plan = keyed;
    metered =
        ground (arith, w, latest_quota-fresh t s.draws s.draws s.db.quotas (omega arith) v.ordered);
  }

  -- After a user was enrolled in a Free plan with a limit, of their requests at any times of the
  -- next fifty years as many are counted altogether as the limit, or all of them if that is more:
  -- the quota does not start again each month. The tables are valid, the user had no active
  -- subscription, the plan is found by its slug and its key, its limit fits the column, and the
  -- date exists fifty years on.
  pub free_quota-lifetime :
      (ts : List ℕ)
      → get_plan_by_slug free_slug s.db ≡ some plan
      → plan.request_quota ≢ 0
      → plan.request_quota ≤ max_integer
      → All (λ t. (e.now ≤ t) × (t < end)) ts
      → (run_at e user ts (enroll_in_free_plan e user s).1).0 ≡ min (length ts) plan.request_quota
  free_quota-lifetime ts found limited fits within =
      let sub = new_subscription e user plan false s.draws in
      let counts =
        run_at-limit e user sub plan limited fits free_quota ts (created e user plan false end s)
          created-BilledThroughout within in
      rw (enroll_in_free_plan_lem e user plan end s v free found ends) (omega (arith, counts))
