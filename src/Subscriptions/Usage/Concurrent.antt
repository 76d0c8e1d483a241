-- ===== src/Subscriptions/Usage/Concurrent.antt =====
-- `record_request` by several workers at once: its check and its write as two steps, interleaved.
use saas_backend_api.Prelude.{
  ◌∙◌, sym, ℕ, suc, ◌+◌, ◌≤◌, ◌<◌, ◌≡◌, ◌≢◌, refl, arith, ap, List, length, if◌then◌else◌, All, ◌∷◌,
  [], some,
}
use saas_backend_api.Common.Errors.{Exc}
use saas_backend_api.Store.{Env, State, ok, err, Action, pure, gets, ◌>>=◌, ◌>>◌, raise_if}
use saas_backend_api.Subscriptions.Models.{Plan, Subscription, UsageQuota}
use saas_backend_api.Subscriptions.Selectors.{get_active_subscription, get_current_quota}
use saas_backend_api.Subscriptions.Services.{
  max_integer, counted, is_over, quota_error, plan_of, or_enroll, current_or_rotate_quota,
  increment_quota, record_request,
}
use saas_backend_api.Subscriptions.Usage.{IsBilled, counted_in, counted_in-IsBilled, not_full}

-- `record_request` up to its last statement: the check, which gives the quota that is charged.
unfoldable pub admit : Env → ℕ → Action ℕ
admit e user = do
  found ← gets (get_active_subscription user)
  sub ← or_enroll e user found
  quota ← current_or_rotate_quota e sub
  plan ← plan_of sub
  raise_if (is_over plan quota) (quota_error plan quota)
  pure quota.id

pub admit_then_write :
    (e : Env) (user : ℕ) (s : State)
    → record_request e user s ≡ (admit e user >>= increment_quota) s
unfolding record_request admit current_or_rotate_quota
admit_then_write e user s = ground arith

-- `ps` with one occurrence of `id` taken out is `qs`.
pub data Picks (id : ℕ) : List ℕ → List ℕ → Type 0 where
  head : (ps : List ℕ) → Picks id (id ∷ ps) ps
  tail : (x : ℕ) {ps qs : List ℕ} → Picks id ps qs → Picks id (x ∷ ps) (x ∷ qs)

-- The quotas that are to be charged for the requests admitted so far, how many were charged, and
-- the state.
pub record Running : Type 0 where
  pub pending : List ℕ
  pub written : ℕ
  pub state : State

-- One statement of some worker; a worker serves one request at a time.
pub data Step (e : Env) (user workers : ℕ) (r : Running) (t : Running) : Type 0 where
  admitted :
      (id : ℕ)
      → length r.pending < workers
      → (admit e user r.state).0 ≡ ok id
      → t ≡ record r { pending = id ∷ r.pending; state = (admit e user r.state).1 }
      → Step e user workers r t
  refused :
      (x : Exc)
      → (admit e user r.state).0 ≡ err x
      → t ≡ record r { state = (admit e user r.state).1 }
      → Step e user workers r t
  charged :
      (id : ℕ) (rest : List ℕ)
      → Picks id r.pending rest
      → t
        ≡ record { pending = rest; written = suc r.written; state = (increment_quota id r.state).1 }
      → Step e user workers r t

-- Any interleaving of such statements.
pub data Reach (e : Env) (user workers : ℕ) (r : Running) : Running → Type 0 where
  start : Reach e user workers r r
  next :
      {t u : Running}
      → Reach e user workers r t
      → Step e user workers t u
      → Reach e user workers r u

length-picked : {id : ℕ} {ps qs : List ℕ} → Picks id ps qs → length ps ≡ suc (length qs)
length-picked (head ps) = refl
length-picked (tail x p) = omega (arith, length-picked p)

All-picked :
    {id k : ℕ} {ps qs : List ℕ}
    → Picks id ps qs
    → All (λ x. x ≡ k) ps
    → (id ≡ k) × All (λ x. x ≡ k) qs
All-picked (head ps) h = (h.0, h.1)
All-picked (tail x p) h = let (a, b) = All-picked p h.1 in (a, (h.0, b))

module _ (e : Env) (user workers : ℕ) (sub : Subscription) (plan : Plan) (q : UsageQuota)
    (limited : plan.request_quota ≢ 0) (fits : plan.request_quota + workers ≤ max_integer) where
  -- What every interleaving keeps.
  record Keeps (r : Running) : Type 0 where
    used : UsageQuota
    billed : IsBilled e user sub plan used r.state
    same : used.id ≡ q.id
    count : used.requests_used ≡ q.requests_used + r.written
    charges : All (λ id. id ≡ q.id) r.pending
    bounded : used.requests_used + length r.pending < plan.request_quota + workers

  admit_lem :
      (used : UsageQuota) (s : State)
      → IsBilled e user sub plan used s
      → admit e user s ≡ (if is_over plan used then err (quota_error plan used) else ok used.id, s)
  unfolding admit current_or_rotate_quota
  admit_lem used s billed = ground (arith, billed.subscribed, billed.on_plan, billed.metered)

  charge_lem :
      (used : UsageQuota) (s : State)
      → IsBilled e user sub plan used s
      → used.requests_used < max_integer
      → increment_quota used.id s ≡ (ok tt, counted_in used s)
  charge_lem used s billed lt = ground (arith, not_full e user sub plan used s billed lt)

  admit_state :
      (used : UsageQuota) (s : State) → IsBilled e user sub plan used s → (admit e user s).1 ≡ s
  admit_state used s billed = ap (λ p. p.1) (admit_lem used s billed)

  -- A request is admitted only below the limit, and charges the quota that it read.
  admit_ok :
      (used : UsageQuota) (s : State) (id : ℕ)
      → IsBilled e user sub plan used s
      → (admit e user s).0 ≡ ok id
      → (id ≡ used.id) × (used.requests_used < plan.request_quota)
  admit_ok used s id billed given = ground (arith, admit_lem used s billed, given, limited)

  Step-Keeps : {r t : Running} → Step e user workers r t → Keeps r → Keeps t
  Step-Keeps {r} {t} (admitted id room given eq) k =
      let (charge, below) = admit_ok k.used r.state id k.billed given in
      rw (eq, admit_state k.used r.state k.billed)
        (record {
          used = k.used;
          billed = k.billed;
          same = k.same;
          count = k.count;
          charges = (charge ∙ k.same, k.charges);
          bounded = omega arith;
        })
  Step-Keeps {r} {t} (refused x given eq) k =
      rw (eq, admit_state k.used r.state k.billed)
        (record {
          used = k.used;
          billed = k.billed;
          same = k.same;
          count = k.count;
          charges = k.charges;
          bounded = k.bounded;
        })
  Step-Keeps {r} {t} (charged id rest picks eq) k =
      let (charge, others) = All-picked picks k.charges in
      let fewer = length-picked picks in
      let write =
        ap (λ i. (increment_quota i r.state).1) (charge ∙ sym k.same)
        ∙ ap (λ p. p.1)
            (charge_lem k.used r.state k.billed (omega (arith, k.bounded, fits, fewer))) in
      rw (eq, write)
        (record {
          used = counted k.used;
          billed = counted_in-IsBilled e user sub plan k.used r.state k.billed;
          same = k.same;
          count = omega (arith, k.count);
          charges = others;
          bounded = omega (arith, k.bounded, fewer);
        })

  Reach-Keeps : {r t : Running} → Reach e user workers r t → Keeps r → Keeps t
  Reach-Keeps start k = k
  Reach-Keeps (next reach st) k = Step-Keeps st (Reach-Keeps reach k)

-- Several workers count requests of one user against one quota, their statements interleaved in any
-- order: no count is lost, since the quota in the table has grown by exactly the writes, and the
-- limit is passed by less than the number of workers, the admitted requests that have still to
-- write included. The quota is within its limit at first, and limit and workers fit the column.
pub concurrent-limit :
    (e : Env) (user workers : ℕ) (sub : Subscription) (plan : Plan) (q : UsageQuota) (s : State)
    (t : Running)
    → plan.request_quota ≢ 0
    → plan.request_quota + workers ≤ max_integer
    → IsBilled e user sub plan q s
    → q.requests_used ≤ plan.request_quota
    → 0 < workers
    → Reach e user workers (record { pending = []; written = 0; state = s }) t
    → (used : UsageQuota) × (get_current_quota e.now sub t.state.db ≡ some used)
      × (used.id ≡ q.id)
      × (used.requests_used ≡ q.requests_used + t.written)
      × (used.requests_used + length t.pending < plan.request_quota + workers)
concurrent-limit e user workers sub plan q s t limited fits billed within some_worker reach =
    let k = Reach-Keeps e user workers sub plan q limited fits reach (record {
      used = q;
      billed = billed;
      same = refl;
      count = omega arith;
      charges = tt;
      bounded = omega arith;
    }) in
    (k.used, k.billed.metered, k.same, k.count, k.bounded)
