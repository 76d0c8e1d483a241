-- ===== src/Subscriptions/Changes.antt =====
-- `subscribe` and `cancel` of apps/subscriptions/services.py.
use saas_backend_api.Prelude.{
  ℕ, ◌≡◌, refl, ◌≢◌, false, Option, none, some, arith, ltb, List, update_where, String,
  Option-cases, inl, inr, ◌⊎◌, if◌then◌else◌, Bool-cases, ◌+◌, ◌*◌, ◌∙◌,
}
use saas_backend_api.Clock.{day, fifty_years_on}
use saas_backend_api.Common.Errors.{not_found, conflict, Exc}
use saas_backend_api.Store.{Env, State, ok, error, error_of}
use saas_backend_api.Subscriptions.Models.{
  free_slug, Plan, Subscription, is_active_status, period_days,
}
use saas_backend_api.Subscriptions.Selectors.{get_active_subscription, get_plan_by_slug}
use saas_backend_api.Subscriptions.Services.{
  new_subscription, replaced, is_on_plan, subscribe, canceled_now, cancel,
}
use saas_backend_api.Subscriptions.Table.{has_id, exists-of-none}
use saas_backend_api.Subscriptions.Enrollment.{
  IsValid, IsFree, EndsAt, created, create_subscription_lem, created-IsValid, get_active-created,
  get_active-created_ne, enroll_in_free_plan_lem, ended, ended-IsValid, ended-IsFree,
  get_active-ended_ne,
}

replaced_off :
    (now : ℕ) (s : Subscription)
    → ((replaced now s).id ≡ s.id)
      × ((replaced now s).user ≡ s.user)
      × (is_active_status (replaced now s).status ≡ false)
replaced_off now s = (refl, refl, refl)

pub canceled_off :
    (now : ℕ) (s : Subscription)
    → ((canceled_now now s).id ≡ s.id)
      × ((canceled_now now s).user ≡ s.user)
      × (is_active_status (canceled_now now s).status ≡ false)
canceled_off now s = (refl, refl, refl)

-- The rows, and the state, in which `subscribe` creates the new row.
abbrev cleared_rows : ℕ → Option Subscription → List Subscription → List Subscription
cleared_rows now none subs = subs
cleared_rows now (some sub) subs = update_where (has_id sub.id) (replaced now) subs

abbrev pub cleared : Env → Option Subscription → State → State
cleared e current s = record s {
  db = record s.db { subscriptions = cleared_rows e.now current s.db.subscriptions };
}

pub cleared-IsValid :
    (e : Env) (current : Option Subscription) (s : State)
    → IsValid s
    → IsValid (cleared e current s)
cleared-IsValid e none s v = v
cleared-IsValid e (some sub) s v = ended-IsValid (replaced e.now) (replaced_off e.now) sub s v

pub cleared-IsFree :
    (e : Env) (user : ℕ) (current : Option Subscription) (s : State)
    → IsValid s
    → get_active_subscription user s.db ≡ current
    → IsFree user (cleared e current s)
unfolding get_active_subscription
cleared-IsFree e user none s v h = exists-of-none user s.db.subscriptions h
cleared-IsFree e user (some sub) s v h =
    ended-IsFree (replaced e.now) (replaced_off e.now) user sub s v h

pub cleared-others :
    (e : Env) (user w : ℕ) (current : Option Subscription) (s : State)
    → IsValid s
    → w ≢ user
    → get_active_subscription user s.db ≡ current
    → get_active_subscription w (cleared e current s).db ≡ get_active_subscription w s.db
cleared-others e user w none s v ne h = refl
cleared-others e user w (some sub) s v ne h =
    get_active-ended_ne (replaced e.now) (replaced_off e.now) user w sub s v ne h

pub subscribe_lem :
    (e : Env) (user : ℕ) (slug : String) (plan : Plan) (current : Option Subscription) (end : ℕ)
    (s : State)
    → IsValid s
    → get_plan_by_slug slug s.db ≡ some plan
    → get_active_subscription user s.db ≡ current
    → is_on_plan plan current ≡ false
    → EndsAt e plan (ltb 0 plan.duration_days) end
    → subscribe e user slug s ≡ (
      ok (new_subscription e user plan (ltb 0 plan.duration_days) s.draws),
      created e user plan (ltb 0 plan.duration_days) end (cleared e current s),
    )
unfolding subscribe
subscribe_lem e user slug plan none end s v found h other ends = ground (
  arith,
  create_subscription_lem e user plan (ltb 0 plan.duration_days) end s v
      (cleared-IsFree e user none s v h),
)
subscribe_lem e user slug plan (some sub) end s v found h other ends = ground (
  arith,
  create_subscription_lem e user plan (ltb 0 plan.duration_days) end (ended (replaced e.now) sub s)
      (cleared-IsValid e (some sub) s v) (cleared-IsFree e user (some sub) s v h),
)

-- A change to another known plan succeeds: the invariant holds after it, the user's active
-- subscription is the returned one, on the requested plan, and another user's is untouched. The
-- end of the new quota's period has to exist.
pub subscribe_switches :
    (e : Env) (user w : ℕ) (slug : String) (plan : Plan) (end : ℕ) (s : State)
    → IsValid s
    → get_plan_by_slug slug s.db ≡ some plan
    → is_on_plan plan (get_active_subscription user s.db) ≡ false
    → EndsAt e plan (ltb 0 plan.duration_days) end
    → w ≢ user
    → let (r, s') = subscribe e user slug s in
      let sub = new_subscription e user plan (ltb 0 plan.duration_days) s.draws in
      (r ≡ ok sub)
      × IsValid s'
      × (get_active_subscription user s'.db ≡ some sub)
      × (sub.plan ≡ plan.id)
      × (get_active_subscription w s'.db ≡ get_active_subscription w s.db)
subscribe_switches e user w slug plan end s v found other ends ne =
    let current = get_active_subscription user s.db in
    let s₁ = cleared e current s in
    let valid = cleared-IsValid e current s v in
    let free = cleared-IsFree e user current s v refl in
    rw (subscribe_lem e user slug plan current end s v found refl other ends) (
      refl,
      created-IsValid e user plan (ltb 0 plan.duration_days) end s₁ valid free,
      get_active-created e user plan (ltb 0 plan.duration_days) end s₁,
      refl,
      get_active-created_ne e user w plan (ltb 0 plan.duration_days) end s₁ ne
          ∙ cleared-others e user w current s v ne refl,
    )

-- The error that the documentation of `subscribe` promises: an unknown or inactive plan, or the
-- plan that the user is on.
abbrev pub refusal : Option Plan → Option Subscription → Option Exc
refusal none current = some (error not_found "Plan not found." "plan_not_found")
refusal (some plan) current =
    if is_on_plan plan current
    then some (error conflict "Already subscribed to this plan." "already_subscribed")
    else none

pub quota_end-some :
    (e : Env) (plan : Plan) (end : ℕ)
    → fifty_years_on e.now ≡ some end
    → (t : ℕ) × EndsAt e plan (ltb 0 plan.duration_days) t
quota_end-some e plan end h = elim (Bool-cases (ltb 0 plan.duration_days)) [
  | inl paid ↦ (e.now + period_days plan * day, rw paid)
  | inr free ↦ (end, rw free h)
]

-- Where the date exists fifty years on, `subscribe` raises exactly the promised errors, so never
-- the database's refusal of a second active subscription; and with an error the tables, the queue
-- and the draws are as before.
pub subscribe_errors :
    (e : Env) (user : ℕ) (slug : String) (end : ℕ) (s : State)
    → IsValid s
    → fifty_years_on e.now ≡ some end
    → let (r, s') = subscribe e user slug s in
      let expected = refusal (get_plan_by_slug slug s.db) (get_active_subscription user s.db) in
      (error_of r ≡ expected) × ((expected ≡ none) ⊎ (s' ≡ s))
unfolding subscribe
subscribe_errors e user slug end s v ends = elim (Option-cases (get_plan_by_slug slug s.db)) [
  | inl missing ↦ ground arith
  | inr (plan, found) ↦ elim (Bool-cases (is_on_plan plan (get_active_subscription user s.db))) [
    | inl same ↦ ground arith
    | inr other ↦
        let (t, at) = quota_end-some e plan end ends in
        let switched =
          subscribe_lem e user slug plan (get_active_subscription user s.db) t s v found refl other
            at in
        ground (arith, switched)
  ]
]

pub cancel_lem :
    (e : Env) (user : ℕ) (sub : Subscription) (plan : Plan) (end : ℕ) (s : State)
    → IsValid s
    → get_active_subscription user s.db ≡ some sub
    → get_plan_by_slug free_slug s.db ≡ some plan
    → fifty_years_on e.now ≡ some end
    → cancel e user s ≡ (
      ok (new_subscription e user plan false s.draws),
      created e user plan false end (ended (canceled_now e.now) sub s),
    )
unfolding cancel get_plan_by_slug
cancel_lem e user sub plan end s v has found ends = ground (
  arith,
  enroll_in_free_plan_lem e user plan end (ended (canceled_now e.now) sub s)
      (ended-IsValid (canceled_now e.now) (canceled_off e.now) sub s v)
      (ended-IsFree (canceled_now e.now) (canceled_off e.now) user sub s v has) found ends,
)

-- Cancelling ends the user's active subscription and puts the user on the Free plan at once: the
-- invariant holds, the new active subscription is the returned one, on the Free plan and without
-- an end, and another user's is untouched. Fifty years on the date has to exist.
pub cancel_falls_back :
    (e : Env) (user w : ℕ) (sub : Subscription) (plan : Plan) (end : ℕ) (s : State)
    → IsValid s
    → get_active_subscription user s.db ≡ some sub
    → get_plan_by_slug free_slug s.db ≡ some plan
    → fifty_years_on e.now ≡ some end
    → w ≢ user
    → let (r, s') = cancel e user s in
      let fresh = new_subscription e user plan false s.draws in
      (r ≡ ok fresh)
      × IsValid s'
      × (get_active_subscription user s'.db ≡ some fresh)
      × ((fresh.plan ≡ plan.id) × (fresh.expires_at ≡ none))
      × (get_active_subscription w s'.db ≡ get_active_subscription w s.db)
cancel_falls_back e user w sub plan end s v has found ends ne =
    let s₁ = ended (canceled_now e.now) sub s in
    let valid = ended-IsValid (canceled_now e.now) (canceled_off e.now) sub s v in
    let free = ended-IsFree (canceled_now e.now) (canceled_off e.now) user sub s v has in
    rw (cancel_lem e user sub plan end s v has found ends) (
      refl,
      created-IsValid e user plan false end s₁ valid free,
      get_active-created e user plan false end s₁,
      (refl, refl),
      get_active-created_ne e user w plan false end s₁ ne
          ∙ get_active-ended_ne (canceled_now e.now) (canceled_off e.now) user w sub s v ne has,
    )
