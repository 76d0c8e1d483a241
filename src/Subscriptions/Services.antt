-- ===== src/Subscriptions/Services.antt =====
-- apps/subscriptions/services.py.
use saas_backend_api.Prelude.{
  ℕ, ◌+◌, String, Bool, false, not, Option, none, some, List, [], ◌∷◌, ltb, leb, ◌==◌, ◌&&◌,
  if◌then◌else◌, str_eq, exists, select, update_where,
}
use saas_backend_api.Clock.{fifty_years_on}
use saas_backend_api.Common.Errors.{
  not_found, conflict, quota_exceeded, monthly_quota, num, str, init_error, Exc, domain,
  integrity_error, data_error, does_not_exist, value_error,
}
use saas_backend_api.Store.{
  Env, ok, err, Action, pure, gets, or_raise, atomic, ◌>>=◌, ◌>>◌, raise_if, modify, draw, error,
}
use saas_backend_api.Subscriptions.Models.{
  free_slug, Plan, active, canceled, expired, Subscription, is_due, is_active_status, UsageQuota,
  default_period_window,
}
use saas_backend_api.Subscriptions.Selectors.{
  is_users_active, get_active_subscription, get_current_quota, get_plan_by_slug, plan_by_id,
}

-- `Subscription.objects.create`: the partial unique constraint refuses a second active row.
abbrev pub insert_subscription : Subscription → Action (Unit {0})
insert_subscription sub = do
  taken ← gets (λ db. exists (is_users_active sub.user) db.subscriptions)
  raise_if (is_active_status sub.status && taken) integrity_error
  modify (λ db. record db { subscriptions = sub ∷ db.subscriptions })

-- `UsageQuota.objects.create`: one quota for each subscription and period start.
abbrev pub insert_quota : UsageQuota → Action (Unit {0})
insert_quota q = do
  taken ← gets λ db.
      exists (λ r. r.subscription == q.subscription && r.period_start == q.period_start) db.quotas
  raise_if taken integrity_error
  modify (λ db. record db { quotas = q ∷ db.quotas })

-- `sub.save(update_fields=...)`: the row with the key of `sub` is given new fields.
abbrev pub save_subscription : ℕ → (Subscription → Subscription) → Action (Unit {0})
save_subscription id f =
    modify (λ db. record db { subscriptions = update_where (λ s. s.id == id) f db.subscriptions })

-- `sub.plan`
abbrev pub plan_of : Subscription → Action Plan
plan_of sub = do or_raise (← gets (plan_by_id sub.plan)) does_not_exist

-- `end if expires else None`
abbrev expiry : Bool → ℕ → Option ℕ
expiry expires end = if expires then some end else none

-- `end if expires else start.replace(year=start.year + 50)`
abbrev pub quota_end : Bool → ℕ → ℕ → Option ℕ
quota_end expires start end = if expires then some end else fifty_years_on start

-- The row that `_create_subscription` writes.
abbrev pub new_subscription : Env → ℕ → Plan → Bool → ℕ → Subscription
new_subscription e user plan expires id =
    let (start, end) = default_period_window plan e.now in
    record {
      id = id;
      user = user;
      plan = plan.id;
      status = active;
      started_at = start;
      expires_at = expiry expires end;
      canceled_at = none;
      auto_renew = expires;
      created_at = e.now;
    }

abbrev pub new_quota : ℕ → ℕ → ℕ → ℕ → UsageQuota
new_quota id sub start end = record {
  id = id;
  subscription = sub;
  period_start = start;
  period_end = end;
  requests_used = 0;
}

-- `_create_subscription`
unfoldable pub create_subscription : Env → ℕ → Plan → Bool → Action Subscription
create_subscription e user plan expires = do
  let (start, end) = default_period_window plan e.now
  id ← draw
  insert_subscription (new_subscription e user plan expires id)
  period_end ← or_raise (quota_end expires start end) value_error
  quota_id ← draw
  insert_quota (new_quota quota_id id start period_end)
  pure (new_subscription e user plan expires id)

unfoldable pub enroll_in_free_plan : Env → ℕ → Action Subscription
enroll_in_free_plan e user = atomic do
  found ← gets (get_plan_by_slug free_slug)
  plan ← or_raise found (error not_found "Free plan is not configured." "plan_missing")
  create_subscription e user plan false

-- The fields that `subscribe` writes to the subscription that it replaces.
abbrev pub replaced : ℕ → Subscription → Subscription
replaced now s = record s { status = canceled; canceled_at = some now }

abbrev pub is_on_plan : Plan → Option Subscription → Bool
is_on_plan plan none = false
is_on_plan plan (some s) = s.plan == plan.id

abbrev pub retire : Env → Option Subscription → Action (Unit {0})
retire e none = pure tt
retire e (some s) = save_subscription s.id (replaced e.now)

unfoldable pub subscribe : Env → ℕ → String → Action Subscription
subscribe e user plan_slug = atomic do
  found ← gets (get_plan_by_slug plan_slug)
  plan ← or_raise found (error not_found "Plan not found." "plan_not_found")
  current ← gets (get_active_subscription user)
  raise_if (is_on_plan plan current)
      (error conflict "Already subscribed to this plan." "already_subscribed")
  retire e current
  create_subscription e user plan (ltb 0 plan.duration_days)

unfoldable pub upgrade : Env → ℕ → String → Action Subscription
upgrade e user plan_slug = subscribe e user plan_slug

unfoldable pub downgrade : Env → ℕ → String → Action Subscription
downgrade e user plan_slug = subscribe e user plan_slug

-- The fields that `cancel` writes.
abbrev pub canceled_now : ℕ → Subscription → Subscription
canceled_now now s = record s { status = canceled; canceled_at = some now; auto_renew = false }

unfoldable pub cancel : Env → ℕ → Action Subscription
cancel e user = atomic do
  found ← gets (get_active_subscription user)
  sub ←
      or_raise found (error not_found "No active subscription to cancel." "no_active_subscription")
  save_subscription sub.id (canceled_now e.now)
  enroll_in_free_plan e user

-- A new quota of a subscription whose last period is over.
abbrev pub rotate_quota : Env → Subscription → Action UsageQuota
rotate_quota e sub = do
  plan ← plan_of sub
  let (start, end) = default_period_window plan e.now
  id ← draw
  insert_quota (new_quota id sub.id start end)
  pure (new_quota id sub.id start end)

-- `_current_or_rotate_quota`
unfoldable pub current_or_rotate_quota : Env → Subscription → Action UsageQuota
current_or_rotate_quota e sub = do
  found ← gets (get_current_quota e.now sub)
  elim found [ some q ↦ pure q | none ↦ rotate_quota e sub ]

-- The largest value of a `PositiveIntegerField`.
abbrev pub max_integer : ℕ
max_integer = 2147483647

-- `requests_used=F("requests_used") + 1`
abbrev pub counted : UsageQuota → UsageQuota
counted q = record q { requests_used = q.requests_used + 1 }

-- `UsageQuota.objects.filter(pk=id).update(...)`; the column refuses a value above its maximum.
abbrev pub increment_quota : ℕ → Action (Unit {0})
increment_quota id = do
  full ← gets (λ db. exists (λ q. q.id == id && leb max_integer q.requests_used) db.quotas)
  raise_if full data_error
  modify (λ db. record db { quotas = update_where (λ q. q.id == id) counted db.quotas })

abbrev pub quota_error : Plan → UsageQuota → Exc
quota_error plan q = domain (
    init_error quota_exceeded (monthly_quota plan.request_quota plan.slug) "quota_exceeded" (
      ("plan", str plan.slug)
      ∷ ("limit", num plan.request_quota)
      ∷ ("used", num q.requests_used)
      ∷ []))

-- `limit and quota.requests_used >= limit`
abbrev pub is_over : Plan → UsageQuota → Bool
is_over plan q = not (plan.request_quota == 0) && leb plan.request_quota q.requests_used

-- The subscription that is billed: the active one, or a new one on the Free plan.
abbrev pub or_enroll : Env → ℕ → Option Subscription → Action Subscription
or_enroll e user none = enroll_in_free_plan e user
or_enroll e user (some sub) = pure sub

unfoldable pub record_request : Env → ℕ → Action (Unit {0})
record_request e user = do
  found ← gets (get_active_subscription user)
  sub ← or_enroll e user found
  quota ← current_or_rotate_quota e sub
  plan ← plan_of sub
  raise_if (is_over plan quota) (quota_error plan quota)
  increment_quota quota.id

-- The rows that the sweep reads: `status=ACTIVE, expires_at__lte=now`, with a date.
abbrev pub is_sweepable : ℕ → Subscription → Bool
is_sweepable now s = is_active_status s.status && is_due now s.expires_at

abbrev pub expired_now : Subscription → Subscription
expired_now s = record s { status = expired }

-- The body of the sweep's loop for one row, inside its transaction.
unfoldable pub expire_one : Env → Subscription → Action (Unit {0})
expire_one e sub =
    atomic do save_subscription sub.id expired_now; enroll_in_free_plan e sub.user; pure tt

-- The loop: a row whose transaction raises is logged and left out of the count.
unfoldable pub expire_loop : Env → List Subscription → ℕ → Action ℕ
expire_loop e [] affected s = (ok affected, s)
expire_loop e (sub ∷ subs) affected s =
    let (r, s') = expire_one e sub s in
    expire_loop e subs (elim r [ ok _ ↦ affected + 1 | err _ ↦ affected ]) s'

unfoldable pub expire_due_subscriptions : Env → Action ℕ
expire_due_subscriptions e = do
  due ← gets (λ db. select (is_sweepable e.now) db.subscriptions)
  expire_loop e due 0

-- `features.get(key)` as a truth value.
unfoldable pub feature : String → List (String × Bool) → Bool
feature key [] = false
feature key ((k, on) ∷ features) = if str_eq k key then on else feature key features

-- `has_feature`; `none` stands for a dangling foreign key.
unfoldable pub has_feature : ℕ → String → Action Bool
has_feature user key = do
  found ← gets (get_active_subscription user)
  elim found [ none ↦ pure false | some sub ↦ do pure (feature key (← plan_of sub).features) ]
