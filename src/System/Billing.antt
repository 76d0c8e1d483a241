-- ===== src/System/Billing.antt =====
-- The services of apps/subscriptions keep the tables sound.
use saas_backend_api.Subscriptions.Selectors.{get_active_subscription, is_users_active}
use saas_backend_api.Prelude.{
  inl, inr, Option-cases, first, ℕ, ◌<◌, ◌≡◌, refl, Bool, false, Option, none, some, List, [], ◌∷◌,
  arith, String, suc, ◌+◌,
}
use saas_backend_api.Store.{◌>>=◌, ◌>>◌, raise_if, State, Env, Action, Result, ok, err}
use saas_backend_api.Subscriptions.Models.{Plan, Subscription, UsageQuota, is_active_status}
use saas_backend_api.Subscriptions.Table.{IsUnique-update_where}
use saas_backend_api.Subscriptions.Services.{
  save_subscription, create_subscription, enroll_in_free_plan, retire, replaced, subscribe, cancel,
  canceled_now, expired_now, expire_one, expire_loop, expire_due_subscriptions, increment_quota,
  rotate_quota, current_or_rotate_quota, record_request, plan_of, is_over, quota_error,
}
use saas_backend_api.Subscriptions.Quotas.{AreOrdered-counted}
use saas_backend_api.Subscriptions.Table.{first-id-lt}
use saas_backend_api.System.Sound.{
  keeping, after_Follows, IsSound, IsSoundAt-mono, Follows, Keeps, pure-Keeps, Follows-trans,
}

plan_of-Keeps : (sub : Subscription) → Keeps (plan_of sub)
plan_of-Keeps sub = search keeping

-- A write that ends a subscription.
module _ (f : Subscription → Subscription)
    (off : (s : Subscription)
      → ((f s).id ≡ s.id) × ((f s).user ≡ s.user) × (is_active_status (f s).status ≡ false)) where
  save_subscription-Keeps : (id : ℕ) → Keeps (save_subscription id f)
  save_subscription-Keeps id = record {
    keeps = λ s h.
        ground (arith, IsUnique-update_where f off s.draws id s.db.subscriptions h.subscriptions);
  }

create_subscription-Follows :
    (e : Env) (user : ℕ) (plan : Plan) (expires : Bool) (s : State)
    → IsSound s
    → Follows s (create_subscription e user plan expires s).1
unfolding create_subscription
create_subscription-Follows e user plan expires s h = ground (
  arith,
  IsSoundAt-mono s.draws (suc s.draws) s.db,
  IsSoundAt-mono s.draws (suc (suc s.draws)) s.db,
)

create_subscription-Keeps :
    (e : Env) (user : ℕ) (plan : Plan) (expires : Bool)
    → Keeps (create_subscription e user plan expires)
create_subscription-Keeps e user plan expires = record {
  keeps = λ s h. create_subscription-Follows e user plan expires s h;
}

ruleset billing = (keeping, create_subscription-Keeps)

pub enroll_in_free_plan-Keeps : (e : Env) (user : ℕ) → Keeps (enroll_in_free_plan e user)
unfolding enroll_in_free_plan
enroll_in_free_plan-Keeps e user = search billing

retire-Keeps : (e : Env) (current : Option Subscription) → Keeps (retire e current)
retire-Keeps e none = pure-Keeps tt
retire-Keeps e (some sub) =
    save_subscription-Keeps (replaced e.now) (λ s. (refl, refl, refl)) sub.id

pub subscribe-Keeps : (e : Env) (user : ℕ) (slug : String) → Keeps (subscribe e user slug)
unfolding subscribe
subscribe-Keeps e user slug = search (billing, retire-Keeps) depth 20

canceled-Keeps : (e : Env) (id : ℕ) → Keeps (save_subscription id (canceled_now e.now))
canceled-Keeps e id = save_subscription-Keeps (canceled_now e.now) (λ s. (refl, refl, refl)) id

expired-Keeps : (id : ℕ) → Keeps (save_subscription id expired_now)
expired-Keeps id = save_subscription-Keeps expired_now (λ s. (refl, refl, refl)) id

pub cancel-Keeps : (e : Env) (user : ℕ) → Keeps (cancel e user)
unfolding cancel
cancel-Keeps e user = search (keeping, canceled-Keeps, enroll_in_free_plan-Keeps)

expire_one-Keeps : (e : Env) (sub : Subscription) → Keeps (expire_one e sub)
unfolding expire_one
expire_one-Keeps e sub = search (keeping, expired-Keeps, enroll_in_free_plan-Keeps)

expire_loop-Keeps : (e : Env) (subs : List Subscription) (n : ℕ) → Keeps (expire_loop e subs n)
unfolding expire_loop
expire_loop-Keeps e [] n = pure-Keeps n
expire_loop-Keeps e (sub ∷ subs) n = record {
  keeps = λ s h.
      looped s (expire_one e sub s).0 (expire_one e sub s).1 ((expire_one-Keeps e sub).keeps s h)
        (expire_loop-Keeps e subs);
}
  where
    looped :
        (s : State) (r : Result (Unit {0})) (t : State)
        → Follows s t
        → ((k : ℕ) → Keeps (expire_loop e subs k))
        → Follows s (expire_loop e subs (elim r as (λ _. ℕ) [ ok _ ↦ n + 1 | err _ ↦ n ]) t).1
    looped s r t h k =
        let affected : ℕ = elim r as (λ _. ℕ) [ ok _ ↦ n + 1 | err _ ↦ n ] in
        Follows-trans s t (expire_loop e subs affected t).1 h ((k affected).keeps t h.sound)

pub expire_due_subscriptions-Keeps : (e : Env) → Keeps (expire_due_subscriptions e)
unfolding expire_due_subscriptions
expire_due_subscriptions-Keeps e = search (keeping, expire_loop-Keeps) depth 20

increment_quota-Keeps : (id : ℕ) → Keeps (increment_quota id)
increment_quota-Keeps id = record {
  keeps = λ s h. ground (arith, AreOrdered-counted s.draws id s.db.quotas h.quotas);
}

-- A rotated quota belongs to a subscription that is in the table.
rotate_quota-Follows :
    (e : Env) (sub : Subscription) (s : State)
    → sub.id < s.draws
    → IsSound s
    → Follows s (rotate_quota e sub s).1
rotate_quota-Follows e sub s lt h = ground (arith, IsSoundAt-mono s.draws (suc s.draws) s.db)

current_or_rotate_quota-Follows :
    (e : Env) (sub : Subscription) (s : State)
    → sub.id < s.draws
    → IsSound s
    → Follows s (current_or_rotate_quota e sub s).1
unfolding current_or_rotate_quota
current_or_rotate_quota-Follows e sub s lt h = ground (arith, rotate_quota-Follows e sub s lt h)

-- What `record_request` does once it has the subscription, and once it has the quota.
abbrev counting : Env → Subscription → UsageQuota → Action (Unit {0})
counting e sub quota = do
  plan ← plan_of sub
  raise_if (is_over plan quota) (quota_error plan quota)
  increment_quota quota.id

abbrev billed : Env → Subscription → Action (Unit {0})
billed e sub = do quota ← current_or_rotate_quota e sub; counting e sub quota

counting-Keeps : (e : Env) (sub : Subscription) (quota : UsageQuota) → Keeps (counting e sub quota)
counting-Keeps e sub quota = search (keeping, plan_of-Keeps, increment_quota-Keeps) depth 20

billed-Follows :
    (e : Env) (sub : Subscription) (s : State)
    → sub.id < s.draws
    → IsSound s
    → Follows s (billed e sub s).1
billed-Follows e sub s lt h =
    let r = current_or_rotate_quota e sub s in
    after_Follows (counting e sub) s r.0 r.1 (counting-Keeps e sub)
      (current_or_rotate_quota-Follows e sub s lt h)

enrolled-id-lt :
    (e : Env) (user : ℕ) (s : State) (sub : Subscription)
    → (enroll_in_free_plan e user s).0 ≡ ok sub
    → sub.id < (enroll_in_free_plan e user s).1.draws
unfolding enroll_in_free_plan create_subscription
enrolled-id-lt e user s sub h = ground (arith, h)

enrolled-Follows :
    (e : Env) (r : Result Subscription) (s t : State)
    → ((sub : Subscription) → r ≡ ok sub → sub.id < t.draws)
    → Follows s t
    → Follows s
        (elim r as (λ _. Result (Unit {0}) × State) [
          | ok sub ↦ billed e sub t
          | err x ↦ (err x, t)
        ]).1
enrolled-Follows e (err x) s t k h = h
enrolled-Follows e (ok sub) s t k h =
    Follows-trans s t (billed e sub t).1 h (billed-Follows e sub t (k sub refl) h.sound)

pub record_request-Keeps : (e : Env) (user : ℕ) → Keeps (record_request e user)
unfolding record_request get_active_subscription
record_request-Keeps e user = record {
  keeps = λ s h. elim (Option-cases (first (is_users_active user) s.db.subscriptions)) [
    | inl none_there ↦ rw none_there (
        enrolled-Follows e (enroll_in_free_plan e user s).0 s (enroll_in_free_plan e user s).1
          (enrolled-id-lt e user s) ((enroll_in_free_plan-Keeps e user).keeps s h))
    | inr (sub, there) ↦ rw there (
        billed-Follows e sub s
          (first-id-lt (is_users_active user) s.draws s.db.subscriptions sub h.subscriptions there)
          h)
  ];
}
