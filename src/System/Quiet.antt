-- ===== src/System/Quiet.antt =====
-- What one user does leaves the plans, the log, the daily figures and the quotas of the others'
-- subscriptions as they are.
use saas_backend_api.Users.Models.{User}
use saas_backend_api.Common.Utils.{generate_secure_token}
use saas_backend_api.ApiKeys.Services.{create_api_key, rotate_api_key, revoke_api_key}
use saas_backend_api.Users.Services.{change_password}
use saas_backend_api.Authentication.Services.{
  issue_verification_token, revoke_session, logout, refresh_token, is_open_session,
}
use saas_backend_api.Prelude.{
  ℕ, ◌≡◌, ◌≢◌, refl, String, List, [], ◌∷◌, ◌==◌, arith, first, select, some, update_where,
  Option-cases, Bool-cases, inl, inr, Bool, true, ap, subst,
}
use saas_backend_api.Store.{◌>>=◌, ◌>>◌, Db, State, Env, Action, raise_if}
use saas_backend_api.Subscriptions.Models.{Subscription, UsageQuota}
use saas_backend_api.Subscriptions.Table.{IsUnique, first-id-lt}
use saas_backend_api.Subscriptions.Quotas.{
  AreOrdered, counted-above, latest_quota-cases, latest_quota-id-lt,
}
use saas_backend_api.Subscriptions.Services.{
  counted, current_or_rotate_quota, enroll_in_free_plan, cancel, subscribe, create_subscription,
  plan_of, is_over, quota_error, increment_quota,
}
use saas_backend_api.Subscriptions.Selectors.{
  is_users_active, latest_quota, is_subs_current, get_active_subscription, get_current_quota,
  plan_by_id,
}

-- The plans, the log and the daily figures are the same, and so are the quotas of the subscription
-- with the key `id`.
abbrev pub IsQuiet : ℕ → Db → Db → Type 0
IsQuiet id db db' =
    (db'.plans ≡ db.plans)
    × (db'.request_logs ≡ db.request_logs)
    × (db'.daily_usages ≡ db.daily_usages)
    × (select (λ q. q.subscription == id) db'.quotas ≡ select (λ q. q.subscription == id) db.quotas)

-- The active subscriptions of two users are two rows.
pub distinct_ids :
    (u v n : ℕ) (subs : List Subscription) (a b : Subscription)
    → u ≢ v
    → IsUnique n subs
    → first (is_users_active u) subs ≡ some a
    → first (is_users_active v) subs ≡ some b
    → a.id ≢ b.id
distinct_ids u v n [] a b ne h f g same = ground arith
distinct_ids u v n (x ∷ subs) a b ne (lt, one, rest) f g same = ground (
  arith,
  first-id-lt (is_users_active u) x.id subs a rest,
  first-id-lt (is_users_active v) x.id subs b rest,
  distinct_ids u v x.id subs a b ne rest,
)

select-counted_ne :
    (p : UsageQuota → Bool) (id n : ℕ) (qs : List UsageQuota) (q : UsageQuota)
    → AreOrdered n qs
    → latest_quota p qs ≡ some q
    → q.subscription ≢ id
    → select (λ r. r.subscription == id) (update_where (λ r. r.id == q.id) counted qs)
      ≡ select (λ r. r.subscription == id) qs
select-counted_ne p id n [] q h e ne = refl
select-counted_ne p id n (x ∷ qs) q (a, b, c) e ne = elim (latest_quota-cases p x qs q e) [
  | inl here ↦
      let key : x.id ≡ q.id = ap (λ r. r.id) here in
      let sub : x.subscription ≡ q.subscription = ap (λ r. r.subscription) here in
      ground (arith, key, sub, counted-above q.id x.id qs)
  | inr later ↦
      ground
        (arith, latest_quota-id-lt p x.id qs q c later, select-counted_ne p id x.id qs q c later ne)
]

latest_quota-holds :
    (p : UsageQuota → Bool) (qs : List UsageQuota) (q : UsageQuota)
    → latest_quota p qs ≡ some q
    → p q ≡ true
latest_quota-holds p [] q e = absurd (ground arith)
latest_quota-holds p (x ∷ qs) q e = elim (Bool-cases (p x)) [
  | inl here ↦ elim (latest_quota-cases p x qs q e) [
    | inl same ↦ subst (λ r. p r ≡ true) same here
    | inr later ↦ latest_quota-holds p qs q later
  ]
  | inr other ↦ latest_quota-holds p qs q (ground (arith, other))
]

-- `record_request`, once the subscription is known.
abbrev pub charge : Env → Subscription → Action (Unit {0})
charge e sub = do
  quota ← current_or_rotate_quota e sub
  plan ← plan_of sub
  raise_if (is_over plan quota) (quota_error plan quota)
  increment_quota quota.id

pub charge-IsQuiet :
    (e : Env) (sub : Subscription) (id : ℕ) (s : State)
    → AreOrdered s.draws s.db.quotas
    → sub.id ≢ id
    → IsQuiet id s.db (charge e sub s).1.db
unfolding current_or_rotate_quota get_current_quota
charge-IsQuiet e sub id s h ne =
    elim (Option-cases (latest_quota (is_subs_current e.now sub.id) s.db.quotas)) [
      | inl missing ↦ elim (Option-cases (plan_by_id sub.plan s.db)) [
        | inl lost ↦ ground (arith, missing, lost)
        | inr (plan, found) ↦
            ground (arith, missing, found, counted-above s.draws s.draws s.db.quotas)
      ]
      | inr (q, found) ↦
          let holds = latest_quota-holds (is_subs_current e.now sub.id) s.db.quotas q found in
          ground (
            arith,
            found,
            select-counted_ne (is_subs_current e.now sub.id) id s.draws s.db.quotas q h found
                (ground (arith, holds)),
          )
    ]

module _ (u : ℕ) (id : ℕ) where
  pub enroll-IsQuiet :
      (e : Env) (s : State) → id ≢ s.draws → IsQuiet id s.db (enroll_in_free_plan e u s).1.db
  unfolding enroll_in_free_plan create_subscription
  enroll-IsQuiet e s lt = ground arith

  pub subscribe-IsQuiet :
      (e : Env) (slug : String) (s : State)
      → id ≢ s.draws
      → IsQuiet id s.db (subscribe e u slug s).1.db
  unfolding subscribe create_subscription
  subscribe-IsQuiet e slug s lt = elim (Option-cases (get_active_subscription u s.db)) [
    | inl free ↦ ground (arith, free)
    | inr (sub, there) ↦ ground (arith, there)
  ]

  pub cancel-IsQuiet : (e : Env) (s : State) → id ≢ s.draws → IsQuiet id s.db (cancel e u s).1.db
  unfolding cancel enroll_in_free_plan create_subscription
  cancel-IsQuiet e s lt = elim (Option-cases (get_active_subscription u s.db)) [
    | inl free ↦ ground (arith, free)
    | inr (sub, there) ↦ ground (arith, there)
  ]

  pub create_api_key-IsQuiet :
      (e : Env) (name : String) (s : State) → IsQuiet id s.db (create_api_key e u name s).1.db
  unfolding create_api_key
  create_api_key-IsQuiet e name s = elim (Option-cases (get_active_subscription u s.db)) [
    | inl absent ↦ ground (arith, absent)
    | inr (sub, there) ↦ ground (arith, there)
  ]

  pub revoke_api_key-IsQuiet :
      (e : Env) (key : ℕ) (s : State) → IsQuiet id s.db (revoke_api_key e u key s).1.db
  unfolding revoke_api_key
  revoke_api_key-IsQuiet e key s = ground arith

  pub rotate_api_key-IsQuiet :
      (e : Env) (key : ℕ) (s : State) → IsQuiet id s.db (rotate_api_key e u key s).1.db
  unfolding rotate_api_key create_api_key get_active_subscription
  rotate_api_key-IsQuiet e key s =
      elim (Option-cases (first (is_users_active u) s.db.subscriptions)) [
        | inl absent ↦ ground (arith, absent)
        | inr (sub, there) ↦ ground (arith, there)
      ]

  pub revoke_session-IsQuiet :
      (e : Env) (row : ℕ) (s : State) → IsQuiet id s.db (revoke_session e u row s).1.db
  unfolding revoke_session
  revoke_session-IsQuiet e row s = ground arith

pub change_password-IsQuiet :
    (e : Env) (user : User) (id : ℕ) (current new : String) (s : State)
    → IsQuiet id s.db (change_password e user current new s).1.db
unfolding change_password
change_password-IsQuiet e user id current new s = ground arith

pub issue-IsQuiet :
    (e : Env) (user : User) (id : ℕ) (s : State)
    → IsQuiet id s.db (issue_verification_token e user s).1.db
unfolding issue_verification_token generate_secure_token
issue-IsQuiet e user id s = ground arith

pub logout-IsQuiet :
    (e : Env) (token : String) (id : ℕ) (s : State) → IsQuiet id s.db (logout e token s).1.db
unfolding logout
logout-IsQuiet e token id s = elim (Option-cases (refresh_token e token s.db)) [
  | inl bad ↦ ground (arith, bad)
  | inr (jti, good) ↦ elim (Option-cases (first (is_open_session jti) s.db.sessions)) [
    | inl nothing ↦ ground (arith, good, nothing)
    | inr (r, found) ↦ ground (arith, good, found)
  ]
]
