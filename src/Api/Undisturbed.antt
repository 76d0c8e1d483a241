-- ===== src/Api/Undisturbed.antt =====
-- What one user does, and what another reads.
use saas_backend_api.Authentication.Services.{logout, refresh_token}
use saas_backend_api.Analytics.Selectors.{log_in_scope, usage_in_scope}
use saas_backend_api.Prelude.{
  ℕ, ◌<◌, ◌≡◌, ◌≢◌, refl, sym, true, Option, some, none, arith, subst, Option-cases, inl, inr, ap,
  String, suc, select,
}
use saas_backend_api.Store.{Db, State, Env, Action, Result, ok, err}
use saas_backend_api.Users.Models.{User}
use saas_backend_api.Users.Services.{update_profile, mark_logged_in}
use saas_backend_api.Subscriptions.Models.{Subscription}
use saas_backend_api.Subscriptions.Selectors.{get_active_subscription, is_users_active}
use saas_backend_api.Subscriptions.Table.{first-id-lt}
use saas_backend_api.Subscriptions.Services.{
  enroll_in_free_plan, create_subscription, record_request,
}
use saas_backend_api.System.Sound.{IsSound}
use saas_backend_api.System.Billing.{enroll_in_free_plan-Keeps}
use saas_backend_api.System.Operations.{Call}
use saas_backend_api.System.Calls.{after, Reach}
use saas_backend_api.System.Reachable.{blank, Reach-IsSound}
use saas_backend_api.System.Tenancy.{subject, subject-isolated, session_of}
use saas_backend_api.System.Isolation.{IsApart}
use saas_backend_api.System.Quiet.{
  IsQuiet, distinct_ids, charge, charge-IsQuiet, enroll-IsQuiet, change_password-IsQuiet,
  issue-IsQuiet, revoke_session-IsQuiet, subscribe-IsQuiet, cancel-IsQuiet, create_api_key-IsQuiet,
  revoke_api_key-IsQuiet, rotate_api_key-IsQuiet, logout-IsQuiet,
}
use saas_backend_api.Api.Endpoints.{Endpoint}
use saas_backend_api.Api.Dispatch.{respond}
use saas_backend_api.Api.Privacy.{is_own_read, IsAlike, respond-private}

-- The key of a new subscription is drawn.
enroll-id :
    (e : Env) (u : ℕ) (s : State) (sub : Subscription)
    → (enroll_in_free_plan e u s).0 ≡ ok sub
    → sub.id ≡ s.draws
unfolding enroll_in_free_plan create_subscription
enroll-id e u s sub h = ground arith

charged-IsQuiet :
    (e : Env) (id : ℕ) (db : Db) (r : Result Subscription) (t : State)
    → IsSound t
    → IsQuiet id db t.db
    → ((sub : Subscription) → r ≡ ok sub → sub.id ≢ id)
    → IsQuiet id db
        (elim r as (λ _. Result (Unit {0}) × State) [
          | ok sub ↦ charge e sub t
          | err x ↦ (err x, t)
        ]).1.db
charged-IsQuiet e id db (ok sub) t sound quiet ne =
    ground (arith, quiet, charge-IsQuiet e sub id t sound.quotas (ne sub refl))
charged-IsQuiet e id db (err x) t sound quiet ne = quiet

record_request-IsQuiet :
    (e : Env) (u id : ℕ) (s : State)
    → IsSound s
    → id ≢ s.draws
    → ((mine : Subscription) → get_active_subscription u s.db ≡ some mine → mine.id ≢ id)
    → IsQuiet id s.db (record_request e u s).1.db
unfolding record_request
record_request-IsQuiet e u id s h new ne = elim (Option-cases (get_active_subscription u s.db)) [
  | inl free ↦
      let t = (enroll_in_free_plan e u s).1 in
      let sound = ((enroll_in_free_plan-Keeps e u).keeps s h).sound in
      rw free (
        charged-IsQuiet e id s.db (enroll_in_free_plan e u s).0 t sound
          (enroll-IsQuiet u id e s new)
          (λ x is. let same = enroll-id e u s x is in ground (arith, same, new)))
  | inr (mine, found) ↦ rw found (charge-IsQuiet e mine id s h.quotas (ne mine found))
]

-- What a call that concerns a user owes to a subscription of another.
abbrev Quiets : ℕ → State → State → Option ℕ → Type 0
Quiets id s t none = Unit
Quiets id s t (some u) =
    ((mine : Subscription) → get_active_subscription u s.db ≡ some mine → mine.id ≢ id)
    → IsQuiet id s.db t.db

any_quiet : (id : ℕ) (s t : State) (o : Option ℕ) → IsQuiet id s.db t.db → Quiets id s t o
any_quiet id s t none quiet = tt
any_quiet id s t (some u) quiet = λ ne. quiet

after-Quiets :
    (e : Env) (c : Call) (id : ℕ) (s : State)
    → IsSound s
    → id ≢ s.draws
    → Quiets id s (after e c s) (subject e c s.db)
unfolding update_profile mark_logged_in
after-Quiets e (Call.update_profile user first_name last_name) id s h l = λ ne. ground arith
after-Quiets e (Call.change_password user current new) id s h l =
    λ ne. change_password-IsQuiet e user id current new s
after-Quiets e (Call.mark_logged_in user) id s h l = λ ne. ground arith
after-Quiets e (Call.issue_verification_token user) id s h l = λ ne. issue-IsQuiet e user id s
after-Quiets e (Call.revoke_session user row) id s h l =
    λ ne. revoke_session-IsQuiet user id e row s
after-Quiets e (Call.enroll_in_free_plan user) id s h l = λ ne. enroll-IsQuiet user id e s l
after-Quiets e (Call.subscribe user slug) id s h l = λ ne. subscribe-IsQuiet user id e slug s l
after-Quiets e (Call.cancel user) id s h l = λ ne. cancel-IsQuiet user id e s l
after-Quiets e (Call.record_request user) id s h l = λ ne. record_request-IsQuiet e user id s h l ne
after-Quiets e (Call.create_api_key user name) id s h l =
    λ ne. create_api_key-IsQuiet user id e name s
after-Quiets e (Call.revoke_api_key user key) id s h l =
    λ ne. revoke_api_key-IsQuiet user id e key s
after-Quiets e (Call.rotate_api_key user key) id s h l =
    λ ne. rotate_api_key-IsQuiet user id e key s
after-Quiets e (Call.manager_create_user email password extra) id s h l = tt
after-Quiets e (Call.manager_create_superuser email password extra) id s h l = tt
after-Quiets e (Call.create_user email password first_name last_name role) id s h l = tt
after-Quiets e (Call.register_user email password first_name last_name) id s h l = tt
after-Quiets e (Call.verify_email token) id s h l = tt
after-Quiets e (Call.resend_verification email) id s h l = tt
after-Quiets e (Call.request_password_reset email) id s h l = tt
after-Quiets e (Call.confirm_password_reset token new_password) id s h l = tt
after-Quiets e (Call.login check meta) id s h l = tt
after-Quiets e (Call.logout token) id s h l =
    any_quiet id s (logout e token s).1 (session_of (refresh_token e token s.db) s.db)
      (logout-IsQuiet e token id s)
after-Quiets e Call.expire_due_subscriptions id s h l = tt
after-Quiets e Call.seed id s h l = tt
after-Quiets e (Call.authenticate header words) id s h l = tt
after-Quiets e (Call.record_analytics user request response) id s h l = tt
after-Quiets e (Call.rollup_daily_usage target) id s h l = tt

IsAlike-of :
    (v id : ℕ) (s t : State)
    → IsApart v s.db t.db
    → IsQuiet id s.db t.db
    → ((sub : Subscription) → get_active_subscription v s.db ≡ some sub → sub.id ≡ id)
    → IsAlike v s.db t.db
IsAlike-of v id s t (us, keys, sessions, subs, verifying, resetting) (plans, logs, usages, quotas)
      covers =
    record {
      plans = sym plans;
      keys = sym keys;
      sessions = sym sessions;
      subscriptions = sym subs;
      quotas = λ sub own. rw (covers sub own) (sym quotas);
      logs = ap (select (log_in_scope (some v))) (sym logs);
      usages = ap (select (usage_in_scope (some v))) (sym usages);
    }

below :
    (u : ℕ) (s : State) (sub : Subscription)
    → IsSound s
    → get_active_subscription u s.db ≡ some sub
    → sub.id < s.draws
unfolding get_active_subscription
below u s sub h own =
    first-id-lt (is_users_active u) s.draws s.db.subscriptions sub h.subscriptions own

apart :
    (u v : ℕ) (s : State) (mine sub : Subscription)
    → IsSound s
    → u ≢ v
    → get_active_subscription u s.db ≡ some mine
    → get_active_subscription v s.db ≡ some sub
    → mine.id ≢ sub.id
unfolding get_active_subscription
apart u v s mine sub h ne = distinct_ids u v s.draws s.db.subscriptions mine sub ne h.subscriptions

after-IsAlike :
    (e : Env) (c : Call) (u v : ℕ) (s : State)
    → Reach blank s
    → subject e c s.db ≡ some u
    → u ≢ v
    → IsAlike v s.db (after e c s).db
after-IsAlike e c u v s reached acts ne =
    let h = Reach-IsSound s reached in
    let t = after e c s in
    let rows = subject-isolated e c u v s reached acts ne in
    elim (Option-cases (get_active_subscription v s.db)) [
      | inl free ↦
          IsAlike-of v (suc s.draws) s t rows
            (subst (Quiets (suc s.draws) s t) acts
              (after-Quiets e c (suc s.draws) s h (omega arith))
              (λ mine found. let lt = below u s mine h found in omega (arith, lt)))
            (λ sub own. absurd (ground (arith, free, own)))
      | inr (sub, found) ↦
          IsAlike-of v sub.id s t rows
            (subst (Quiets sub.id s t) acts
              (after-Quiets e c sub.id s h (let lt = below v s sub h found in omega (arith, lt)))
              (λ mine is. apart u v s mine sub h ne is found))
            (λ other own. ground (arith, found, own))
    ]

-- In every state that the service can reach, a call that concerns one user (`subject`: the user that
-- the service is given, or the owner of the session that a logout ends) is invisible to every other:
-- whether it returns or raises, each reading view of the other, the staff's left aside, gives the
-- same answer after it as before, errors included.
pub read-undisturbed :
    {Tokens : Type 0} (post : String → Action Tokens) (e e' : Env) (c : Call) (u : ℕ) (v : User)
    (r : Endpoint) (s : State)
    → Reach blank s
    → subject e c s.db ≡ some u
    → u ≢ v.id
    → is_own_read r ≡ true
    → (respond post e' (some v) r (after e c s)).0 ≡ (respond post e' (some v) r s).0
read-undisturbed post e e' c u v r s reached acts ne own =
    sym
      (respond-private post e' v r s (after e c s) own
        (after-IsAlike e c u v.id s reached acts ne)).0
