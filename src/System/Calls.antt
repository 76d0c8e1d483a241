-- ===== src/System/Calls.antt =====
-- The calls of the service's operations as a step relation on its state, and the reachable states.
use saas_backend_api.System.Operations.{Call}
use saas_backend_api.Store.{Env, State}
use saas_backend_api.Users.Services.{
  manager_create_user, manager_create_superuser, create_user, update_profile, change_password,
  mark_logged_in,
}
use saas_backend_api.Authentication.Services.{
  register_user, issue_verification_token, verify_email, resend_verification,
  request_password_reset, confirm_password_reset, logout, revoke_session,
}
use saas_backend_api.Authentication.Tokens.{login}
use saas_backend_api.Subscriptions.Services.{
  enroll_in_free_plan, subscribe, cancel, record_request, expire_due_subscriptions,
}
use saas_backend_api.Subscriptions.Seed.{handle}
use saas_backend_api.ApiKeys.Services.{create_api_key, revoke_api_key, rotate_api_key}
use saas_backend_api.ApiKeys.Authentication.{authenticate}
use saas_backend_api.Analytics.Middleware.{record_analytics}
use saas_backend_api.Analytics.Selectors.{rollup_daily_usage}
use saas_backend_api.System.Sessions.{login-Keeps, logout-Keeps, revoke_session-Keeps}
use saas_backend_api.System.Accounts.{
  manager_create_user-Keeps, manager_create_superuser-Keeps, create_user-Keeps,
  update_profile-Keeps, change_password-Keeps, mark_logged_in-Keeps, register_user-Keeps,
  issue_verification_token-Keeps, verify_email-Keeps, resend_verification-Keeps,
  request_password_reset-Keeps, confirm_password_reset-Keeps,
}
use saas_backend_api.System.Billing.{
  enroll_in_free_plan-Keeps, subscribe-Keeps, cancel-Keeps, record_request-Keeps,
  expire_due_subscriptions-Keeps,
}
use saas_backend_api.System.Keys.{
  handle-Keeps, create_api_key-Keeps, revoke_api_key-Keeps, rotate_api_key-Keeps,
  authenticate-Follows, record_analytics-Follows, rollup_daily_usage-Keeps,
}
use saas_backend_api.System.Sound.{IsSound, Follows, Follows-refl, Follows-trans}

-- The state after a call, whether it returned or raised.
abbrev pub after : Env → Call → State → State
after e (Call.manager_create_user email password extra) s =
    (manager_create_user e email password extra s).1
after e (Call.manager_create_superuser email password extra) s =
    (manager_create_superuser e email password extra s).1
after e (Call.create_user email password first_name last_name role) s =
    (create_user e email password first_name last_name role s).1
after e (Call.update_profile user first_name last_name) s =
    (update_profile user first_name last_name s).1
after e (Call.change_password user current new) s = (change_password e user current new s).1
after e (Call.mark_logged_in user) s = (mark_logged_in e user s).1
after e (Call.register_user email password first_name last_name) s =
    (register_user e email password first_name last_name s).1
after e (Call.issue_verification_token user) s = (issue_verification_token e user s).1
after e (Call.verify_email token) s = (verify_email e token s).1
after e (Call.resend_verification email) s = (resend_verification e email s).1
after e (Call.request_password_reset email) s = (request_password_reset e email s).1
after e (Call.confirm_password_reset token new_password) s =
    (confirm_password_reset e token new_password s).1
after e (Call.login check meta) s = (login e check meta s).1
after e (Call.logout token) s = (logout e token s).1
after e (Call.revoke_session user id) s = (revoke_session e user id s).1
after e (Call.enroll_in_free_plan user) s = (enroll_in_free_plan e user s).1
after e (Call.subscribe user slug) s = (subscribe e user slug s).1
after e (Call.cancel user) s = (cancel e user s).1
after e (Call.record_request user) s = (record_request e user s).1
after e Call.expire_due_subscriptions s = (expire_due_subscriptions e s).1
after e Call.seed s = (handle s).1
after e (Call.create_api_key user name) s = (create_api_key e user name s).1
after e (Call.revoke_api_key user id) s = (revoke_api_key e user id s).1
after e (Call.rotate_api_key user id) s = (rotate_api_key e user id s).1
after e (Call.authenticate header words) s = (authenticate e header words s).1
after e (Call.record_analytics user request response) s = record_analytics e user request response s
after e (Call.rollup_daily_usage target) s = (rollup_daily_usage e target s).1

-- Every call keeps the tables sound.
after-Follows : (e : Env) (c : Call) (s : State) → IsSound s → Follows s (after e c s)
after-Follows e (Call.manager_create_user email password extra) s h =
    (manager_create_user-Keeps e email password extra).keeps s h
after-Follows e (Call.manager_create_superuser email password extra) s h =
    (manager_create_superuser-Keeps e email password extra).keeps s h
after-Follows e (Call.create_user email password first_name last_name role) s h =
    (create_user-Keeps e email password first_name last_name role).keeps s h
after-Follows e (Call.update_profile user first_name last_name) s h =
    (update_profile-Keeps user first_name last_name).keeps s h
after-Follows e (Call.change_password user current new) s h =
    (change_password-Keeps e user current new).keeps s h
after-Follows e (Call.mark_logged_in user) s h = (mark_logged_in-Keeps e user).keeps s h
after-Follows e (Call.register_user email password first_name last_name) s h =
    (register_user-Keeps e email password first_name last_name).keeps s h
after-Follows e (Call.issue_verification_token user) s h =
    (issue_verification_token-Keeps e user).keeps s h
after-Follows e (Call.verify_email token) s h = (verify_email-Keeps e token).keeps s h
after-Follows e (Call.resend_verification email) s h = (resend_verification-Keeps e email).keeps s h
after-Follows e (Call.request_password_reset email) s h =
    (request_password_reset-Keeps e email).keeps s h
after-Follows e (Call.confirm_password_reset token new_password) s h =
    (confirm_password_reset-Keeps e token new_password).keeps s h
after-Follows e (Call.login check meta) s h = (login-Keeps e check meta).keeps s h
after-Follows e (Call.logout token) s h = (logout-Keeps e token).keeps s h
after-Follows e (Call.revoke_session user id) s h = (revoke_session-Keeps e user id).keeps s h
after-Follows e (Call.enroll_in_free_plan user) s h = (enroll_in_free_plan-Keeps e user).keeps s h
after-Follows e (Call.subscribe user slug) s h = (subscribe-Keeps e user slug).keeps s h
after-Follows e (Call.cancel user) s h = (cancel-Keeps e user).keeps s h
after-Follows e (Call.record_request user) s h = (record_request-Keeps e user).keeps s h
after-Follows e Call.expire_due_subscriptions s h = (expire_due_subscriptions-Keeps e).keeps s h
after-Follows e Call.seed s h = handle-Keeps.keeps s h
after-Follows e (Call.create_api_key user name) s h = (create_api_key-Keeps e user name).keeps s h
after-Follows e (Call.revoke_api_key user id) s h = (revoke_api_key-Keeps e user id).keeps s h
after-Follows e (Call.rotate_api_key user id) s h = (rotate_api_key-Keeps e user id).keeps s h
after-Follows e (Call.authenticate header words) s h = authenticate-Follows e header words s h
after-Follows e (Call.record_analytics user request response) s h =
    record_analytics-Follows e user request response s h
after-Follows e (Call.rollup_daily_usage target) s h = (rollup_daily_usage-Keeps e target).keeps s h

-- A call of some operation, at any time and with any outcome of the functions of the environment.
pub data Step : State → State → Type 0 where
  call : (e : Env) (c : Call) (s : State) → Step s (after e c s)

-- The states that calls can reach from `s`.
pub data Reach (s : State) : State → Type 0 where
  start : Reach s s
  next : {t u : State} → Reach s t → Step t u → Reach s u

Step-Follows : {s t : State} → Step s t → IsSound s → Follows s t
Step-Follows (call e c s) h = after-Follows e c s h

pub Reach-Follows : {s t : State} → IsSound s → Reach s t → Follows s t
Reach-Follows {s} h start = Follows-refl s h
Reach-Follows {s} h (next {t} {u} r st) =
    let before = Reach-Follows h r in Follows-trans s t u before (Step-Follows st before.sound)
