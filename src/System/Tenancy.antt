-- ===== src/System/Tenancy.antt =====
-- Isolation of the users: the rows of the others under the calls that concern one of them.
use saas_backend_api.Authentication.Services.{logout, refresh_token, is_open_session}
use saas_backend_api.Authentication.Models.{UserSession}
use saas_backend_api.Prelude.{
  sym, first, Option-cases, inl, inr, String, ℕ, ◌≡◌, ◌≢◌, refl, Option, none, some, subst,
}
use saas_backend_api.Store.{Env, State, Db}
use saas_backend_api.Users.Services.{with_names, logged_in, update_profile, mark_logged_in}
use saas_backend_api.System.Operations.{Call}
use saas_backend_api.System.Sound.{IsSound}
use saas_backend_api.System.Calls.{after, Reach}
use saas_backend_api.System.Reachable.{blank, Reach-IsSound}
use saas_backend_api.System.Isolation.{
  IsApart, create_api_key-IsApart, enroll-IsApart, revoke_api_key-IsApart, revoke_session-IsApart,
  rotate_api_key-IsApart, subscribe-IsApart, cancel-IsApart, save_user-IsApart,
  record_request-IsApart, change_password-IsApart, issue-IsApart, logout-IsApart,
}

-- The user of the open session that a good refresh token belongs to.
abbrev pub session_user : Option UserSession → Option ℕ
session_user none = none
session_user (some r) = some r.user

abbrev pub session_of : Option String → Db → Option ℕ
session_of none db = none
session_of (some jti) db = session_user (first (is_open_session jti) db.sessions)

-- The user whom a call concerns: the one that the service is given, and for a logout, which is given
-- a refresh token by whoever posts it, the owner of the token's open session. The calls that are
-- left out look a user up otherwise, or are of the whole service; `record_analytics` adds to the
-- log.
abbrev pub subject : Env → Call → Db → Option ℕ
subject e (Call.update_profile user first_name last_name) db = some user.id
subject e (Call.change_password user current new) db = some user.id
subject e (Call.mark_logged_in user) db = some user.id
subject e (Call.issue_verification_token user) db = some user.id
subject e (Call.revoke_session user id) db = some user
subject e (Call.enroll_in_free_plan user) db = some user
subject e (Call.subscribe user slug) db = some user
subject e (Call.cancel user) db = some user
subject e (Call.record_request user) db = some user
subject e (Call.create_api_key user name) db = some user
subject e (Call.revoke_api_key user id) db = some user
subject e (Call.rotate_api_key user id) db = some user
subject e (Call.logout token) db = session_of (refresh_token e token db) db
subject e _ db = none

-- What a call that concerns a user owes to the user `v`.
abbrev Spares : ℕ → State → State → Option ℕ → Type 0
Spares v s t none = Unit
Spares v s t (some u) = u ≢ v → IsApart v s.db t.db

logout-Spares :
    (e : Env) (token : String) (v : ℕ) (s : State)
    → IsSound s
    → Spares v s (logout e token s).1 (session_of (refresh_token e token s.db) s.db)
logout-Spares e token v s h =
    let t = (logout e token s).1 in
    elim (Option-cases (refresh_token e token s.db)) [
      | inl bad ↦ subst (λ o. Spares v s t (session_of o s.db)) (sym bad) tt
      | inr (jti, good) ↦ elim (Option-cases (first (is_open_session jti) s.db.sessions)) [
        | inl nothing ↦
            subst (λ o. Spares v s t (session_of o s.db)) (sym good)
              (subst (λ o. Spares v s t (session_user o)) (sym nothing) tt)
        | inr (r, found) ↦
            subst (λ o. Spares v s t (session_of o s.db)) (sym good)
              (subst (λ o. Spares v s t (session_user o)) (sym found)
                (λ ne. logout-IsApart r.user v ne e token jti r s h good found refl))
      ]
    ]

after-Spares :
    (e : Env) (c : Call) (v : ℕ) (s : State)
    → IsSound s
    → Spares v s (after e c s) (subject e c s.db)
unfolding update_profile mark_logged_in
after-Spares e (Call.update_profile user first_name last_name) v s h =
    λ ne. save_user-IsApart user.id v ne (with_names first_name last_name) s (λ x. refl)
after-Spares e (Call.change_password user current new) v s h =
    λ ne. change_password-IsApart e user v current new s ne
after-Spares e (Call.mark_logged_in user) v s h =
    λ ne. save_user-IsApart user.id v ne (logged_in e.now) s (λ x. refl)
after-Spares e (Call.issue_verification_token user) v s h = λ ne. issue-IsApart e user v s ne
after-Spares e (Call.revoke_session user id) v s h = λ ne. revoke_session-IsApart user v ne e id s h
after-Spares e (Call.enroll_in_free_plan user) v s h = λ ne. enroll-IsApart user v ne e s
after-Spares e (Call.subscribe user slug) v s h = λ ne. subscribe-IsApart user v ne e slug s h
after-Spares e (Call.cancel user) v s h = λ ne. cancel-IsApart user v ne e s h
after-Spares e (Call.record_request user) v s h = λ ne. record_request-IsApart user v ne e s
after-Spares e (Call.create_api_key user name) v s h =
    λ ne. create_api_key-IsApart user v ne e name s
after-Spares e (Call.revoke_api_key user id) v s h = λ ne. revoke_api_key-IsApart user v ne e id s h
after-Spares e (Call.rotate_api_key user id) v s h = λ ne. rotate_api_key-IsApart user v ne e id s h
after-Spares e (Call.manager_create_user email password extra) v s h = tt
after-Spares e (Call.manager_create_superuser email password extra) v s h = tt
after-Spares e (Call.create_user email password first_name last_name role) v s h = tt
after-Spares e (Call.register_user email password first_name last_name) v s h = tt
after-Spares e (Call.verify_email token) v s h = tt
after-Spares e (Call.resend_verification email) v s h = tt
after-Spares e (Call.request_password_reset email) v s h = tt
after-Spares e (Call.confirm_password_reset token new_password) v s h = tt
after-Spares e (Call.login check meta) v s h = tt
after-Spares e (Call.logout token) v s h = logout-Spares e token v s h
after-Spares e Call.expire_due_subscriptions v s h = tt
after-Spares e Call.seed v s h = tt
after-Spares e (Call.authenticate header words) v s h = tt
after-Spares e (Call.record_analytics user request response) v s h = tt
after-Spares e (Call.rollup_daily_usage target) v s h = tt

-- In every state that the service can reach, a call that concerns one user leaves the rows of every
-- other user as they are: the account, the keys, the sessions, the subscriptions and the tokens,
-- whether the call returns or raises and whatever key of another's row it is given. The calls are
-- those of the services that are given their user (the profile, the password, the login time, a
-- verification token, the revocation of a session, the enrolment, the change and the cancellation
-- of a subscription, the counting of a request, and the creation, revocation and rotation of a
-- key), and the logout, which concerns the owner of the open session of its refresh token, whoever
-- posts it.
pub subject-isolated :
    (e : Env) (c : Call) (u v : ℕ) (s : State)
    → Reach blank s
    → subject e c s.db ≡ some u
    → u ≢ v
    → IsApart v s.db (after e c s).db
subject-isolated e c u v s reached acts ne =
    subst (Spares v s (after e c s)) acts (after-Spares e c v s (Reach-IsSound s reached)) ne
