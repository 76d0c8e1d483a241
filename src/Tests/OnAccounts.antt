-- ===== src/Tests/OnAccounts.antt =====
-- Witnesses for the properties of registration, tokens, sessions and login.
use saas_backend_api.Users.Passwords.{change_password-by_current}
use saas_backend_api.Subscriptions.Services.{new_subscription}
use saas_backend_api.Authentication.OneShot.{
  is_open, confirm_password_reset-once, verify_email-once,
}
use saas_backend_api.Common.Errors.{validation_error, authentication_failed}
use saas_backend_api.Users.Services.{with_password, change_password}
use saas_backend_api.Authentication.Sessions.{login-gate, logout-once, unseen}
use saas_backend_api.Users.Models.{User, customer}
use saas_backend_api.Authentication.Registration.{CanRegister, registered, register-verify}
use saas_backend_api.Tests.Fixture.{
  env, alice, no_meta, installed, free_plan, in_fifty_years, env_at, installed-IsValid, today,
  date_exists, open_token,
}
use saas_backend_api.Subscriptions.Selectors.{get_plan_by_slug, get_active_subscription}
use saas_backend_api.Authentication.Tokens.{login}
use saas_backend_api.Store.{Db, err, error_of, ok, error, verification}
use saas_backend_api.Users.Selectors.{get_user_by_email, user_by_id}
use saas_backend_api.Authentication.Services.{
  register_user, verify_email, logout, confirm_password_reset, is_listed, verified, is_open_session,
}
use saas_backend_api.Prelude.{
  ◌≡◌, ◌≢◌, arith, refl, some, none, ◌∷◌, true, false, Option, [], exists, ◌⊎◌, ◌+◌, ℕ, String,
  str_eq_self, map,
}

-- Carol's registration, with the Free plan there.
installed-CanRegister : CanRegister env "carol@example.com" free_plan in_fifty_years installed
unfolding get_user_by_email get_plan_by_slug
installed-CanRegister = record {
  valid = installed-IsValid;
  some_email = refl;
  untaken = refl;
  unused = refl;
  unsubscribed = refl;
  free_plan = refl;
  date = date_exists;
  fresh = refl;
}

register-verify_example :
    let (r, s') = register_user env "carol@example.com" "pw" "Carol" "" installed in
    let u = registered env "carol@example.com" "pw" "Carol" "" installed in
    (r ≡ ok u)
    × ((u.is_active ≡ true) × (u.is_verified ≡ false) × (u.role ≡ customer))
    × (get_active_subscription u.id s'.db ≡ some (new_subscription env u.id free_plan false 22))
    × (s'.outbox ≡ record { kind = verification; user_id = u.id; token = "fresh" } ∷ [])
    × (let (answer, s'') = verify_email (env_at (today + 60)) "fresh" s' in
        (answer ≡ ok (verified u)) × (user_by_id u.id s''.db ≡ some (verified u)))
register-verify_example =
    register-verify env "carol@example.com" "pw" "Carol" "" free_plan in_fifty_years (today + 60)
      installed installed-CanRegister (omega arith)

verify_email-once_example :
    let (r, s') = verify_email env "token" installed in
    (r ≡ ok (verified alice))
    × ((v : User) × (user_by_id 0 s'.db ≡ some v) × (v.is_verified ≡ true))
    × (verify_email env "token" s' ≡ (
      err (error validation_error "Invalid or expired verification token." "invalid_token"),
      s',
    ))
verify_email-once_example = verify_email-once env "token" open_token alice installed refl refl refl

confirm_password_reset-once_example :
    let (r, s') = confirm_password_reset env "token" "new" installed in
    (r ≡ ok (with_password env 20 "new" alice))
    × (user_by_id 0 s'.db ≡ some (with_password env 20 "new" alice))
    × (exists (is_open 0) s'.db.reset_tokens ≡ false)
    × (confirm_password_reset env "token" "again" s'
        ≡ (err (error validation_error "Invalid or expired reset token." "invalid_token"), s'))
confirm_password_reset-once_example =
    confirm_password_reset-once env "token" "new" "again" open_token alice installed refl refl refl

logout-once_example :
    let (r, s') = logout env "session" installed in
    (r ≡ ok tt)
    × (is_listed "session" s'.db.blacklist ≡ true)
    × (exists (is_open_session "session") s'.db.sessions ≡ false)
    × (logout env "session" s'
        ≡ (err (error authentication_failed "Invalid refresh token." "invalid_refresh_token"), s'))
logout-once_example = logout-once env "session" "session" installed (refl, tt) refl refl

-- Django's backend, on the fixture's passwords.
abbrev by_email : Db → Option User
by_email db = get_user_by_email env "alice@example.com" db

login-gate_example :
    let (r, s') = login env by_email no_meta installed in
    (error_of r ≢ none)
    × (s'.db ≡ record installed.db { users = s'.db.users; outstanding = s'.db.outstanding })
    × (map unseen s'.db.users ≡ map unseen installed.db.users)
unfolding get_user_by_email
login-gate_example = login-gate env by_email no_meta alice installed refl refl

-- A text matches itself in the fixture's hashing.
check-make : (salt : ℕ) (raw : String) → env.check_password raw (env.make_password salt raw) ≡ true
check-make salt raw = str_eq_self raw

change_password-by_current_example :
    let (r, s') = change_password env alice "x" "new" installed in
    ((env.check_password "x" alice.password ≡ true)
      × (r ≡ ok tt)
      × ((v : User) × (user_by_id 0 s'.db ≡ some v)
          × (env.check_password "new" v.password ≡ true)
          × (v ≡ record alice { password = v.password })))
    ⊎ ((env.check_password "x" alice.password ≡ false)
        × (r
            ≡ err (error authentication_failed "Current password is incorrect." "invalid_password"))
        × (s' ≡ installed))
change_password-by_current_example =
    change_password-by_current env alice "x" "new" installed check-make refl
