-- ===== src/Tests/OnSystem.antt =====
-- Witnesses for the properties of everything that the service can reach.
use saas_backend_api.System.Tables.{has_name}
use saas_backend_api.Subscriptions.Selectors.{
  is_users_active, get_plan_by_slug, get_active_subscription,
}
use saas_backend_api.Authentication.Models.{Token}
use saas_backend_api.Users.Models.{User, customer}
use saas_backend_api.ApiKeys.Models.{ApiKey}
use saas_backend_api.Prelude.{
  arith, ◌≡◌, ◌≢◌, first, ◌≤◌, refl, none, some, [], count, subst, ◌+◌, true, ◌*◌, false,
}
use saas_backend_api.Store.{State, err, error}
use saas_backend_api.System.Operations.{Call}
use saas_backend_api.System.Calls.{after, Reach, start, next, call}
use saas_backend_api.System.Reachable.{blank, reachable_unique}
use saas_backend_api.Tests.Fixture.{env, env_at, today}
use saas_backend_api.Subscriptions.Seed.{handle, seed_loop, update_or_create_plan}
use saas_backend_api.Subscriptions.Services.{create_subscription, enroll_in_free_plan}
use saas_backend_api.Users.Services.{manager_create, manager_create_user, create_user}
use saas_backend_api.Users.Selectors.{get_user_by_email, user_by_id}
use saas_backend_api.Authentication.Services.{
  register_user, issue_verification_token, verifying, token_by_hash, logout, refresh_token,
}
use saas_backend_api.ApiKeys.Authentication.{authenticate, refused}
use saas_backend_api.ApiKeys.Lifecycle.{IsCons}
use saas_backend_api.Common.Errors.{authentication_failed}
use saas_backend_api.Common.Utils.{generate_secure_token, take_text}
use saas_backend_api.ApiKeys.Services.{create_api_key, is_owned_key, revoke_api_key}
use saas_backend_api.Clock.{
  fifty_years_on, civil, year_of, month_at, days_before_month, is_leap, ordinal, days_in_month,
  replace_year,
}
use saas_backend_api.System.Isolation.{IsApart}
use saas_backend_api.System.Tenancy.{subject-isolated}
use saas_backend_api.System.Spent.{
  redeem, invalid, revoked_key-refused, used_token-refused, logged_out-refused,
}

-- The plans are seeded, Carol registers and creates a key.
abbrev seeded : State
seeded = after env Call.seed blank

abbrev pub registered : State
registered = after env (Call.register_user "carol@example.com" "pw" "Carol" "") seeded

abbrev keyed : State
keyed = after env (Call.create_api_key 3 "ci") registered

pub registered_is_reached : Reach blank registered
registered_is_reached =
    next (next start (call env Call.seed blank))
      (call env (Call.register_user "carol@example.com" "pw" "Carol" "") seeded)

keyed_is_reached : Reach blank keyed
keyed_is_reached = next registered_is_reached (call env (Call.create_api_key 3 "ci") registered)

reachable_unique_example :
    (count (is_users_active 3) keyed.db.subscriptions ≤ 1)
    × (count (has_name (λ u. u.id) (λ u. u.email) "carol@example.com") keyed.db.users ≤ 1)
    × (count (has_name (λ k. k.id) (λ k. k.key_hash) "carol@example.com") keyed.db.api_keys ≤ 1)
    × (count
          (has_name (λ t. t.id) (λ t. t.token_hash) "carol@example.com")
          keyed.db.verification_tokens
        ≤ 1)
    × (count (has_name (λ t. t.id) (λ t. t.token_hash) "carol@example.com") keyed.db.reset_tokens
        ≤ 1)
    × (count (has_name (λ r. r.id) (λ r. r.refresh_jti) "carol@example.com") keyed.db.sessions ≤ 1)
reachable_unique_example = reachable_unique keyed 3 "carol@example.com" keyed_is_reached

abbrev carol : User
carol = record {
  id = 3;
  email = "carol@example.com";
  password = "pw";
  first_name = "Carol";
  last_name = "";
  role = customer;
  is_active = true;
  is_verified = false;
  is_staff = false;
  is_superuser = false;
  last_login = none;
  last_login_at = none;
  created_at = today;
}

abbrev carol_key : ApiKey
carol_key = record {
  id = 10;
  user = 3;
  name = "ci";
  prefix = "sk_live_fres";
  key_hash = "sk_live_fresh";
  last_used_at = none;
  revoked_at = none;
  created_at = today;
}

abbrev carol_token : Token
carol_token = record {
  id = 8;
  user = 3;
  token_hash = "fresh";
  expires_at = today + 24 * 3600;
  used_at = none;
}

-- Somebody else names Carol's key.
subject-isolated_example : IsApart 3 keyed.db (after env (Call.revoke_api_key 7 10) keyed).db
subject-isolated_example =
    subject-isolated env (Call.revoke_api_key 7 10) 7 3 keyed keyed_is_reached refl (omega arith)

carol_there :
    (user_by_id 3 registered.db ≡ some carol)
    × (token_by_hash verifying "fresh" registered.db ≡ some carol_token)
    × (first (is_owned_key 3 10) keyed.db.api_keys ≡ some carol_key)
    × (refresh_token env "jti" registered.db ≡ some "jti")
unfolding handle seed_loop update_or_create_plan register_user create_user manager_create_user
    manager_create enroll_in_free_plan create_subscription issue_verification_token
    generate_secure_token get_plan_by_slug fifty_years_on civil year_of month_at days_before_month
    is_leap ordinal days_in_month replace_year get_user_by_email take_text create_api_key
    get_active_subscription
carol_there = (refl, refl, refl, refl)

key_text-ne-empty : carol_key.key_hash ≢ ""
key_text-ne-empty h = subst IsCons h tt

revoked_key-refused_example :
    (authenticate
      (env_at (today + 60))
      (some "sk_live_fresh")
      []
      (after env Call.expire_due_subscriptions (revoke_api_key env 3 10 keyed).1)).0
    ≡ refused "Invalid API key."
revoked_key-refused_example =
    revoked_key-refused env (env_at (today + 60)) 3 carol_key "sk_live_fresh" [] keyed
      (after env Call.expire_due_subscriptions (revoke_api_key env 3 10 keyed).1) keyed_is_reached
      carol_there.2 refl
      (next start (call env Call.expire_due_subscriptions (revoke_api_key env 3 10 keyed).1)) refl
      refl key_text-ne-empty

-- Carol asks for another token in between.
abbrev asked_again : State
asked_again =
    after env (Call.resend_verification "carol@example.com")
      (redeem verifying env "fresh" "" registered).1

used_token-refused_example :
    redeem verifying (env_at (today + 60)) "fresh" "" asked_again
    ≡ (err (invalid verifying), asked_again)
used_token-refused_example =
    used_token-refused verifying env (env_at (today + 60)) "fresh" "" "" carol_token carol
      registered asked_again registered_is_reached carol_there.1 refl carol_there.0
      (next start (
        call env (Call.resend_verification "carol@example.com")
          (redeem verifying env "fresh" "" registered).1))
      refl

abbrev logged_out : State
logged_out = (logout env "jti" registered).1

logged_out-refused_example :
    (refresh_token (env_at (today + 60)) "jti" logged_out.db ≡ none)
    × (logout (env_at (today + 60)) "jti" logged_out ≡ (
      err (error authentication_failed "Invalid refresh token." "invalid_refresh_token"),
      logged_out,
    ))
logged_out-refused_example =
    logged_out-refused env (env_at (today + 60)) "jti" "jti" "jti" registered logged_out
      registered_is_reached carol_there.3 start refl
