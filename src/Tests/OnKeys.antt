-- ===== src/Tests/OnKeys.antt =====
-- Witnesses for the properties of API keys.
use saas_backend_api.ApiKeys.Lifecycle.{create-authenticate}
use saas_backend_api.ApiKeys.Access.{IsGenuine, authenticate-IsGenuine}
use saas_backend_api.Store.{ok, err}
use saas_backend_api.Common.Utils.{take_text}
use saas_backend_api.Tests.Fixture.{
  installed, env, alice_sub, bob_sub, pro_plan, free_plan, bob, alice_key, alice,
}
use saas_backend_api.Subscriptions.Selectors.{get_active_subscription}
use saas_backend_api.ApiKeys.Limits.{
  active_keys, after_revoke, Allows, on_plan, issued, after_issue, rotate_api_key-limit,
  create_api_key-limit,
}
use saas_backend_api.ApiKeys.Services.{create_api_key, rotate_api_key, limit_error}
use saas_backend_api.ApiKeys.Authentication.{authenticate, extract_key, authenticated, key}
use saas_backend_api.Prelude.{◌≡◌, arith, refl, some, ◌<◌, ◌≤◌, String, [], ◌⊎◌, ◌+◌}

-- Bob is on the Pro plan, with ten keys allowed; Alice on the Free plan, with one.
bob_Allows : Allows 1 10 installed
unfolding get_active_subscription
bob_Allows = on_plan bob_sub pro_plan refl refl refl

alice_Allows : Allows 0 1 installed
unfolding get_active_subscription
alice_Allows = on_plan alice_sub free_plan refl refl refl

create_api_key-limit_example :
    ((active_keys 0 installed < 1)
      × (create_api_key env 0 "ci" installed
          ≡ (ok (issued env 0 "ci" installed), after_issue env 0 "ci" installed))
      × (active_keys 0 (after_issue env 0 "ci" installed) ≡ active_keys 0 installed + 1))
    ⊎ ((1 ≤ active_keys 0 installed)
        × (create_api_key env 0 "ci" installed
            ≡ (err (limit_error 1 (active_keys 0 installed)), installed)))
create_api_key-limit_example = create_api_key-limit env 0 1 "ci" installed alice_Allows refl

rotate_api_key-limit_example :
    let s₁ = after_revoke env 9 installed in
    ((active_keys 0 installed ≤ 1)
      × (rotate_api_key env 0 9 installed ≡ (ok (issued env 0 "ci" s₁), after_issue env 0 "ci" s₁))
      × (active_keys 0 (after_issue env 0 "ci" s₁) ≡ active_keys 0 installed))
    ⊎ ((1 < active_keys 0 installed)
        × (rotate_api_key env 0 9 installed ≡ (err (limit_error 1 (active_keys 0 s₁)), installed)))
rotate_api_key-limit_example =
    rotate_api_key-limit env 0 1 9 alice_key installed (omega arith, refl, tt) alice_Allows refl
      refl refl

create-authenticate_example :
    let (r, s') = create_api_key env 1 "ci" installed in
    let i = issued env 1 "ci" installed in
    (r ≡ ok i) × ((authenticate env (some i.plaintext) [] s').0 ≡ authenticated bob i.api_key)
create-authenticate_example =
    create-authenticate env 1 10 "ci" bob [] installed bob_Allows (omega arith) refl refl refl refl

authenticate-IsGenuine_example :
    (text : String) × (extract_key env (some "sk_live_oldkey") [] ≡ key text)
    × IsGenuine env text alice alice_key installed
unfolding authenticate extract_key take_text
authenticate-IsGenuine_example =
    authenticate-IsGenuine env (some "sk_live_oldkey") [] alice alice_key installed refl
