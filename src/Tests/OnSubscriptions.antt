-- ===== src/Tests/OnSubscriptions.antt =====
-- Witnesses for the properties of subscriptions.
use saas_backend_api.Prelude.{
  ◌≡◌, ◌≢◌, ◌-◌, ◌+◌, ◌*◌, ◌⊎◌, min, arith, refl, some, none, [], length, true, false,
}
use saas_backend_api.Clock.{day}
use saas_backend_api.Store.{ok, error_of}
use saas_backend_api.Subscriptions.Models.{Subscription}
use saas_backend_api.Subscriptions.Selectors.{
  get_active_subscription, get_current_quota, get_plan_by_slug,
}
use saas_backend_api.Subscriptions.Services.{
  new_subscription, subscribe, cancel, expire_due_subscriptions, enroll_in_free_plan,
}
use saas_backend_api.Subscriptions.Enrollment.{IsValid}
use saas_backend_api.Subscriptions.Changes.{
  subscribe_switches, subscribe_errors, cancel_falls_back, refusal,
}
use saas_backend_api.Subscriptions.Usage.{IsBilled, run_requests, run_requests-limit}
use saas_backend_api.Subscriptions.Expiry.{due}
use saas_backend_api.Subscriptions.Expiry.Sweep.{
  expire_due_subscriptions-idempotent, expire_due_subscriptions-by_user, is_due_sub,
}
use saas_backend_api.Subscriptions.LeapDay.{leap_day-blocks}
use saas_backend_api.Tests.Fixture.{
  env, env_at, today, in_fifty_years, leap_day, installed, alice_sub, bob_sub, alice_quota,
  free_plan, pro_plan, is_leap_day, installed-IsValid, date_exists,
}

subscribe_switches_example :
    let (r, s') = subscribe env 0 "pro" installed in
    let sub = new_subscription env 0 pro_plan true 20 in
    (r ≡ ok sub)
    × IsValid s'
    × (get_active_subscription 0 s'.db ≡ some sub)
    × (sub.plan ≡ 3)
    × (get_active_subscription 1 s'.db ≡ get_active_subscription 1 installed.db)
unfolding get_plan_by_slug get_active_subscription
subscribe_switches_example =
    subscribe_switches env 0 1 "pro" pro_plan (today + 30 * day) installed installed-IsValid refl
      refl refl (omega arith)

subscribe_errors_example :
    let (r, s') = subscribe env 1 "pro" installed in
    let expected =
      refusal (get_plan_by_slug "pro" installed.db) (get_active_subscription 1 installed.db) in
    (error_of r ≡ expected) × ((expected ≡ none) ⊎ (s' ≡ installed))
subscribe_errors_example =
    subscribe_errors env 1 "pro" in_fifty_years installed installed-IsValid date_exists

cancel_falls_back_example :
    let (r, s') = cancel env 1 installed in
    let fresh = new_subscription env 1 free_plan false 20 in
    (r ≡ ok fresh)
    × IsValid s'
    × (get_active_subscription 1 s'.db ≡ some fresh)
    × ((fresh.plan ≡ 2) × (fresh.expires_at ≡ none))
    × (get_active_subscription 0 s'.db ≡ get_active_subscription 0 installed.db)
unfolding get_plan_by_slug get_active_subscription
cancel_falls_back_example =
    cancel_falls_back env 1 0 bob_sub free_plan in_fifty_years installed installed-IsValid refl refl
      date_exists (omega arith)

alice_IsBilled : IsBilled env 0 alice_sub free_plan alice_quota installed
unfolding get_active_subscription get_current_quota
alice_IsBilled = record {
  valid = installed-IsValid;
  subscribed = refl;
  on_plan = refl;
  metered = refl;
}

run_requests-limit_example : (run_requests env 0 5 installed).0 ≡ min 5 (1000 - 998)
run_requests-limit_example =
    run_requests-limit env 0 alice_sub free_plan alice_quota 5 installed alice_IsBilled
      (omega arith) (omega arith)

expire_due_subscriptions-idempotent_example :
    let (r, s') = expire_due_subscriptions env installed in
    (r ≡ ok (length (due today installed.db)))
    × IsValid s'
    × (due today s'.db ≡ [])
    × (expire_due_subscriptions env s' ≡ (ok 0, s'))
unfolding get_plan_by_slug
expire_due_subscriptions-idempotent_example =
    expire_due_subscriptions-idempotent env free_plan in_fifty_years installed installed-IsValid
      refl date_exists

expire_due_subscriptions-by_user_example :
    let after = get_active_subscription 1 (expire_due_subscriptions env installed).1.db in
    let before = get_active_subscription 1 installed.db in
    ((is_due_sub today before ≡ false) × (after ≡ before))
    ⊎ ((is_due_sub today before ≡ true)
        × ((sub : Subscription) × (after ≡ some sub) × (sub.plan ≡ 2) × (sub.expires_at ≡ none)))
unfolding get_plan_by_slug
expire_due_subscriptions-by_user_example =
    expire_due_subscriptions-by_user env free_plan in_fifty_years 1 installed installed-IsValid refl
      date_exists

leap_day-blocks_example :
    let (enrolled, s₁) = enroll_in_free_plan (env_at leap_day) 5 installed in
    let (canceled, s₂) = cancel (env_at leap_day) 5 installed in
    let (swept, s₃) = expire_due_subscriptions (env_at leap_day) installed in
    ((error_of enrolled ≢ none) × (s₁.db ≡ installed.db))
    × ((error_of canceled ≢ none) × (s₂.db ≡ installed.db))
    × ((swept ≡ ok 0) × (s₃.db ≡ installed.db))
leap_day-blocks_example = leap_day-blocks (env_at leap_day) 5 installed is_leap_day
