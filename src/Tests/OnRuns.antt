-- ===== src/Tests/OnRuns.antt =====
-- Witnesses for the properties of runs of operations on subscriptions.
use saas_backend_api.ApiKeys.Concurrent.{
  create_api_key-race, create_api_key-concurrent_limit, at_rest, Reach as Reach_keys,
}
use saas_backend_api.ApiKeys.Limits.{Allows, on_plan, active_keys, after_issue}
use saas_backend_api.Prelude.{
  ◌≡◌, ◌+◌, ◌*◌, ◌<◌, min, arith, refl, some, List, [], ◌∷◌, if◌then◌else◌, ◌==◌,
}
use saas_backend_api.Clock.{day}
use saas_backend_api.Store.{Env, State}
use saas_backend_api.Subscriptions.Models.{UsageQuota}
use saas_backend_api.Subscriptions.Selectors.{
  get_active_subscription, get_current_quota, get_plan_by_slug,
}
use saas_backend_api.Subscriptions.Services.{
  enroll_in_free_plan, current_or_rotate_quota, increment_quota,
}
use saas_backend_api.Subscriptions.Usage.{IsBilled, run_requests}
use saas_backend_api.Subscriptions.Usage.Concurrent.{
  admit, head, Running, Step, admitted, charged, Reach, start, next, concurrent-limit,
}
use saas_backend_api.Subscriptions.Usage.Periods.{run_at, free_quota-lifetime}
use saas_backend_api.Subscriptions.Usage.Rotation.{run_requests-next_period}
use saas_backend_api.Subscriptions.Book.{
  Order, to_subscribe, to_cancel, to_enroll, view, Matches, obey_all, serve_all,
}
use saas_backend_api.Subscriptions.Book.Simulation.{serve_all-refines}
use saas_backend_api.Tests.Fixture.{
  env, env_at, today, in_fifty_years, installed, alice_sub, alice_quota, free_plan,
  installed-IsValid, date_exists,
}

alice_IsMetered : IsBilled env 0 alice_sub free_plan alice_quota installed
unfolding get_active_subscription get_current_quota
alice_IsMetered = record {
  valid = installed-IsValid;
  subscribed = refl;
  on_plan = refl;
  metered = refl;
}

-- Two requests are admitted, and the quota is charged for one of them.
abbrev idle : Running
idle = record { pending = []; written = 0; state = installed }

abbrev one_in : Running
one_in = record { pending = 5 ∷ []; written = 0; state = installed }

abbrev two_in : Running
two_in = record { pending = 5 ∷ 5 ∷ []; written = 0; state = installed }

abbrev one_charged : Running
one_charged = record { pending = 5 ∷ []; written = 1; state = (increment_quota 5 installed).1 }

interleaved : Reach env 0 2 idle one_charged
unfolding admit current_or_rotate_quota get_active_subscription get_current_quota
interleaved =
    let first_in : Step env 0 2 idle one_in = admitted 5 (omega arith) refl refl in
    let second_in : Step env 0 2 one_in two_in = admitted 5 (omega arith) refl refl in
    next (next (next start first_in) second_in) (charged 5 (5 ∷ []) (head (5 ∷ [])) refl)

concurrent-limit_example :
    (used : UsageQuota) × (get_current_quota today alice_sub one_charged.state.db ≡ some used)
    × (used.id ≡ 5)
    × (used.requests_used ≡ 998 + 1)
    × (used.requests_used + 1 < 1000 + 2)
concurrent-limit_example =
    concurrent-limit env 0 2 alice_sub free_plan alice_quota installed one_charged (omega arith)
      (omega arith) alice_IsMetered (omega arith) (omega arith) interleaved

free_quota-lifetime_example :
    (run_at env 5 (today ∷ (today + 40 * day) ∷ []) (enroll_in_free_plan env 5 installed).1).0
    ≡ min 2 1000
unfolding get_plan_by_slug
free_quota-lifetime_example =
    free_quota-lifetime env 5 free_plan in_fifty_years installed installed-IsValid refl date_exists
      refl (today ∷ (today + 40 * day) ∷ []) refl (omega arith) (omega arith) (ground arith)

run_requests-next_period_example :
    (run_requests (env_at (today + 1000)) 0 3 installed).0 ≡ min 3 1000
unfolding get_active_subscription get_current_quota
run_requests-next_period_example =
    run_requests-next_period (env_at (today + 1000)) 0 alice_sub free_plan installed
      installed-IsValid refl refl refl (ground arith) (omega arith) 3 (omega arith)

-- Alice changes to the Pro plan, cancels, and is enrolled in vain.
abbrev orders : List (Env × Order)
orders = (env, to_subscribe 0 "pro") ∷ (env, to_cancel 0) ∷ (env, to_enroll 0) ∷ []

installed-Matches : Matches installed.db.plans (view installed) installed
installed-Matches = record { valid = installed-IsValid; catalogue = refl; agrees = λ u. refl }

serve_all-refines_example :
    let (answers, book) = obey_all installed.db.plans orders (view installed) in
    let (outcomes, s') = serve_all orders installed in
    (outcomes ≡ answers) × Matches installed.db.plans book s'
serve_all-refines_example =
    serve_all-refines installed.db.plans orders (view installed) installed installed-Matches (
      (in_fifty_years, date_exists),
      ((in_fifty_years, date_exists), ((in_fifty_years, date_exists), tt)),
    )

-- Alice has no key yet, and her plan allows one; the two secrets differ.
abbrev racing_env : Env
racing_env = record env { token_urlsafe = λ n. if n == 20 then "first" else "second" }

abbrev keyless : State
keyless = record installed { db = record installed.db { api_keys = [] } }

keyless-Allows : Allows 0 1 keyless
unfolding get_active_subscription
keyless-Allows = on_plan alice_sub free_plan refl refl refl

both_issued :
    Reach_keys 0 2
      (at_rest keyless)
      (at_rest (after_issue racing_env 0 "ci" (after_issue racing_env 0 "ci" keyless)))
    × (active_keys 0 (after_issue racing_env 0 "ci" (after_issue racing_env 0 "ci" keyless))
        ≡ 1 + 1)
both_issued = create_api_key-race racing_env 0 1 "ci" keyless keyless-Allows refl refl refl

create_api_key-race_example :
    Reach_keys 0 2
      (at_rest keyless)
      (at_rest (after_issue racing_env 0 "ci" (after_issue racing_env 0 "ci" keyless)))
    × (active_keys 0 (after_issue racing_env 0 "ci" (after_issue racing_env 0 "ci" keyless))
        ≡ 1 + 1)
create_api_key-race_example =
    create_api_key-race racing_env 0 1 "ci" keyless keyless-Allows refl refl refl

create_api_key-concurrent_limit_example :
    active_keys 0 (after_issue racing_env 0 "ci" (after_issue racing_env 0 "ci" keyless)) + 0
    < 1 + 2
create_api_key-concurrent_limit_example =
    create_api_key-concurrent_limit 0 1 2 keyless
      (at_rest (after_issue racing_env 0 "ci" (after_issue racing_env 0 "ci" keyless)))
      (omega arith) keyless-Allows (omega arith) both_issued.0
