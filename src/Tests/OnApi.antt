-- ===== src/Tests/OnApi.antt =====
-- Witnesses for the properties of the API.
use saas_backend_api.Subscriptions.Selectors.{get_active_subscription}
use mathlib.Core.List.{Memᴰ}
use saas_backend_api.Prelude.{
  ℕ, zero, suc, ◌≡◌, refl, ap, String, true, Option, some, none, [], ◌∷◌, arith,
}
use saas_backend_api.Store.{State, Action, pure}
use saas_backend_api.Users.Models.{User}
use saas_backend_api.Api.Routes.{
  View, lit, uuid, Route, path, urlpatterns, api_v1_patterns, include, resolve_path,
}
use saas_backend_api.Api.Resolution.{fill}
use saas_backend_api.Api.Paths.{is_plain, joined, reverse, resolve_path-reverse}
use saas_backend_api.Api.Endpoints.{Endpoint}
use saas_backend_api.Api.Dispatch.{respond}
use saas_backend_api.Api.Privacy.{IsAlike, is_own_read, respond-private}
use saas_backend_api.Api.Undisturbed.{read-undisturbed}
use saas_backend_api.System.Operations.{Call}
use saas_backend_api.System.Calls.{after}
use saas_backend_api.Tests.Fixture.{env, alice, alice_sub, alice_quota, installed}
use saas_backend_api.Tests.OnSystem.{registered, registered_is_reached}

-- UUIDs written in unary.
abbrev print : ℕ → String
print zero = ""
print (suc n) = String.◌∷◌ "a" (print n)

abbrev one_more : Option ℕ → Option ℕ
one_more none = none
one_more (some n) = some (suc n)

abbrev parse : String → Option ℕ
parse String.[] = some 0
parse (String.◌∷◌ c s) = one_more (parse s)

parse-print : (n : ℕ) → parse (print n) ≡ some n
parse-print zero = refl
parse-print (suc n) = ap one_more (parse-print n)

print-is_plain : (n : ℕ) → is_plain (print n) ≡ true
unfolding is_plain
print-is_plain zero = refl
print-is_plain (suc n) = print-is_plain n

abbrev revoke_route : Route
revoke_route =
    path (lit "api" ∷ lit "v1" ∷ lit "auth" ∷ lit "sessions" ∷ uuid ∷ lit "revoke" ∷ [])
      View.session_revoke_view

revoke_route_listed : Memᴰ revoke_route urlpatterns
unfolding urlpatterns api_v1_patterns include
revoke_route_listed = Memᴰ.tail (
    Memᴰ.tail (
      Memᴰ.tail (
        Memᴰ.tail (
          Memᴰ.tail (Memᴰ.tail (Memᴰ.tail (Memᴰ.tail (Memᴰ.tail (Memᴰ.tail (Memᴰ.head refl))))))))))

revoke_url : reverse print revoke_route (2 ∷ []) ≡ some "/api/v1/auth/sessions/aa/revoke/"
unfolding reverse fill joined
revoke_url = refl

resolve_path-reverse_example :
    resolve_path parse urlpatterns "/api/v1/auth/sessions/aa/revoke/"
    ≡ some (View.session_revoke_view, 2 ∷ [])
resolve_path-reverse_example =
    resolve_path-reverse parse print parse-print print-is_plain revoke_route (2 ∷ [])
      "/api/v1/auth/sessions/aa/revoke/" revoke_route_listed revoke_url

-- The JWT library finds no token, and would refresh none.
abbrev post : String → Action (Unit {0})
post token = pure tt

-- Alice is a customer, and asks for the figures of the whole system with her key.
abbrev system_route : Route
system_route =
    path (lit "api" ∷ lit "v1" ∷ lit "dashboard" ∷ lit "system" ∷ lit "overview" ∷ [])
      View.system_overview_view

-- The installation without Bob.
abbrev without_bob : State
without_bob = record installed {
  db = record installed.db {
    users = alice ∷ [];
    subscriptions = alice_sub ∷ [];
    quotas = alice_quota ∷ [];
  };
}

alike : IsAlike 0 installed.db without_bob.db
unfolding get_active_subscription
alike = record {
  plans = refl;
  keys = refl;
  sessions = refl;
  subscriptions = refl;
  quotas = λ sub own. ground (arith, own);
  logs = refl;
  usages = refl;
}

reads : is_own_read Endpoint.my_subscription ≡ true
unfolding is_own_read
reads = refl

respond-private_example :
    ((respond post env (some alice) Endpoint.my_subscription installed).0
      ≡ (respond post env (some alice) Endpoint.my_subscription without_bob).0)
    × ((respond post env (some alice) Endpoint.my_subscription installed).1 ≡ installed)
respond-private_example =
    respond-private post env alice Endpoint.my_subscription installed without_bob reads alike

-- Carol's overview while another user subscribes to the Pro plan.
abbrev carol : User
carol = record alice { id = 3; email = "carol@example.com" }

read-undisturbed_example :
    (respond post env
      (some carol)
      Endpoint.my_subscription
      (after env (Call.subscribe 40 "pro") registered)).0
    ≡ (respond post env (some carol) Endpoint.my_subscription registered).0
read-undisturbed_example =
    read-undisturbed post env env (Call.subscribe 40 "pro") 40 carol Endpoint.my_subscription
      registered registered_is_reached refl (λ e. ground (arith, e)) reads
