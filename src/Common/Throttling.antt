-- ===== src/Common/Throttling.antt =====
-- apps/common/throttling.py, and `DEFAULT_THROTTLE_RATES` of config/settings/base.py.
use saas_backend_api.Prelude.{ℕ, String, Option, none, some, List, [], ◌∷◌, if◌then◌else◌, str_eq}
use Prim.Native.String.{◌++◌}
use saas_backend_api.Users.Models.{User}

-- Requests per minute of each scope.
abbrev pub throttle_rates : List (String × ℕ)
throttle_rates =
    ("anon", 30) ∷ ("plan_free", 60) ∷ ("plan_pro", 600) ∷ ("plan_enterprise", 6000) ∷ []

-- `THROTTLE_RATES[scope]`; a missing scope is an `ImproperlyConfigured` (`none`).
unfoldable pub get_rate : String → List (String × ℕ) → Option ℕ
get_rate scope [] = none
get_rate scope ((k, r) ∷ rates) = if str_eq k scope then some r else get_rate scope rates

-- `_user_plan_slug`: `none` is an absent attribute.
abbrev pub user_plan_slug : Option String → String
user_plan_slug none = "free"
user_plan_slug (some slug) = if str_eq slug "" then "free" else slug

-- What `get_cache_key` decides: the request is not throttled here, has a bucket and a rate, or
-- fails for want of a rate.
pub data Throttle : Type 0 where
  skipped : Throttle
  bucket : (scope : String) (ident rate : ℕ) → Throttle
  misconfigured : Throttle

abbrev with_rate : String → ℕ → Option ℕ → Throttle
with_rate scope ident none = misconfigured
with_rate scope ident (some r) = bucket scope ident r

-- `get_cache_key`, on the user and on `request.subscription_plan_slug`.
unfoldable pub get_cache_key : Option User → Option String → Throttle
get_cache_key none slug = skipped
get_cache_key (some u) slug =
    let scope = "plan_" ++ user_plan_slug slug in
    with_rate scope u.id (get_rate scope throttle_rates)
