-- ===== src/Subscriptions/Seed.antt =====
-- apps/subscriptions/management/commands/seed_plans.py.
pub mod Twice
use saas_backend_api.Prelude.{
  ℕ, ◌+◌, String, Bool, true, false, List, [], ◌∷◌, if◌then◌else◌, str_eq, exists, update_where,
}
use saas_backend_api.Subscriptions.Models.{free_slug, Plan}
use saas_backend_api.Store.{Action, gets, ◌>>=◌, ◌>>◌, modify, draw, pure}

-- An entry of `PLANS`. The price is in cents.
pub record Spec : Type 0 where
  pub name : String
  pub slug : String
  pub description : String
  pub price : ℕ
  pub request_quota : ℕ
  pub rate_limit_per_minute : ℕ
  pub max_api_keys : ℕ
  pub duration_days : ℕ
  pub features : List (String × Bool)

abbrev pub free_spec : Spec
free_spec = record {
  name = "Free";
  slug = free_slug;
  description = "Get started for free. Limited quota, basic features.";
  price = 0;
  request_quota = 1000;
  rate_limit_per_minute = 60;
  max_api_keys = 1;
  duration_days = 0;
  features = ("api_keys", true) ∷ ("advanced_analytics", false) ∷ [];
}

abbrev pub pro_spec : Spec
pro_spec = record {
  name = "Pro";
  slug = "pro";
  description = "For growing teams. Higher quota, more keys, full analytics.";
  price = 2900;
  request_quota = 100000;
  rate_limit_per_minute = 600;
  max_api_keys = 10;
  duration_days = 30;
  features = ("api_keys", true) ∷ ("advanced_analytics", true) ∷ [];
}

abbrev pub enterprise_spec : Spec
enterprise_spec = record {
  name = "Enterprise";
  slug = "enterprise";
  description = "Unlimited usage and dedicated support.";
  price = 29900;
  request_quota = 0;
  rate_limit_per_minute = 6000;
  max_api_keys = 100;
  duration_days = 30;
  features =
      ("api_keys", true)
      ∷ ("advanced_analytics", true)
      ∷ ("sso", true)
      ∷ ("priority_support", true)
      ∷ [];
}

abbrev pub plans_to_seed : List Spec
plans_to_seed = free_spec ∷ pro_spec ∷ enterprise_spec ∷ []

-- The row that a spec's defaults give, with the key of the row.
abbrev pub plan_row : Spec → ℕ → Plan
plan_row spec id = record {
  id = id;
  name = spec.name;
  slug = spec.slug;
  description = spec.description;
  price = spec.price;
  currency = "USD";
  request_quota = spec.request_quota;
  rate_limit_per_minute = spec.rate_limit_per_minute;
  max_api_keys = spec.max_api_keys;
  duration_days = spec.duration_days;
  features = spec.features;
  is_active = true;
}

abbrev pub has_plan_slug : String → Plan → Bool
has_plan_slug slug p = str_eq p.slug slug

abbrev update_plan : Spec → Action Bool
update_plan spec = do
  modify (λ db. record db {
    plans = update_where (has_plan_slug spec.slug) (λ p. plan_row spec p.id) db.plans;
  })
  pure false

abbrev create_plan : Spec → Action Bool
create_plan spec = do
  id ← draw
  modify (λ db. record db { plans = plan_row spec id ∷ db.plans })
  pure true

-- `Plan.objects.update_or_create`: whether a row was created.
unfoldable pub update_or_create_plan : Spec → Action Bool
update_or_create_plan spec = do
  there ← gets (λ db. exists (has_plan_slug spec.slug) db.plans)
  if there then update_plan spec else create_plan spec

-- The loop of `handle`, with the counts of created and updated plans.
unfoldable pub seed_loop : List Spec → ℕ → ℕ → Action (ℕ × ℕ)
seed_loop [] created updated = pure (created, updated)
seed_loop (spec ∷ specs) created updated = do
  was_created ← update_or_create_plan spec
  seed_loop specs (if was_created then created + 1 else created)
      (if was_created then updated else updated + 1)

-- `Command.handle`
unfoldable pub handle : Action (ℕ × ℕ)
handle = seed_loop plans_to_seed 0 0
