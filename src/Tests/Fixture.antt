-- ===== src/Tests/Fixture.antt =====
-- A small installation: two users, the seeded plans, and a row or two in each table.
use saas_backend_api.Subscriptions.LeapDay.{IsLeapDay}
use saas_backend_api.Subscriptions.Enrollment.{IsValid}
use saas_backend_api.Common.Utils.{Meta}
use saas_backend_api.Prelude.{
  refl, ℕ, ◌+◌, ◌-◌, ◌*◌, ◌≡◌, true, false, none, some, [], ◌∷◌, leb, ◌==◌, ◌&&◌, ◌||◌, str_eq,
  arith,
}
use saas_backend_api.Clock.{
  day, fifty_years_on, civil, year_of, month_at, days_before_month, is_leap, ordinal, days_in_month,
  replace_year,
}
use saas_backend_api.Users.Models.{User, customer}
use saas_backend_api.Subscriptions.Models.{Plan, Subscription, active, UsageQuota}
use saas_backend_api.Subscriptions.Seed.{plan_row, free_spec, pro_spec}
use saas_backend_api.Authentication.Models.{Token, UserSession}
use saas_backend_api.ApiKeys.Models.{ApiKey}
use saas_backend_api.Store.{Env, State}

-- 10 March 2026, midnight.
abbrev pub today : ℕ
today = 739684 * day

abbrev pub env_at : ℕ → Env
env_at t = record {
  now = t;
  strip = λ s. s;
  lower = λ s. s;
  sha256 = λ s. s;
  token_urlsafe = λ n. "fresh";
  make_password = λ n s. s;
  check_password = str_eq;
  normalize_email = λ s. s;
  iexact = str_eq;
  decode_refresh = λ s. some s;
  encode_refresh = λ s. s;
  jti = λ n. "jti";
  is_inet = λ s. true;
  is_digit = λ c. leb 48 c && leb c 57;
  is_word = λ c. leb 48 c && leb c 57 || leb 65 c && leb c 90 || leb 97 c && leb c 122 || c == 95;
  is_space = λ c. c == 32;
}

-- The same date in 2076.
abbrev pub in_fifty_years : ℕ
in_fifty_years = 757947 * day

-- 29 February 2028.
abbrev pub leap_day : ℕ
leap_day = 740405 * day

abbrev pub no_meta : Meta
no_meta = record { forwarded_for = none; remote_addr = none; user_agent = none; request_id = none }

abbrev pub env : Env
env = env_at today

abbrev pub alice : User
alice = record {
  id = 0;
  email = "alice@example.com";
  password = "x";
  first_name = "Alice";
  last_name = "";
  role = customer;
  is_active = true;
  is_verified = false;
  is_staff = false;
  is_superuser = false;
  last_login = none;
  last_login_at = none;
  created_at = 0;
}

abbrev pub bob : User
bob = record alice { id = 1; email = "bob@example.com"; is_verified = true }

abbrev pub free_plan : Plan
free_plan = plan_row free_spec 2

abbrev pub pro_plan : Plan
pro_plan = plan_row pro_spec 3

-- Alice is on the Free plan, Bob on a Pro plan that is over.
abbrev pub alice_sub : Subscription
alice_sub = record {
  id = 4;
  user = 0;
  plan = 2;
  status = active;
  started_at = today - 100;
  expires_at = none;
  canceled_at = none;
  auto_renew = false;
  created_at = today - 100;
}

abbrev pub bob_sub : Subscription
bob_sub = record alice_sub { id = 6; user = 1; plan = 3; expires_at = some (today - 1) }

abbrev pub alice_quota : UsageQuota
alice_quota = record {
  id = 5;
  subscription = 4;
  period_start = today - 100;
  period_end = today + 1000;
  requests_used = 998;
}

abbrev pub bob_quota : UsageQuota
bob_quota = record alice_quota { id = 7; subscription = 6; requests_used = 5 }

abbrev pub alice_key : ApiKey
alice_key = record {
  id = 9;
  user = 0;
  name = "ci";
  prefix = "sk_live_oldk";
  key_hash = "sk_live_oldkey";
  last_used_at = none;
  revoked_at = none;
  created_at = 0;
}

abbrev pub open_token : Token
open_token = record {
  id = 10;
  user = 0;
  token_hash = "token";
  expires_at = today + 100;
  used_at = none;
}

abbrev pub alice_session : UserSession
alice_session = record {
  id = 12;
  user = 0;
  refresh_jti = "session";
  user_agent = "";
  ip_address = none;
  revoked_at = none;
  last_seen_at = 0;
  created_at = 0;
}

abbrev pub installed : State
installed = record {
  db = record {
    users = bob ∷ alice ∷ [];
    plans = pro_plan ∷ free_plan ∷ [];
    subscriptions = bob_sub ∷ alice_sub ∷ [];
    quotas = bob_quota ∷ alice_quota ∷ [];
    api_keys = alice_key ∷ [];
    verification_tokens = open_token ∷ [];
    reset_tokens = open_token ∷ record open_token { id = 8; token_hash = "older" } ∷ [];
    sessions = alice_session ∷ [];
    blacklist = [];
    outstanding = [];
    request_logs = [];
    daily_usages = [];
  };
  outbox = [];
  draws = 20;
}

pub installed-IsValid : IsValid installed
installed-IsValid = record { unique = ground arith; ordered = ground arith }

pub date_exists : fifty_years_on today ≡ some in_fifty_years
unfolding fifty_years_on civil year_of month_at days_before_month is_leap ordinal days_in_month
    replace_year
date_exists = refl

pub is_leap_day : IsLeapDay (env_at leap_day)
unfolding civil year_of month_at days_before_month is_leap
is_leap_day = (refl, refl)
