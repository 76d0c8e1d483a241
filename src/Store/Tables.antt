-- ===== src/Store/Tables.antt =====
-- The tables of all applications, and the environment of the code. A table is a list of rows,
-- newest first: that is the order `-created_at` in which the querysets are read.
use saas_backend_api.Prelude.{ℕ, String, Bool, Option, List}
use saas_backend_api.Users.Models.{User}
use saas_backend_api.Subscriptions.Models.{Plan, Subscription, UsageQuota}
use saas_backend_api.Authentication.Models.{Token, UserSession}
use saas_backend_api.ApiKeys.Models.{ApiKey}
use saas_backend_api.Analytics.Models.{RequestLog, DailyUsage}

-- `blacklist` and `outstanding` are the tables of `rest_framework_simplejwt.token_blacklist`: the
-- `jti`s listed, and those of the refresh tokens that were issued.
pub record Db : Type 0 where
  pub users : List User
  pub plans : List Plan
  pub subscriptions : List Subscription
  pub quotas : List UsageQuota
  pub api_keys : List ApiKey
  pub verification_tokens : List Token
  pub reset_tokens : List Token
  pub sessions : List UserSession
  pub blacklist : List String
  pub outstanding : List String
  pub request_logs : List RequestLog
  pub daily_usages : List DailyUsage

pub data MailKind : Type 0 where
  verification password_reset : MailKind

-- A queued call of `send_verification_email` or `send_password_reset_email`.
pub record Mail : Type 0 where
  pub kind : MailKind
  pub user_id : ℕ
  pub token : String

-- `outbox` is the task queue, the latest call first. `draws` counts the values drawn from the
-- system's randomness; a row's UUID is the number of its draw.
pub record State : Type 0 where
  pub db : Db
  pub outbox : List Mail
  pub draws : ℕ

-- What the code takes from outside: one reading of the clock, Python's text and hash functions,
-- the random texts by their draw, Django's password hashing (with its salt by draw), e-mail
-- normalisation and case-insensitive comparison, the `jti` of a refresh token by its draw, the
-- signed form of a token and its decoding, the texts that a column of type `inet` takes, and the
-- classes `\d`, `\w` and `\s` of the `re` module
-- on code points.
pub record Env : Type 0 where
  pub now : ℕ
  pub strip : String → String
  pub lower : String → String
  pub sha256 : String → String
  pub token_urlsafe : ℕ → String
  pub make_password : ℕ → String → String
  pub check_password : String → String → Bool
  pub normalize_email : String → String
  pub iexact : String → String → Bool
  pub decode_refresh : String → Option String
  pub encode_refresh : String → String
  pub jti : ℕ → String
  pub is_inet : String → Bool
  pub is_digit : ℕ → Bool
  pub is_word : ℕ → Bool
  pub is_space : ℕ → Bool
