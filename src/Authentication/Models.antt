-- ===== src/Authentication/Models.antt =====
-- apps/authentication/models.py.
use saas_backend_api.Prelude.{ℕ, ◌+◌, ◌*◌, String, Bool, true, false, Option, none, some, ltb, ◌&&◌}
use saas_backend_api.Clock.{hour}

abbrev pub is_null : Option ℕ → Bool
is_null none = true
is_null (some _) = false

-- A row of `EmailVerificationToken` or of `PasswordResetToken`: the two have the same columns and
-- the same methods, and stand in tables of their own.
pub record Token : Type 0 where
  pub id : ℕ
  pub user : ℕ
  pub token_hash : String
  pub expires_at : ℕ
  pub used_at : Option ℕ

-- `settings.EMAIL_VERIFICATION_TOKEN_TTL_HOURS`, `settings.PASSWORD_RESET_TOKEN_TTL_HOURS`
abbrev pub verification_ttl_hours : ℕ
verification_ttl_hours = 24

abbrev pub reset_ttl_hours : ℕ
reset_ttl_hours = 1

-- `EmailVerificationToken.default_expiry`
abbrev pub verification_expiry : ℕ → ℕ
verification_expiry now = now + verification_ttl_hours * hour

-- `PasswordResetToken.default_expiry`
abbrev pub reset_expiry : ℕ → ℕ
reset_expiry now = now + reset_ttl_hours * hour

-- `is_valid`
abbrev pub is_valid : ℕ → Token → Bool
is_valid now t = is_null t.used_at && ltb now t.expires_at

-- `consume`, on a row.
abbrev pub consumed : ℕ → Token → Token
consumed now t = record t { used_at = some now }

pub record UserSession : Type 0 where
  pub id : ℕ
  pub user : ℕ
  pub refresh_jti : String
  pub user_agent : String
  pub ip_address : Option String
  pub revoked_at : Option ℕ
  pub last_seen_at : ℕ
  pub created_at : ℕ

-- `UserSession.is_active`
abbrev pub is_active : UserSession → Bool
is_active s = is_null s.revoked_at

-- `UserSession.revoke`, on a row. The saved fields are named, so `last_seen_at` stays as it is.
abbrev pub revoked : ℕ → UserSession → UserSession
revoked now s = record s { revoked_at = some now }
