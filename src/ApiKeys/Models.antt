-- ===== src/ApiKeys/Models.antt =====
-- apps/api_keys/models.py.
use saas_backend_api.Prelude.{ℕ, String, Bool, Option, some}
use saas_backend_api.Authentication.Models.{is_null}

pub record ApiKey : Type 0 where
  pub id : ℕ
  pub user : ℕ
  pub name : String
  pub prefix : String
  pub key_hash : String
  pub last_used_at : Option ℕ
  pub revoked_at : Option ℕ
  pub created_at : ℕ

-- `APIKey.is_active`
abbrev pub is_active : ApiKey → Bool
is_active k = is_null k.revoked_at

-- `APIKey.mark_used`, on a row.
abbrev pub marked_used : ℕ → ApiKey → ApiKey
marked_used now k = record k { last_used_at = some now }

-- `APIKey.revoke`, on a row.
abbrev pub revoked : ℕ → ApiKey → ApiKey
revoked now k = record k { revoked_at = some now }
