-- ===== src/Analytics/Models.antt =====
-- apps/analytics/models.py.
use saas_backend_api.Prelude.{ℕ, String, Option}

pub record RequestLog : Type 0 where
  pub id : ℕ
  pub user : Option ℕ
  pub api_key : Option ℕ
  pub method : String
  pub path : String
  pub status_code : ℕ
  pub response_ms : ℕ
  pub ip_address : Option String
  pub user_agent : String
  pub created_at : ℕ

-- `date` is a day number (`Clock.date_of`).
pub record DailyUsage : Type 0 where
  pub id : ℕ
  pub user : ℕ
  pub date : ℕ
  pub request_count : ℕ
  pub error_count : ℕ
  pub avg_response_ms : ℕ
