-- ===== src/System/Operations.antt =====
-- The operations of the services, with their arguments.
use saas_backend_api.Prelude.{ℕ, String, Option, List}
use saas_backend_api.Users.Models.{User, UserRole}
use saas_backend_api.Users.Services.{Extra}
use saas_backend_api.Store.{Db}
use saas_backend_api.Common.Utils.{Meta}
use saas_backend_api.Common.Requests.{Request, Response}

-- An operation that changes the state, with its arguments.
pub data Call : Type 0 where
  manager_create_user : (email password : String) → Extra → Call
  manager_create_superuser : (email password : String) → Extra → Call
  create_user : (email password first_name last_name : String) → UserRole → Call
  update_profile : User → (first_name last_name : Option String) → Call
  change_password : User → (current new : String) → Call
  mark_logged_in : User → Call
  register_user : (email password first_name last_name : String) → Call
  issue_verification_token : User → Call
  verify_email : (token : String) → Call
  resend_verification : (email : String) → Call
  request_password_reset : (email : String) → Call
  confirm_password_reset : (token new_password : String) → Call
  login : (authenticate : Db → Option User) → Meta → Call
  logout : (token : String) → Call
  revoke_session : (user id : ℕ) → Call
  enroll_in_free_plan : (user : ℕ) → Call
  subscribe : (user : ℕ) (slug : String) → Call
  cancel : (user : ℕ) → Call
  record_request : (user : ℕ) → Call
  expire_due_subscriptions : Call
  seed : Call
  create_api_key : (user : ℕ) (name : String) → Call
  revoke_api_key : (user id : ℕ) → Call
  rotate_api_key : (user id : ℕ) → Call
  authenticate : (header : Option String) (words : List (Option String)) → Call
  record_analytics : User → Request → Response → Call
  rollup_daily_usage : (target : Option ℕ) → Call
