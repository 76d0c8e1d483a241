-- ===== src/Authentication/Serializers.antt =====
-- apps/authentication/serializers.py: what the validation of a request leaves for the service. That
-- an address has the form of one is the framework's check.
use saas_backend_api.Prelude.{ℕ, String, Bool, Option}
use saas_backend_api.Common.Errors.{invalid}
use saas_backend_api.Users.Views.{is_too_long, is_bad_password}
use saas_backend_api.Store.{Env, Action, pure, ◌>>◌, raise_if}
use saas_backend_api.Authentication.Models.{UserSession, is_active}

-- `validate_email` of the serializers: `value.strip().lower()`.
abbrev pub clean_email : Env → String → String
clean_email e value = e.lower (e.strip value)

-- The validated data of a `RegistrationSerializer`; a name that is not sent is none.
pub record Registration : Type 0 where
  pub email : String
  pub password : String
  pub first_name : Option String
  pub last_name : Option String

unfoldable pub registration_serializer : Env → Registration → Action Registration
registration_serializer e sent = do
  raise_if (is_bad_password e sent.password) invalid
  raise_if (is_too_long sent.first_name) invalid
  raise_if (is_too_long sent.last_name) invalid
  pure (record sent { email = clean_email e sent.email })

-- The validated data of a `PasswordResetConfirmSerializer`.
pub record PasswordResetConfirm : Type 0 where
  pub token : String
  pub new_password : String

unfoldable pub password_reset_confirm_serializer :
    Env → PasswordResetConfirm → Action PasswordResetConfirm
password_reset_confirm_serializer e sent = do
  raise_if (is_bad_password e sent.new_password) invalid
  pure sent

-- `SessionSerializer`
pub record SessionData : Type 0 where
  pub id : ℕ
  pub user_agent : String
  pub ip_address : Option String
  pub created_at : ℕ
  pub last_seen_at : ℕ
  pub is_active : Bool

abbrev pub session_data : UserSession → SessionData
session_data r = record {
  id = r.id;
  user_agent = r.user_agent;
  ip_address = r.ip_address;
  created_at = r.created_at;
  last_seen_at = r.last_seen_at;
  is_active = is_active r;
}
