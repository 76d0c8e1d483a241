-- ===== src/Authentication/Views.antt =====
-- apps/authentication/views.py, less the login, which stands in `Tokens`, and the refresh of tokens,
-- which is the library's.
use saas_backend_api.Prelude.{ℕ, String, none, some, List, map, ◌==◌, select}
use saas_backend_api.Common.Responses.{Payload, success}
use saas_backend_api.Users.Models.{User}
use saas_backend_api.Users.Views.{UserData, user_data}
use saas_backend_api.Users.Services.{or_default}
use saas_backend_api.Store.{Env, Action, pure, gets, ◌>>=◌, ◌>>◌}
use saas_backend_api.Authentication.Serializers.{
  clean_email, Registration, registration_serializer, PasswordResetConfirm,
  password_reset_confirm_serializer, SessionData, session_data,
}
use saas_backend_api.Authentication.Services.{
  register_user, verify_email, resend_verification, request_password_reset, confirm_password_reset,
  logout, revoke_session,
}

-- `RegisterView.post`
unfoldable pub register_view : Env → Registration → Action (Payload UserData)
register_view e sent = do
  checked ← registration_serializer e sent
  user ←
      register_user e checked.email checked.password (or_default checked.first_name "")
        (or_default checked.last_name "")
  pure (success (some (user_data e user)) "Account created. Check your email to verify." 201)

-- `LogoutView.post`
unfoldable pub logout_view : Env → String → Action (Payload (Unit {0}))
logout_view e refresh = do logout e refresh; pure (success none "Logged out." 200)

-- `VerifyEmailView.post`
unfoldable pub verify_email_view : Env → String → Action (Payload UserData)
verify_email_view e token = do
  user ← verify_email e token
  pure (success (some (user_data e user)) "Email verified." 200)

-- `ResendVerificationView.post`
unfoldable pub resend_verification_view : Env → String → Action (Payload (Unit {0}))
resend_verification_view e email = do
  resend_verification e (clean_email e email)
  pure (success none "If the email is registered and unverified, a new link has been sent." 200)

-- `PasswordResetRequestView.post`
unfoldable pub password_reset_request_view : Env → String → Action (Payload (Unit {0}))
password_reset_request_view e email = do
  request_password_reset e (clean_email e email)
  pure (success none "If the email is registered, a reset link has been sent." 200)

-- `PasswordResetConfirmView.post`
unfoldable pub password_reset_confirm_view :
    Env → PasswordResetConfirm → Action (Payload (Unit {0}))
password_reset_confirm_view e sent = do
  checked ← password_reset_confirm_serializer e sent
  confirm_password_reset e checked.token checked.new_password
  pure (success none "Password updated." 200)

-- `SessionListView.get`
unfoldable pub session_list_view : User → Action (Payload (List SessionData))
session_list_view u = do
  rows ← gets (λ db. select (λ r. r.user == u.id) db.sessions)
  pure (success (some (map session_data rows)) "" 200)

-- `SessionRevokeView.post`
unfoldable pub session_revoke_view : Env → User → ℕ → Action (Payload (Unit {0}))
session_revoke_view e u session_id = do
  revoke_session e u.id session_id
  pure (success none "Session revoked." 200)
