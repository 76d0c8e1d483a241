-- ===== src/Authentication/Tasks.antt =====
-- apps/authentication/tasks.py: the two e-mail tasks. Rendering the templates and sending are left
-- to the mail library; the task decides whom to write to, with which subject and link.
use saas_backend_api.Prelude.{ℕ, String, Option, none, some}
use Prim.Native.String.{◌++◌}
use saas_backend_api.Users.Models.{User}
use saas_backend_api.Users.Selectors.{user_by_id}
use saas_backend_api.Store.{Db, Mail, MailKind, verification, password_reset}
use saas_backend_api.Authentication.Models.{verification_ttl_hours, reset_ttl_hours}

-- What `_send_html_email` is called with.
pub record Email : Type 0 where
  pub subject : String
  pub to : String
  pub template : String
  pub url : String
  pub ttl_hours : ℕ

-- `frontend` is `settings.FRONTEND_URL` without its final slashes.
abbrev pub subject_of : MailKind → String
subject_of verification = "Verify your email address"
subject_of password_reset = "Reset your password"

abbrev pub template_of : MailKind → String
template_of verification = "verification"
template_of password_reset = "password_reset"

abbrev pub path_of : MailKind → String
path_of verification = "/verify-email?token="
path_of password_reset = "/reset-password?token="

abbrev pub ttl_of : MailKind → ℕ
ttl_of verification = verification_ttl_hours
ttl_of password_reset = reset_ttl_hours

abbrev pub email_to : String → Mail → User → Email
email_to frontend m user = record {
  subject = subject_of m.kind;
  to = user.email;
  template = template_of m.kind;
  url = frontend ++ path_of m.kind ++ m.token;
  ttl_hours = ttl_of m.kind;
}

-- `send_verification_email` and `send_password_reset_email`: a user that is not there is logged, and
-- nothing is sent.
unfoldable pub send_email : String → Mail → Db → Option Email
send_email frontend m db = elim (user_by_id m.user_id db) [
  | none ↦ none
  | some user ↦ some (email_to frontend m user)
]
