-- ===== src/Authentication/Tokens.antt =====
-- apps/authentication/tokens.py, and the login of apps/authentication/views.py.
use saas_backend_api.Prelude.{String, Bool, not, Option, none, some, ℕ, ◌∷◌}
use saas_backend_api.Common.Errors.{authentication_failed}
use saas_backend_api.Common.Utils.{Meta, client_ip, non_empty, or_empty}
use saas_backend_api.Users.Models.{UserRole, User}
use saas_backend_api.Users.Services.{mark_logged_in, save_user}
use saas_backend_api.Subscriptions.Selectors.{get_active_subscription}
use saas_backend_api.Subscriptions.Models.{Subscription}
use saas_backend_api.Store.{
  Db, Env, Action, pure, gets, or_raise, ◌>>=◌, ◌>>◌, raise_if, draw, error, modify,
}
use saas_backend_api.Authentication.Services.{record_session}
use saas_backend_api.Subscriptions.Services.{plan_of}

-- The claims that `get_token` adds to the token.
pub record Claims : Type 0 where
  pub jti : String
  pub email : String
  pub role : UserRole
  pub is_verified : Bool
  pub plan : String

abbrev pub slug_of : Option Subscription → Action String
slug_of none = pure "free"
slug_of (some sub) = do pure (← plan_of sub).slug

-- `super().get_token`: a new refresh token, which the library's table of issued tokens lists.
abbrev pub issue_refresh : Env → Action String
issue_refresh e = do
  id ← draw
  modify (λ db. record db { outstanding = e.jti id ∷ db.outstanding })
  pure (e.jti id)

-- `CustomTokenObtainPairSerializer.get_token`
unfoldable pub get_token : Env → User → Action Claims
get_token e user = do
  jti ← issue_refresh e
  sub ← gets (get_active_subscription user.id)
  slug ← slug_of sub
  pure (record {
    jti = jti;
    email = user.email;
    role = user.role;
    is_verified = user.is_verified;
    plan = slug;
  })

-- `UPDATE_LAST_LOGIN`: the field `last_login` of the base class of users.
abbrev pub seen : ℕ → User → User
seen now u = record u { last_login = some now }

-- `validate`: `found` is whom Django's `authenticate` found, if it found one. The base class issues
-- the tokens and writes `last_login`; the two checks come after.
unfoldable pub validate : Env → Option User → Action (User × Claims)
validate e found = do
  user ← or_raise found (
      error authentication_failed "No active account found with the given credentials"
        "no_active_account")
  claims ← get_token e user
  save_user user.id (seen e.now)
  raise_if (not user.is_active)
      (error authentication_failed "Account is disabled." "account_disabled")
  raise_if (not user.is_verified) (
      error authentication_failed "Email not verified. Please verify your email before logging in."
        "email_not_verified")
  pure (user, claims)

-- `LoginView.post`, for the user that `authenticate` finds by the credentials.
unfoldable pub login : Env → (Db → Option User) → Meta → Action Claims
login e authenticate meta = do
  found ← gets authenticate
  checked ← validate e found
  let (user, claims) = checked
  record_session e user.id claims.jti (or_empty meta.user_agent) (non_empty (client_ip e meta))
  mark_logged_in e user
  pure claims
