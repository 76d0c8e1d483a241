-- ===== src/Api/Endpoints.antt =====
-- The requests that the views take, with what the framework's parsing leaves of each: the views'
-- methods of all applications, and the `permission_classes` of their classes.
use saas_backend_api.Prelude.{none, some, ℕ, String, Bool, true, Option, List, [], ◌∷◌}
use saas_backend_api.Common.Utils.{Meta}
use saas_backend_api.Common.Pagination.{Paging}
use saas_backend_api.Common.Permissions.{is_authenticated, is_staff_or_above}
use saas_backend_api.Users.Models.{User}
use saas_backend_api.Store.{Db, Result}
use saas_backend_api.Authentication.Serializers.{Registration, PasswordResetConfirm}
use saas_backend_api.Dashboard.Views.{Param}
use saas_backend_api.Api.Routes.{View}

-- A method of a view, with the fields of the request that it reads. A login carries the function
-- by which Django finds a user of these credentials, the list of users the framework's pagination.
pub data Endpoint : Type 0 where
  register : Registration → Endpoint
  log_in : (authenticate : Db → Option User) → Meta → Endpoint
  refresh : (token : String) → Endpoint
  log_out : (refresh : String) → Endpoint
  verify_email : (token : String) → Endpoint
  resend_verification : (email : String) → Endpoint
  password_reset_request : (email : String) → Endpoint
  password_reset_confirm : PasswordResetConfirm → Endpoint
  session_list : Endpoint
  session_revoke : (session_id : ℕ) → Endpoint
  me : Endpoint
  me_patch : (first_name last_name : Option String) → Endpoint
  change_password : (current_password new_password : String) → Endpoint
  user_list : (List User → Result (Paging User)) → Endpoint
  plan_list my_subscription cancel_subscription : Endpoint
  subscribe : (plan_slug : String) → Endpoint
  api_key_list : Endpoint
  api_key_create : (name : String) → Endpoint
  api_key_revoke api_key_rotate : (key_id : ℕ) → Endpoint
  overview system_overview : Endpoint
  usage_summary daily_chart system_daily_chart : (days : Param) → Endpoint
  monthly_chart system_monthly_chart : (months : Param) → Endpoint
  recent_requests : (limit : Param) → Endpoint
  health : Endpoint

-- The view of a method, and the UUIDs of its URL.
unfoldable pub target : Endpoint → View × List ℕ
target (Endpoint.register sent) = (View.register_view, [])
target (Endpoint.log_in authenticate meta) = (View.login_view, [])
target (Endpoint.refresh token) = (View.refresh_view, [])
target (Endpoint.log_out token) = (View.logout_view, [])
target (Endpoint.verify_email token) = (View.verify_email_view, [])
target (Endpoint.resend_verification email) = (View.resend_verification_view, [])
target (Endpoint.password_reset_request email) = (View.password_reset_request_view, [])
target (Endpoint.password_reset_confirm sent) = (View.password_reset_confirm_view, [])
target Endpoint.session_list = (View.session_list_view, [])
target (Endpoint.session_revoke id) = (View.session_revoke_view, id ∷ [])
target Endpoint.me = (View.me_view, [])
target (Endpoint.me_patch first_name last_name) = (View.me_view, [])
target (Endpoint.change_password current new) = (View.change_password_view, [])
target (Endpoint.user_list paginate) = (View.user_list_view, [])
target Endpoint.plan_list = (View.plan_list_view, [])
target Endpoint.my_subscription = (View.my_subscription_view, [])
target (Endpoint.subscribe slug) = (View.subscribe_view, [])
target Endpoint.cancel_subscription = (View.cancel_subscription_view, [])
target Endpoint.api_key_list = (View.api_key_list_create_view, [])
target (Endpoint.api_key_create name) = (View.api_key_list_create_view, [])
target (Endpoint.api_key_revoke id) = (View.api_key_revoke_view, id ∷ [])
target (Endpoint.api_key_rotate id) = (View.api_key_rotate_view, id ∷ [])
target Endpoint.overview = (View.overview_view, [])
target (Endpoint.usage_summary days) = (View.usage_summary_view, [])
target (Endpoint.daily_chart days) = (View.daily_usage_chart_view, [])
target (Endpoint.monthly_chart months) = (View.monthly_usage_chart_view, [])
target (Endpoint.recent_requests limit) = (View.recent_requests_view, [])
target Endpoint.system_overview = (View.system_overview_view, [])
target (Endpoint.system_daily_chart days) = (View.system_daily_chart_view, [])
target (Endpoint.system_monthly_chart months) = (View.system_monthly_chart_view, [])
target Endpoint.health = (View.health, [])

-- `AllowAny` or no class, `IsAuthenticated`, and `IsStaffOrAbove`; `health` is a plain function.
pub data Permission : Type 0 where
  allow_any authenticated staff_or_above : Permission

-- Of the views of apps/authentication/views.py.
abbrev pub authentication_permissions : View → Option Permission
authentication_permissions View.register_view = some allow_any
authentication_permissions View.login_view = some allow_any
authentication_permissions View.refresh_view = some allow_any
authentication_permissions View.logout_view = some authenticated
authentication_permissions View.verify_email_view = some allow_any
authentication_permissions View.resend_verification_view = some allow_any
authentication_permissions View.password_reset_request_view = some allow_any
authentication_permissions View.password_reset_confirm_view = some allow_any
authentication_permissions View.session_list_view = some authenticated
authentication_permissions View.session_revoke_view = some authenticated
authentication_permissions _ = none

-- Of the views of apps/users/views.py.
abbrev pub users_permissions : View → Option Permission
users_permissions View.me_view = some authenticated
users_permissions View.change_password_view = some authenticated
users_permissions View.user_list_view = some staff_or_above
users_permissions _ = none

-- Of the views of apps/subscriptions/views.py.
abbrev pub subscriptions_permissions : View → Option Permission
subscriptions_permissions View.plan_list_view = some allow_any
subscriptions_permissions View.my_subscription_view = some authenticated
subscriptions_permissions View.subscribe_view = some authenticated
subscriptions_permissions View.cancel_subscription_view = some authenticated
subscriptions_permissions _ = none

-- Of the views of apps/api_keys/views.py.
abbrev pub api_keys_permissions : View → Option Permission
api_keys_permissions View.api_key_list_create_view = some authenticated
api_keys_permissions View.api_key_revoke_view = some authenticated
api_keys_permissions View.api_key_rotate_view = some authenticated
api_keys_permissions _ = none

-- Of the views of apps/dashboard/views.py.
abbrev pub dashboard_permissions : View → Option Permission
dashboard_permissions View.overview_view = some authenticated
dashboard_permissions View.usage_summary_view = some authenticated
dashboard_permissions View.daily_usage_chart_view = some authenticated
dashboard_permissions View.monthly_usage_chart_view = some authenticated
dashboard_permissions View.recent_requests_view = some authenticated
dashboard_permissions View.system_overview_view = some staff_or_above
dashboard_permissions View.system_daily_chart_view = some staff_or_above
dashboard_permissions View.system_monthly_chart_view = some staff_or_above
dashboard_permissions _ = none

abbrev or_else : Option Permission → Permission → Permission
or_else none q = q
or_else (some p) q = p

-- `permission_classes` of a view's class.
unfoldable pub permission_classes : View → Permission
permission_classes view = or_else (authentication_permissions view) (
    or_else (users_permissions view) (
      or_else (subscriptions_permissions view)
        (or_else (api_keys_permissions view) (or_else (dashboard_permissions view) allow_any))))

-- `check_permissions`
abbrev pub check_permissions : Permission → Option User → Bool
check_permissions allow_any user = true
check_permissions authenticated user = is_authenticated user
check_permissions staff_or_above user = is_staff_or_above user
