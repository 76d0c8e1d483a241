-- ===== src/Api/Dispatch.antt =====
-- How a request is answered: authentication by the classes that the settings name, the permission
-- class of the view, and the view's method. `post` is the method of the JWT library's view that
-- refreshes a token, and `jwt` is that library's authentication.
use saas_backend_api.Common.Errors.{value_error, denied}
use saas_backend_api.Prelude.{
  ◌||◌, String, Bool, true, false, Option, some, none, List, if◌then◌else◌,
}
use saas_backend_api.Common.Responses.{Payload}
use saas_backend_api.Common.Pagination.{Page}
use saas_backend_api.Users.Models.{User}
use saas_backend_api.Users.Views.{
  UserData, me_view, me_patch_view, change_password_view, user_list_view,
}
use saas_backend_api.Store.{Db, Env, State, Result, Action, pure, raise, err}
use saas_backend_api.Subscriptions.Models.{Plan}
use saas_backend_api.Subscriptions.Views.{
  SubscriptionData, plan_list_view, my_subscription_view, subscribe_view, cancel_view,
}
use saas_backend_api.ApiKeys.Authentication.{
  Answer, fall_through, authenticated, refused, crashed, authenticate,
}
use saas_backend_api.ApiKeys.Views.{
  ApiKeyData, IssuedData, api_key_list_view, api_key_create_view, api_key_revoke_view,
  api_key_rotate_view,
}
use saas_backend_api.Authentication.Serializers.{SessionData}
use saas_backend_api.Authentication.Tokens.{Claims, login}
use saas_backend_api.Authentication.Views.{
  register_view, logout_view, verify_email_view, resend_verification_view,
  password_reset_request_view, password_reset_confirm_view, session_list_view, session_revoke_view,
}
use saas_backend_api.Analytics.Models.{RequestLog}
use saas_backend_api.Analytics.Selectors.{UsageSummary, Point}
use saas_backend_api.Dashboard.Views.{
  Overview, SystemOverview, overview_view, usage_summary_view, daily_chart_view, monthly_chart_view,
  recent_requests_view, system_overview_view, system_daily_chart_view, system_monthly_chart_view,
}
use saas_backend_api.Api.Routes.{View}
use saas_backend_api.Api.Endpoints.{Endpoint, target, check_permissions, permission_classes}

-- `RefreshView.post`
abbrev pub refresh_view : {Tokens : Type 0} → (String → Action Tokens) → String → Action Tokens
refresh_view post token = post token

-- `health`
abbrev pub health : Action String
health = pure "ok"

-- The type of an answer.
abbrev pub Body : Type 0 → Endpoint → Type 0
Body Tokens (Endpoint.register sent) = Payload UserData
Body Tokens (Endpoint.log_in authenticate meta) = Claims
Body Tokens (Endpoint.refresh token) = Tokens
Body Tokens (Endpoint.log_out token) = Payload (Unit {0})
Body Tokens (Endpoint.verify_email token) = Payload UserData
Body Tokens (Endpoint.resend_verification email) = Payload (Unit {0})
Body Tokens (Endpoint.password_reset_request email) = Payload (Unit {0})
Body Tokens (Endpoint.password_reset_confirm sent) = Payload (Unit {0})
Body Tokens Endpoint.session_list = Payload (List SessionData)
Body Tokens (Endpoint.session_revoke id) = Payload (Unit {0})
Body Tokens Endpoint.me = Payload UserData
Body Tokens (Endpoint.me_patch first_name last_name) = Payload UserData
Body Tokens (Endpoint.change_password current new) = Payload (Unit {0})
Body Tokens (Endpoint.user_list paginate) = Page UserData
Body Tokens Endpoint.plan_list = Payload (List Plan)
Body Tokens Endpoint.my_subscription = Payload SubscriptionData
Body Tokens (Endpoint.subscribe slug) = Payload SubscriptionData
Body Tokens Endpoint.cancel_subscription = Payload SubscriptionData
Body Tokens Endpoint.api_key_list = Payload (List ApiKeyData)
Body Tokens (Endpoint.api_key_create name) = Payload IssuedData
Body Tokens (Endpoint.api_key_revoke id) = Payload ApiKeyData
Body Tokens (Endpoint.api_key_rotate id) = Payload IssuedData
Body Tokens Endpoint.overview = Payload Overview
Body Tokens (Endpoint.usage_summary days) = Payload UsageSummary
Body Tokens (Endpoint.daily_chart days) = Payload (List Point)
Body Tokens (Endpoint.monthly_chart months) = Payload (List Point)
Body Tokens (Endpoint.recent_requests limit) = Payload (List RequestLog)
Body Tokens Endpoint.system_overview = Payload SystemOverview
Body Tokens (Endpoint.system_daily_chart days) = Payload (List Point)
Body Tokens (Endpoint.system_monthly_chart months) = Payload (List Point)
Body Tokens Endpoint.health = String

-- A view that reads the fields of its user. An anonymous user has none of them: the framework
-- raises an exception.
abbrev pub with_user : {A : Type 0} → Option User → (User → Action A) → Action A
with_user none f = raise value_error
with_user (some u) f = f u

-- The view's method, with the user of the request.
unfoldable pub respond :
    {Tokens : Type 0}
    → (String → Action Tokens)
    → Env
    → Option User
    → (r : Endpoint) → Action (Body Tokens r)
respond post e user (Endpoint.register sent) = register_view e sent
respond post e user (Endpoint.log_in check meta) = login e check meta
respond post e user (Endpoint.refresh token) = refresh_view post token
respond post e user (Endpoint.log_out token) = logout_view e token
respond post e user (Endpoint.verify_email token) = verify_email_view e token
respond post e user (Endpoint.resend_verification email) = resend_verification_view e email
respond post e user (Endpoint.password_reset_request email) = password_reset_request_view e email
respond post e user (Endpoint.password_reset_confirm sent) = password_reset_confirm_view e sent
respond post e user Endpoint.session_list = with_user user λ u. session_list_view u
respond post e user (Endpoint.session_revoke id) = with_user user λ u. session_revoke_view e u id
respond post e user Endpoint.me = with_user user λ u. me_view e u
respond post e user (Endpoint.me_patch first_name last_name) =
    with_user user λ u. me_patch_view e u first_name last_name
respond post e user (Endpoint.change_password current new) =
    with_user user λ u. change_password_view e u current new
respond post e user (Endpoint.user_list paginate) = user_list_view e paginate
respond post e user Endpoint.plan_list = plan_list_view
respond post e user Endpoint.my_subscription = with_user user λ u. my_subscription_view e u
respond post e user (Endpoint.subscribe slug) = with_user user λ u. subscribe_view e u slug
respond post e user Endpoint.cancel_subscription = with_user user λ u. cancel_view e u
respond post e user Endpoint.api_key_list = with_user user λ u. api_key_list_view u
respond post e user (Endpoint.api_key_create name) =
    with_user user λ u. api_key_create_view e u name
respond post e user (Endpoint.api_key_revoke id) = with_user user λ u. api_key_revoke_view e u id
respond post e user (Endpoint.api_key_rotate id) = with_user user λ u. api_key_rotate_view e u id
respond post e user Endpoint.overview = with_user user λ u. overview_view e u
respond post e user (Endpoint.usage_summary days) = with_user user λ u. usage_summary_view e u days
respond post e user (Endpoint.daily_chart days) = with_user user λ u. daily_chart_view e u days
respond post e user (Endpoint.monthly_chart months) =
    with_user user λ u. monthly_chart_view e u months
respond post e user (Endpoint.recent_requests limit) =
    with_user user λ u. recent_requests_view u limit
respond post e user Endpoint.system_overview = system_overview_view e
respond post e user (Endpoint.system_daily_chart days) = system_daily_chart_view e days
respond post e user (Endpoint.system_monthly_chart months) = system_monthly_chart_view e months
respond post e user Endpoint.health = health

-- The views with an empty list of `authentication_classes`, whose requests stay anonymous: those of
-- apps/authentication/views.py, and those of apps/subscriptions/views.py.
abbrev pub is_open_in_authentication : View → Bool
is_open_in_authentication View.register_view = true
is_open_in_authentication View.refresh_view = true
is_open_in_authentication View.verify_email_view = true
is_open_in_authentication View.resend_verification_view = true
is_open_in_authentication View.password_reset_request_view = true
is_open_in_authentication View.password_reset_confirm_view = true
is_open_in_authentication _ = false

abbrev pub is_open_in_subscriptions : View → Bool
is_open_in_subscriptions View.plan_list_view = true
is_open_in_subscriptions _ = false

abbrev is_plain_function : View → Bool
is_plain_function View.health = true
is_plain_function _ = false

unfoldable pub has_no_authentication : View → Bool
has_no_authentication view =
    is_open_in_authentication view || is_open_in_subscriptions view || is_plain_function view

-- What `JWTAuthentication` answers: no bearer token, a user, or a refusal.
pub data Bearer : Type 0 where
  no_bearer bad_bearer : Bearer
  bearer : User → Bearer

-- What comes of a request: an answer or an exception of its view, a refusal by an authentication
-- class, or a failure of the key's class that nothing catches.
pub data Outcome (A : Type 0) : Type 0 where
  responded : Result A → Outcome A
  unauthorized failed : Outcome A

-- The user of a request: an anonymous one is none.
pub data Identity : Type 0 where
  identified : Option User → Identity
  rejected broken : Identity

abbrev pub of_answer : Answer → Identity
of_answer fall_through = identified none
of_answer (authenticated u k) = identified (some u)
of_answer (refused message) = rejected
of_answer crashed = broken

-- `DEFAULT_AUTHENTICATION_CLASSES`, in their order.
abbrev pub by_bearer :
    Env → Bearer → Option String → List (Option String) → State → Identity × State
by_bearer e no_bearer header words s =
    let (a, t) = authenticate e header words s in (of_answer a, t)
by_bearer e bad_bearer header words s = (rejected, s)
by_bearer e (bearer u) header words s = (identified (some u), s)

unfoldable pub perform_authentication :
    Env → (Db → Bearer) → Option String → List (Option String) → View → State → Identity × State
perform_authentication e jwt header words view s =
    if has_no_authentication view
    then (identified none, s)
    else by_bearer e (jwt s.db) header words s

-- `check_permissions`, and then the method.
abbrev pub respond_as :
    {Tokens : Type 0}
    → (String → Action Tokens)
    → Env
    → (r : Endpoint) → Identity
    → State
    → Outcome (Body Tokens r) × State
respond_as post e r (identified user) s =
    if check_permissions (permission_classes (target r).0) user
    then (let (a, t) = respond post e user r s in (responded a, t))
    else (responded (err denied), s)
respond_as post e r rejected s = (unauthorized, s)
respond_as post e r broken s = (failed, s)

-- A request with these headers: the one of a key, and the words of `Authorization`.
unfoldable pub dispatch :
    {Tokens : Type 0}
    → (String → Action Tokens)
    → Env
    → (Db → Bearer)
    → Option String
    → List (Option String)
    → (r : Endpoint) → State
    → Outcome (Body Tokens r) × State
dispatch post e jwt header words r s =
    let (who, t) = perform_authentication e jwt header words (target r).0 s in
    respond_as post e r who t
