-- ===== src/Api/Routes.antt =====
-- config/urls.py and the urls.py of the applications. A route is a list of segments, each of which
-- stands before a slash. The routes of the admin site, of the schema with its two pages and of the
-- toolbar that debugging adds are the libraries' and left out; no other route shares their paths.
use Prim.Native.Char.{Char, code}
use saas_backend_api.Prelude.{
  ℕ, ◌==◌, String, Option, none, some, List, [], ◌∷◌, ◌++◌, str_eq, if◌then◌else◌,
}

-- The views, by their classes, and the function `health`.
pub data View : Type 0 where
  register_view login_view refresh_view logout_view verify_email_view : View
  resend_verification_view password_reset_request_view password_reset_confirm_view : View
  session_list_view session_revoke_view : View
  me_view change_password_view user_list_view : View
  plan_list_view my_subscription_view subscribe_view cancel_subscription_view : View
  api_key_list_create_view api_key_revoke_view api_key_rotate_view : View
  overview_view usage_summary_view daily_usage_chart_view monthly_usage_chart_view : View
  recent_requests_view : View
  system_overview_view system_daily_chart_view system_monthly_chart_view : View
  health : View

-- A literal segment, or `<uuid:...>`.
pub data Segment : Type 0 where
  lit : String → Segment
  uuid : Segment

pub record Route : Type 0 where
  pub pattern : List Segment
  pub view : View

-- `path(...)`, and `path(prefix, include(...))`.
abbrev pub path : List Segment → View → Route
path pattern view = record { pattern = pattern; view = view }

unfoldable pub include : List Segment → List Route → List Route
include prefix [] = []
include prefix (r ∷ rs) = record r { pattern = prefix ++ r.pattern } ∷ include prefix rs

abbrev pub authentication_urls : List Route
authentication_urls =
    path (lit "register" ∷ []) register_view
    ∷ path (lit "login" ∷ []) login_view
    ∷ path (lit "token" ∷ lit "refresh" ∷ []) refresh_view
    ∷ path (lit "logout" ∷ []) logout_view
    ∷ path (lit "verify-email" ∷ []) verify_email_view
    ∷ path (lit "resend-verification" ∷ []) resend_verification_view
    ∷ path (lit "password" ∷ lit "reset" ∷ []) password_reset_request_view
    ∷ path (lit "password" ∷ lit "reset" ∷ lit "confirm" ∷ []) password_reset_confirm_view
    ∷ path (lit "sessions" ∷ []) session_list_view
    ∷ path (lit "sessions" ∷ uuid ∷ lit "revoke" ∷ []) session_revoke_view
    ∷ []

abbrev pub users_urls : List Route
users_urls =
    path (lit "me" ∷ []) me_view
    ∷ path (lit "me" ∷ lit "change-password" ∷ []) change_password_view
    ∷ path [] user_list_view
    ∷ []

abbrev pub subscriptions_urls : List Route
subscriptions_urls =
    path (lit "plans" ∷ []) plan_list_view
    ∷ path (lit "me" ∷ []) my_subscription_view
    ∷ path (lit "subscribe" ∷ []) subscribe_view
    ∷ path (lit "cancel" ∷ []) cancel_subscription_view
    ∷ []

abbrev pub api_keys_urls : List Route
api_keys_urls =
    path [] api_key_list_create_view
    ∷ path (uuid ∷ lit "revoke" ∷ []) api_key_revoke_view
    ∷ path (uuid ∷ lit "rotate" ∷ []) api_key_rotate_view
    ∷ []

abbrev pub dashboard_urls : List Route
dashboard_urls =
    path (lit "overview" ∷ []) overview_view
    ∷ path (lit "usage" ∷ lit "summary" ∷ []) usage_summary_view
    ∷ path (lit "usage" ∷ lit "daily" ∷ []) daily_usage_chart_view
    ∷ path (lit "usage" ∷ lit "monthly" ∷ []) monthly_usage_chart_view
    ∷ path (lit "requests" ∷ lit "recent" ∷ []) recent_requests_view
    ∷ path (lit "system" ∷ lit "overview" ∷ []) system_overview_view
    ∷ path (lit "system" ∷ lit "usage" ∷ lit "daily" ∷ []) system_daily_chart_view
    ∷ path (lit "system" ∷ lit "usage" ∷ lit "monthly" ∷ []) system_monthly_chart_view
    ∷ []

unfoldable pub api_v1_patterns : List Route
api_v1_patterns =
    include (lit "auth" ∷ []) authentication_urls
    ++ (include (lit "users" ∷ []) users_urls
        ++ (include (lit "subscriptions" ∷ []) subscriptions_urls
            ++ (include (lit "api-keys" ∷ []) api_keys_urls
                ++ include (lit "dashboard" ∷ []) dashboard_urls)))

unfoldable pub urlpatterns : List Route
urlpatterns = path (lit "health" ∷ []) health ∷ include (lit "api" ∷ lit "v1" ∷ []) api_v1_patterns

abbrev captured : Option ℕ → Option (List ℕ) → Option (List ℕ)
captured none rest = none
captured (some n) none = none
captured (some n) (some ns) = some (n ∷ ns)

abbrev first_of : View → Option (List ℕ) → Option (View × List ℕ) → Option (View × List ℕ)
first_of view none rest = rest
first_of view (some args) rest = some (view, args)

-- What a pattern captures of a path: its segments have to be equal, or to be UUIDs. `parse` is the
-- framework's reading of a UUID.
unfoldable pub matched : (String → Option ℕ) → List Segment → List String → Option (List ℕ)
matched parse [] [] = some []
matched parse [] (t ∷ ts) = none
matched parse (p ∷ ps) [] = none
matched parse (lit s ∷ ps) (t ∷ ts) = if str_eq s t then matched parse ps ts else none
matched parse (uuid ∷ ps) (t ∷ ts) = captured (parse t) (matched parse ps ts)

-- The first route whose pattern matches, with what it captures.
unfoldable pub resolve : (String → Option ℕ) → List Route → List String → Option (View × List ℕ)
resolve parse [] ts = none
resolve parse (r ∷ rs) ts = first_of r.view (matched parse r.pattern ts) (resolve parse rs ts)

-- The segments of a path after its first slash: each ends at a slash, and nothing follows the last.
abbrev pub more : Char → List String × String → List String × String
more c ([], rest) = ([], String.◌∷◌ c rest)
more c (t ∷ ts, rest) = (String.◌∷◌ c t ∷ ts, rest)

unfoldable pub cut : String → List String × String
cut String.[] = ([], "")
cut (String.◌∷◌ c s) =
    let (ts, rest) = cut s in if code c == b'/' then ("" ∷ ts, rest) else more c (ts, rest)

abbrev whole : List String × String → Option (List String)
whole (ts, rest) = if str_eq rest "" then some ts else none

unfoldable pub segments : String → Option (List String)
segments String.[] = none
segments (String.◌∷◌ c s) = if code c == b'/' then whole (cut s) else none

abbrev routed : (String → Option ℕ) → List Route → Option (List String) → Option (View × List ℕ)
routed parse routes none = none
routed parse routes (some ts) = resolve parse routes ts

-- The view of a request's path.
unfoldable pub resolve_path : (String → Option ℕ) → List Route → String → Option (View × List ℕ)
resolve_path parse routes text = routed parse routes (segments text)
