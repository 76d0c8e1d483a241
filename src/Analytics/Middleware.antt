-- ===== src/Analytics/Middleware.antt =====
-- apps/analytics/middleware.py, and the order of the middleware in config/settings/base.py.
use mathlib.Core.Option
use saas_backend_api.Prelude.{
  ℕ, suc, String, Bool, not, Option, none, some, ◌∷◌, ◌||◌, ◌&&◌, if◌then◌else◌, ends_with, leb,
}
use text.Mathlib.Text.{starts_with}
use saas_backend_api.Users.Models.{User}
use saas_backend_api.Analytics.Models.{RequestLog}
use saas_backend_api.Common.Utils.{
  client_ip, non_empty, or_empty, take_text, text_length, is_address,
}
use saas_backend_api.Common.Requests.{Request, Response, Answering}
use saas_backend_api.Common.Middleware.{request_id_middleware, request_logging_middleware}
use saas_backend_api.Subscriptions.Services.{record_request, max_integer}
use saas_backend_api.Subscriptions.Middleware.{subscription_context_middleware}
use saas_backend_api.Store.{Env, State}

-- The two early returns on the path.
abbrev pub is_recorded_path : String → Bool
is_recorded_path path =
    starts_with path "/api/v1/"
    && not (ends_with path "/schema/" || ends_with path "/docs/" || ends_with path "/redoc/")

-- `getattr(request, "_duration_ms", 0)`
abbrev pub or_zero : Option ℕ → ℕ
or_zero none = 0
or_zero (some n) = n

abbrev pub log_row : Env → ℕ → User → Request → Response → RequestLog
log_row e id user request response = record {
  id = id;
  user = some user.id;
  api_key = Option.map (λ k. k.id) request.auth;
  method = request.method;
  path = take_text 512 request.path;
  status_code = response.status_code;
  response_ms = or_zero request.duration_ms;
  ip_address = non_empty (client_ip e request.meta);
  user_agent = take_text 512 (or_empty request.meta.user_agent);
  created_at = e.now;
}

abbrev pub with_log : Env → User → Request → Response → State → State
with_log e user request response s = record s {
  draws = suc s.draws;
  db = record s.db { request_logs = log_row e s.draws user request response ∷ s.db.request_logs };
}

-- What the columns of the table take: eight characters of a method, a small and a positive integer,
-- and an address.
abbrev pub is_storable : Env → RequestLog → Bool
is_storable e row =
    leb (text_length row.method) 8
    && leb row.status_code 32767
    && leb row.response_ms max_integer
    && is_address e row.ip_address

-- `_record`: an exception of `record_request` is swallowed, and what it wrote stays. A row that the
-- table refuses raises an exception before the request is counted, which `__call__` swallows; only
-- the key of the row was drawn.
unfoldable pub record_analytics : Env → User → Request → Response → State → State
record_analytics e user request response s =
    if is_storable e (log_row e s.draws user request response)
    then (record_request e user.id (with_log e user request response s)).1
    else record s { draws = suc s.draws }

abbrev record_if_user : Env → Option User → Request → Response → State → State
record_if_user e none request response s = s
record_if_user e (some user) request response s = record_analytics e user request response s

-- `RequestAnalyticsMiddleware.__call__`
unfoldable pub analytics_middleware : Env → Answering → Answering
analytics_middleware e get_response request s =
    let ((response, request'), s') = get_response request s in
    if is_recorded_path request'.path
    then ((response, request'), record_if_user e request'.user request' response s')
    else ((response, request'), s')

-- `MIDDLEWARE`: each of the four answers through the next one.
unfoldable pub middleware_stack : Env → String → ℕ → Answering → Answering
middleware_stack e fresh elapsed_ms view = request_id_middleware fresh (
    request_logging_middleware elapsed_ms
      (analytics_middleware e (subscription_context_middleware view)))
