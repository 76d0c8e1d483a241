-- ===== src/Common/Middleware.antt =====
-- apps/common/middleware.py. The context variable behind the log lines is left out.
use saas_backend_api.Prelude.{ℕ, String, Option, none, some, if◌then◌else◌, str_eq}
use saas_backend_api.Common.Requests.{Answering}

-- `META.get(HEADER) or uuid.uuid4().hex`, where `fresh` is the drawn identifier.
abbrev pub header_or : Option String → String → String
header_or none fresh = fresh
header_or (some h) fresh = if str_eq h "" then fresh else h

-- `RequestIDMiddleware.__call__`
unfoldable pub request_id_middleware : String → Answering → Answering
request_id_middleware fresh get_response request s =
    let id = header_or request.meta.request_id fresh in
    let ((response, request'), s') = get_response (record request { request_id = some id }) s in
    ((record response { request_id = some id }, request'), s')

-- `RequestLoggingMiddleware.__call__`: the duration is set when the answer is there.
unfoldable pub request_logging_middleware : ℕ → Answering → Answering
request_logging_middleware elapsed_ms get_response request s =
    let ((response, request'), s') = get_response request s in
    ((response, record request' { duration_ms = some elapsed_ms }), s')
