-- ===== src/Analytics/Stack.antt =====
-- What the middleware of apps/common, apps/analytics and apps/subscriptions do around a view.
use mathlib.Core.Option
use saas_backend_api.Prelude.{
  first, Option-cases, inl, inr, if◌then◌else◌, ℕ, ◌≡◌, refl, String, true, none, some, ◌∷◌, arith,
  Bool, Bool-cases, ◌&&◌,
}
use saas_backend_api.Users.Models.{User}
use saas_backend_api.Common.Requests.{Request, Response, Answering}
use saas_backend_api.Common.Throttling.{get_cache_key, bucket, get_rate}
use saas_backend_api.Common.Middleware.{
  request_id_middleware, request_logging_middleware, header_or,
}
use saas_backend_api.Subscriptions.Middleware.{subscription_context_middleware}
use saas_backend_api.Subscriptions.Services.{
  record_request, current_or_rotate_quota, enroll_in_free_plan, create_subscription,
}
use saas_backend_api.Store.{Env, State}
use saas_backend_api.Analytics.Middleware.{
  is_recorded_path, log_row, with_log, record_analytics, analytics_middleware, middleware_stack,
  is_storable,
}

-- Counting a request against the quota leaves the log alone.
record_request-logs :
    (e : Env) (user : ℕ) (s : State)
    → (record_request e user s).1.db.request_logs ≡ s.db.request_logs
unfolding record_request current_or_rotate_quota enroll_in_free_plan create_subscription
record_request-logs e user s = ground arith

-- A request of the user `u` is logged if its path is recorded and the table takes the row.
abbrev pub is_logged : Env → User → Request → Response → State → Bool
is_logged e u q response s =
    is_recorded_path q.path && is_storable e (log_row e s.draws u q response)

-- The analytics middleware answers what the view answers: a failure to log or to count the request,
-- the exceeded quota included, does not reach the client. The log gets the row of the request if
-- the user is known, the path recorded and the row one that the table takes; a request that is not
-- logged is not counted either, and leaves the tables as the view left them.
pub analytics-transparent :
    (e : Env) (view : Answering) (request : Request) (s : State)
    → let ((response, q), after) = view request s in
      let (answer, s') = analytics_middleware e view request s in
      (answer ≡ (response, q))
      × (s'.db.request_logs ≡ elim q.user [
        | none ↦ after.db.request_logs
        | some u ↦
            if is_logged e u q response after
            then log_row e after.draws u q response ∷ after.db.request_logs
            else after.db.request_logs
      ])
      × (s'.db ≡ elim q.user [
        | none ↦ after.db
        | some u ↦
            if is_logged e u q response after
            then (record_request e u.id (with_log e u q response after)).1.db
            else after.db
      ])
unfolding analytics_middleware record_analytics
analytics-transparent e view request s =
    let ((response, q), after) = view request s in
    elim (Option-cases q.user) [
      | inl anonymous ↦ ground (arith, anonymous)
      | inr (u, known) ↦ elim (Bool-cases (is_storable e (log_row e after.draws u q response))) [
        | inl stored ↦
            ground
              (arith, known, stored, record_request-logs e u.id (with_log e u q response after))
        | inr refused ↦ ground (arith, known, refused)
      ]
    ]

-- A view that authenticates the request and answers.
abbrev pub answer_as : User → Response → Answering
answer_as u response q s = ((response, record q { user = some u }), s)

-- The request as it stands when the identifier has been set.
abbrev entered : String → Request → Request
entered fresh request = record request {
  request_id = some (header_or request.meta.request_id fresh);
}

-- What the subscription middleware hands on: the same path and duration, and for an anonymous
-- request the slug "free".
context-answer_as :
    (u : User) (response : Response) (request : Request) (s : State)
    → let ((answer, q), s') = subscription_context_middleware (answer_as u response) request s in
      (s' ≡ s)
      × (answer ≡ response)
      × (q.path ≡ request.path)
      × (q.duration_ms ≡ request.duration_ms)
      × (q.method ≡ request.method)
      × (q.meta ≡ request.meta)
      × (q.user ≡ some u)
      × (request.user ≡ none → q.subscription_plan_slug ≡ some "free")
unfolding subscription_context_middleware
context-answer_as u response request s = ground arith

free_bucket : (u : User) → get_cache_key (some u) (some "free") ≡ bucket "plan_free" u.id 60
unfolding get_cache_key get_rate
free_bucket u = refl

-- A request that is anonymous when it enters the middleware is throttled as a Free user's once a
-- view has authenticated it, whatever plan the user has: the view sees the slug "free".
pub stack-throttles_as_free :
    (e : Env) (fresh : String) (elapsed_ms : ℕ) (u : User) (response : Response) (request : Request)
    (s : State)
    → request.user ≡ none
    → let ((_, q), _) = middleware_stack e fresh elapsed_ms (answer_as u response) request s in
      (q.user ≡ some u)
      × (get_cache_key q.user q.subscription_plan_slug ≡ bucket "plan_free" u.id 60)
unfolding middleware_stack request_id_middleware request_logging_middleware
stack-throttles_as_free e fresh elapsed_ms u response request s anonymous =
    let q = entered fresh request in
    ground (
      arith,
      context-answer_as u response q s,
      free_bucket u,
      analytics-transparent e (subscription_context_middleware (answer_as u response)) q s,
    )

-- The table takes the row that is written for a request if it takes that of the request as it came.
row-is_storable :
    (e : Env) (u : User) (response : Response) (request q : Request) (n m : ℕ)
    → q.method ≡ request.method
    → q.meta ≡ request.meta
    → q.duration_ms ≡ request.duration_ms
    → is_storable e (log_row e m u q response) ≡ is_storable e (log_row e n u request response)
row-is_storable e u response request q n m method meta duration = rw (method, meta, duration) refl

-- The duration is set after the row was written: when a request that comes without a duration on a
-- recorded path is authenticated and answered by a view, and the table takes its row, the row has a
-- response time of 0, however long the request took.
pub stack-logs_no_time :
    (e : Env) (fresh : String) (elapsed_ms : ℕ) (u : User) (response : Response) (request : Request)
    (s : State)
    → request.duration_ms ≡ none
    → is_recorded_path request.path ≡ true
    → is_storable e (log_row e s.draws u request response) ≡ true
    → let ((_, q), s') = middleware_stack e fresh elapsed_ms (answer_as u response) request s in
      (q.duration_ms ≡ some elapsed_ms)
      × (Option.map (λ r. r.response_ms) (first (λ r. true) s'.db.request_logs) ≡ some 0)
unfolding middleware_stack request_id_middleware request_logging_middleware
stack-logs_no_time e fresh elapsed_ms u response request s unset recorded stored =
    let q = entered fresh request in
    let ((answer, q'), after) = subscription_context_middleware (answer_as u response) q s in
    let (same, answered, path, duration, method, meta, known, slug) =
      context-answer_as u response q s in
    ground (
      arith,
      same,
      answered,
      path,
      duration,
      known,
      row-is_storable e u response request q' s.draws after.draws method meta duration,
      analytics-transparent e (subscription_context_middleware (answer_as u response)) q s,
      unset,
      recorded,
      stored,
    )
