-- ===== src/Common/Requests.antt =====
-- A request, a response, and what answers a request. The request is one object that the middleware
-- and the view write to, so an answer comes with the request as it is then.
use saas_backend_api.Prelude.{ℕ, String, Option}
use saas_backend_api.Users.Models.{User}
use saas_backend_api.Subscriptions.Models.{Subscription}
use saas_backend_api.ApiKeys.Models.{ApiKey}
use saas_backend_api.Common.Utils.{Meta}
use saas_backend_api.Store.{State}

-- `user` is none while the request is anonymous; the other options are attributes that may not be
-- set yet.
pub record Request : Type 0 where
  pub method : String
  pub path : String
  pub meta : Meta
  pub user : Option User
  pub auth : Option ApiKey
  pub request_id : Option String
  pub duration_ms : Option ℕ
  pub subscription : Option Subscription
  pub subscription_plan_slug : Option String

pub record Response : Type 0 where
  pub status_code : ℕ
  pub request_id : Option String

-- `get_response`
abbrev pub Answering : Type 0
Answering = Request → State → (Response × Request) × State
