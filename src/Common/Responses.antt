-- ===== src/Common/Responses.antt =====
-- apps/common/responses.py.
use saas_backend_api.Prelude.{ℕ, String, Option}
use saas_backend_api.Common.Utils.{non_empty}

-- The payload of a success and its status; an absent key is none.
pub record Payload (A : Type 0) : Type 0 where
  pub message : Option String
  pub payload : Option A
  pub status : ℕ

-- `success`
abbrev pub success : {A : Type 0} → Option A → String → ℕ → Payload A
success content message status = record {
  message = non_empty message;
  payload = content;
  status = status;
}
