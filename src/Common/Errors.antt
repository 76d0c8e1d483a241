-- ===== src/Common/Errors.antt =====
-- apps/common/exceptions.py: the hierarchy of domain errors, and the other exceptions that the
-- modelled code can raise.
use saas_backend_api.Prelude.{ℕ, String, List, if◌then◌else◌, str_eq}

-- The subclasses of `DomainError`, and the class itself.
pub data ErrorClass : Type 0 where
  domain_error validation_error authentication_failed permission_denied : ErrorClass
  not_found conflict quota_exceeded service_unavailable : ErrorClass

-- `status_code` of each class.
abbrev pub status_code : ErrorClass → ℕ
status_code domain_error = 400
status_code validation_error = 400
status_code authentication_failed = 401
status_code permission_denied = 403
status_code not_found = 404
status_code conflict = 409
status_code quota_exceeded = 429
status_code service_unavailable = 503

-- `default_detail` of each class.
abbrev pub default_detail : ErrorClass → String
default_detail domain_error = "A domain error occurred."
default_detail validation_error = "Invalid input."
default_detail authentication_failed = "Authentication failed."
default_detail permission_denied = "Permission denied."
default_detail not_found = "Resource not found."
default_detail conflict = "Conflict with current resource state."
default_detail quota_exceeded = "Subscription quota exceeded."
default_detail service_unavailable = "Service temporarily unavailable."

-- `default_code` of each class.
abbrev pub default_code : ErrorClass → String
default_code domain_error = "domain_error"
default_code validation_error = "validation_error"
default_code authentication_failed = "authentication_failed"
default_code permission_denied = "permission_denied"
default_code not_found = "not_found"
default_code conflict = "conflict"
default_code quota_exceeded = "quota_exceeded"
default_code service_unavailable = "service_unavailable"

-- A message: a text, or one of the two messages that print numbers, with what they print.
pub data Message : Type 0 where
  text : String → Message
  monthly_quota : (limit : ℕ) (slug : String) → Message
  key_limit : (plan_max : ℕ) → Message

-- A value of the `details` dictionary.
pub data Detail : Type 0 where
  num : ℕ → Detail
  str : String → Detail

pub record DomainError : Type 0 where
  pub cls : ErrorClass
  pub detail : Message
  pub code : String
  pub extra_details : List (String × Detail)

-- `x or default` on a text.
abbrev pub or_text : String → String → String
or_text s default = if str_eq s "" then default else s

abbrev or_message : Message → String → Message
or_message (text s) default = text (or_text s default)
or_message (monthly_quota limit slug) default = monthly_quota limit slug
or_message (key_limit plan_max) default = key_limit plan_max

-- `DomainError.__init__`; an omitted argument is the empty text or the empty dictionary, which
-- the constructor treats alike.
abbrev pub init_error : ErrorClass → Message → String → List (String × Detail) → DomainError
init_error cls message code details = record {
  cls = cls;
  detail = or_message message (default_detail cls);
  code = or_text code (default_code cls);
  extra_details = details;
}

-- Everything that a modelled operation can raise. Below the domain errors stand the database's
-- refusal of a duplicate, an integer column's overflow, a missing row behind a foreign key, Python's
-- `ValueError`, and the framework's refusals of a request that a permission class does not let
-- through or that a serializer finds invalid.
pub data Exc : Type 0 where
  domain : DomainError → Exc
  integrity_error data_error does_not_exist value_error denied invalid : Exc
