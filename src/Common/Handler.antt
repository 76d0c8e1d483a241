-- ===== src/Common/Handler.antt =====
-- apps/common/exception_handler.py.
use saas_backend_api.Prelude.{ℕ, String, Option, none, some, List, [], ◌∷◌}
use saas_backend_api.Common.Errors.{Message, text, Detail, DomainError, status_code}

-- An `ErrorDetail`: a text with a code.
pub record Leaf : Type 0 where
  pub message : Message
  pub code : String

-- The errors of one field: a list of them, or any other value, with the text that `str` makes of it
-- and its code, if it has one.
pub data FieldErrors : Type 0 where
  errs : List Leaf → FieldErrors
  other : String → Option String → FieldErrors

-- The shapes of `exc.detail`.
pub data Shape : Type 0 where
  leaf : Leaf → Shape
  many : List Leaf → Shape
  fields : List (String × FieldErrors) → Shape

-- An exception that reaches the handler. `api` is any `APIException` that is not a domain error:
-- its status, its class's `default_code` and its detail.
pub data Caught : Type 0 where
  http404 : Caught
  django_permission_denied : Caught
  api : (status : ℕ) (default_code : String) → Shape → Caught
  domain_error : DomainError → Caught
  unhandled : Caught

-- The `details` of the envelope.
pub data Details : Type 0 where
  empty : Details
  of_fields : List (String × FieldErrors) → Details
  of_errors : List Leaf → Details
  extra : List (String × Detail) → Details

-- The headline of a field's errors, `f"{field}: {message}"`, kept as its two parts.
pub data Headline : Type 0 where
  plain : Message → Headline
  of_field : String → Message → Headline

-- `none` is an `IndexError`, for a field with an empty list of errors.
abbrev pub first_message : FieldErrors → Option Message
first_message (errs []) = none
first_message (errs (l ∷ ls)) = some l.message
first_message (other s code) = some (text s)

abbrev field_headline :
    String → List (String × FieldErrors) → Option Message → Option (Headline × Details)
field_headline f all none = none
field_headline f all (some m) = some (of_field f m, of_fields all)

-- `_normalize_details`
unfoldable pub normalize_details : Shape → Option (Headline × Details)
normalize_details (leaf l) = some (plain l.message, empty)
normalize_details (many []) = some (plain (text "Invalid input."), of_errors [])
normalize_details (many (l ∷ ls)) = some (plain l.message, of_errors (l ∷ ls))
normalize_details (fields []) = some (plain (text "Invalid input."), empty)
normalize_details (fields ((f, es) ∷ rest)) = field_headline f ((f, es) ∷ rest) (first_message es)

-- The loop over the fields: the code of the first field that has one.
unfoldable pub field_code : String → List (String × FieldErrors) → String
field_code default [] = default
field_code default ((f, errs []) ∷ rest) = field_code default rest
field_code default ((f, errs (l ∷ ls)) ∷ rest) = l.code
field_code default ((f, other s none) ∷ rest) = field_code default rest
field_code default ((f, other s (some c)) ∷ rest) = c

abbrev pub shape_code : String → Shape → String
shape_code default (leaf l) = l.code
shape_code default (many ls) = default
shape_code default (fields fs) = field_code default fs

pub record Envelope : Type 0 where
  pub status : ℕ
  pub code : String
  pub message : Headline
  pub details : Details

abbrev envelope_of : ℕ → String → Option (Headline × Details) → Option Envelope
envelope_of status code none = none
envelope_of status code (some (m, d)) =
    some (record { status = status; code = code; message = m; details = d })

-- `{**details, **exc.extra_details}`, where a domain error's own details are empty.
abbrev with_extra : List (String × Detail) → Details
with_extra [] = empty
with_extra (d ∷ ds) = extra (d ∷ ds)

-- `custom_exception_handler`; `none` is the handler's own `IndexError`.
unfoldable pub custom_exception_handler : Caught → Option Envelope
custom_exception_handler http404 = some (record {
  status = 404;
  code = "not_found";
  message = plain (text "Resource not found.");
  details = empty;
})
custom_exception_handler django_permission_denied = some (record {
  status = 403;
  code = "permission_denied";
  message = plain (text "Permission denied.");
  details = empty;
})
custom_exception_handler (api status default_code shape) =
    envelope_of status (shape_code default_code shape) (normalize_details shape)
custom_exception_handler (domain_error d) = some (record {
  status = status_code d.cls;
  code = d.code;
  message = plain d.detail;
  details = with_extra d.extra_details;
})
custom_exception_handler unhandled = some (record {
  status = 500;
  code = "internal_error";
  message = plain (text "An unexpected error occurred.");
  details = empty;
})
