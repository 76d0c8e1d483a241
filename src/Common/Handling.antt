-- ===== src/Common/Handling.antt =====
-- Which exceptions apps/common/exception_handler.py answers.
use saas_backend_api.Prelude.{◌≡◌, refl, ◌↔◌, none, [], ◌∷◌, arith}
use saas_backend_api.Common.Handler.{
  errs, other, leaf, many, fields, Caught, http404, django_permission_denied, api, domain_error,
  unhandled, normalize_details, custom_exception_handler,
}

-- The detail is a dictionary whose first field has an empty list of errors.
abbrev pub StartsEmpty : Caught → Type 0
StartsEmpty (api status code (fields ((f, errs []) ∷ rest))) = Unit
StartsEmpty (api status code (fields ((f, errs (l ∷ ls)) ∷ rest))) = ⊥
StartsEmpty (api status code (fields ((f, other s c) ∷ rest))) = ⊥
StartsEmpty (api status code (fields [])) = ⊥
StartsEmpty (api status code (leaf l)) = ⊥
StartsEmpty (api status code (many ls)) = ⊥
StartsEmpty http404 = ⊥
StartsEmpty django_permission_denied = ⊥
StartsEmpty (domain_error d) = ⊥
StartsEmpty unhandled = ⊥

-- The handler fails itself exactly for a detail whose first field has an empty list of errors;
-- every other exception is answered with an envelope.
pub handler-fails_iff : (c : Caught) → (custom_exception_handler c ≡ none) ↔ StartsEmpty c
unfolding custom_exception_handler normalize_details
handler-fails_iff (api status code (fields ((f, errs []) ∷ rest))) = (λ h. tt, λ h. refl)
handler-fails_iff (api status code (fields ((f, errs (l ∷ ls)) ∷ rest))) =
    (λ h. ground (arith, h), λ h. elim h [ ])
handler-fails_iff (api status code (fields ((f, other s c) ∷ rest))) =
    (λ h. ground (arith, h), λ h. elim h [ ])
handler-fails_iff (api status code (fields [])) = (λ h. ground (arith, h), λ h. elim h [ ])
handler-fails_iff (api status code (leaf l)) = (λ h. ground (arith, h), λ h. elim h [ ])
handler-fails_iff (api status code (many [])) = (λ h. ground (arith, h), λ h. elim h [ ])
handler-fails_iff (api status code (many (l ∷ ls))) = (λ h. ground (arith, h), λ h. elim h [ ])
handler-fails_iff http404 = (λ h. ground (arith, h), λ h. elim h [ ])
handler-fails_iff django_permission_denied = (λ h. ground (arith, h), λ h. elim h [ ])
handler-fails_iff (domain_error d) = (λ h. ground (arith, h), λ h. elim h [ ])
handler-fails_iff unhandled = (λ h. ground (arith, h), λ h. elim h [ ])
