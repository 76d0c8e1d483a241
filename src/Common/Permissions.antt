-- ===== src/Common/Permissions.antt =====
-- apps/common/permissions.py and apps/subscriptions/permissions.py. `none` is an anonymous user.
use saas_backend_api.Prelude.{
  ℕ, String, Bool, true, false, not, Option, none, some, ◌==◌, ◌||◌, if◌then◌else◌, str_eq,
}
use saas_backend_api.Users.Models.{UserRole, admin, staff, customer, User, is_staff_or_admin}
use saas_backend_api.Subscriptions.Models.{Plan, Subscription, is_active}
use saas_backend_api.Subscriptions.Services.{feature}

-- `IsAuthenticated` of the framework.
abbrev pub is_authenticated : Option User → Bool
is_authenticated none = false
is_authenticated (some u) = true

-- `IsAuthenticatedAndVerified`
abbrev pub is_authenticated_and_verified : Option User → Bool
is_authenticated_and_verified none = false
is_authenticated_and_verified (some u) = u.is_verified

abbrev is_admin_role : UserRole → Bool
is_admin_role admin = true
is_admin_role staff = false
is_admin_role customer = false

-- `IsAdmin`
abbrev pub is_admin : Option User → Bool
is_admin none = false
is_admin (some u) = is_admin_role u.role

-- `IsStaffOrAbove`
abbrev pub is_staff_or_above : Option User → Bool
is_staff_or_above none = false
is_staff_or_above (some u) = is_staff_or_admin u.role

-- `IsOwner`, for the owner of an object, if it has one, and the user of the request.
abbrev pub is_owner : Option ℕ → Option User → Bool
is_owner none user = false
is_owner (some owner) none = false
is_owner (some owner) (some u) = owner == u.id

-- `ReadOnly`
abbrev pub read_only : String → Bool
read_only method = str_eq method "GET" || str_eq method "HEAD" || str_eq method "OPTIONS"

-- `HasActiveSubscription`, on `request.subscription`.
abbrev pub has_active_subscription : ℕ → Option Subscription → Bool
has_active_subscription now none = false
has_active_subscription now (some sub) = is_active now sub

-- `HasFeature`, on `request.subscription` and its plan.
abbrev pub has_feature_permission : ℕ → String → Option (Subscription × Plan) → Bool
has_feature_permission now key none = false
has_feature_permission now key (some (sub, plan)) =
    if not (is_active now sub) then false else feature key plan.features
