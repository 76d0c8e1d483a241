-- ===== src/Api/Access.antt =====
-- Who may call which view: the permission classes against what the views answer.
use saas_backend_api.Api.Routes.{Segment, lit, uuid, Route}
use saas_backend_api.Api.Endpoints.{authenticated, staff_or_above, allow_any}
use saas_backend_api.ApiKeys.Models.{ApiKey}
use saas_backend_api.Prelude.{
  ◌&&◌, ◌||◌, not, if◌then◌else◌, str_eq, Bool, false, none, List, [], ◌≡◌, map, ◌∷◌, true,
}
use saas_backend_api.Common.Errors.{denied}
use saas_backend_api.Store.{State, err}
use saas_backend_api.Api.Endpoints.{permission_classes, check_permissions, Permission}
use saas_backend_api.Api.Dispatch.{
  rejected, broken, unauthorized, failed, identified, responded, Identity, Outcome,
}

-- Whether two patterns begin alike, and whether they are alike.
abbrev pub is_same : Segment → Segment → Bool
is_same (lit s) (lit t) = str_eq s t
is_same uuid uuid = true
is_same _ _ = false

unfoldable pub begins : List Segment → List Segment → Bool
begins [] ps = true
begins (q ∷ qs) [] = false
begins (q ∷ qs) (p ∷ ps) = is_same q p && begins qs ps

abbrev pub api_v1 : List Segment → List Segment
api_v1 ps = lit "api" ∷ lit "v1" ∷ ps

-- The URLs of everybody: the probe, the list of plans, and what an account needs before a login.
unfoldable pub is_public_url : List Segment → Bool
is_public_url p =
    begins (lit "health" ∷ []) p
    || begins (api_v1 (lit "subscriptions" ∷ lit "plans" ∷ [])) p
    || (begins (api_v1 (lit "auth" ∷ [])) p
        && not (
            begins (api_v1 (lit "auth" ∷ lit "logout" ∷ [])) p
            || begins (api_v1 (lit "auth" ∷ lit "sessions" ∷ [])) p))

-- The URLs of the staff: the figures of the whole system, and the list of all users.
unfoldable pub is_staff_url : List Segment → Bool
is_staff_url p =
    begins (api_v1 (lit "dashboard" ∷ lit "system" ∷ [])) p
    || (begins p (api_v1 (lit "users" ∷ [])) && begins (api_v1 (lit "users" ∷ [])) p)

-- What a URL of the API asks for.
unfoldable pub area : List Segment → Permission
area p =
    if is_public_url p then allow_any else if is_staff_url p then staff_or_above else authenticated

is_equal : Permission → Permission → Bool
is_equal allow_any allow_any = true
is_equal authenticated authenticated = true
is_equal staff_or_above staff_or_above = true
is_equal _ _ = false

are_guarded : List Route → Bool
are_guarded [] = true
are_guarded (r ∷ rs) = is_equal (permission_classes r.view) (area r.pattern) && are_guarded rs

-- The row of a key, less the time of its last use.
abbrev pub unused : ApiKey → ApiKey
unused k = record k { last_used_at = none }

-- The states differ at most in the times at which the keys were last used.
pub record IsButUse (s t : State) : Type 0 where
  pub others : t ≡ record s { db = record s.db { api_keys = t.db.api_keys } }
  pub keys : map unused t.db.api_keys ≡ map unused s.db.api_keys

-- The request is authenticated, or anonymous, and its view's permission class lets it through.
abbrev pub is_granted : Permission → Identity → Bool
is_granted p (identified user) = check_permissions p user
is_granted p rejected = false
is_granted p broken = false

-- What a request gets that is not let through.
abbrev pub denial : {A : Type 0} → Identity → Outcome A
denial (identified user) = responded (err denied)
denial rejected = unauthorized
denial broken = failed
