-- ===== src/System/Kept.antt =====
-- What the operations use up: API keys, tokens, sessions and refresh tokens.
use saas_backend_api.Prelude.{Bool, ◌≡◌, true, String, List}
use saas_backend_api.Store.{Db}
use saas_backend_api.Authentication.Models.{Token, UserSession, is_null}
use saas_backend_api.Authentication.Services.{is_listed}
use saas_backend_api.ApiKeys.Models.{ApiKey, is_active}
use saas_backend_api.System.Tables.{IsClosed}

abbrev pub is_unused : Token → Bool
is_unused t = is_null t.used_at

abbrev pub is_open : UserSession → Bool
is_open r = is_null r.revoked_at

-- What is used up: an API key that is revoked, a token that is used, a session that is revoked, and
-- a `jti` that is on the blacklist.
pub data Spent : Type 0 where
  api_key verification reset session listed : String → Spent

abbrev pub AreClosedKeys : String → List ApiKey → Type 0
AreClosedKeys = IsClosed (λ k. k.id) (λ k. k.key_hash) is_active

abbrev pub AreClosedTokens : String → List Token → Type 0
AreClosedTokens = IsClosed (λ t. t.id) (λ t. t.token_hash) is_unused

abbrev pub AreClosedSessions : String → List UserSession → Type 0
AreClosedSessions = IsClosed (λ r. r.id) (λ r. r.refresh_jti) is_open

abbrev pub IsSpent : Spent → Db → Type 0
IsSpent (api_key hash) db = AreClosedKeys hash db.api_keys
IsSpent (verification hash) db = AreClosedTokens hash db.verification_tokens
IsSpent (reset hash) db = AreClosedTokens hash db.reset_tokens
IsSpent (session jti) db = AreClosedSessions jti db.sessions
IsSpent (listed jti) db = is_listed jti db.blacklist ≡ true

-- What is used up in one state is so in the other.
abbrev pub IsKept : Db → Db → Type 0
IsKept db db' =
    ((c : String) → AreClosedKeys c db.api_keys → AreClosedKeys c db'.api_keys)
    × ((c : String)
        → AreClosedTokens c db.verification_tokens
        → AreClosedTokens c db'.verification_tokens)
    × ((c : String) → AreClosedTokens c db.reset_tokens → AreClosedTokens c db'.reset_tokens)
    × ((c : String) → AreClosedSessions c db.sessions → AreClosedSessions c db'.sessions)
    × ((c : String) → is_listed c db.blacklist ≡ true → is_listed c db'.blacklist ≡ true)

pub IsKept-refl : (db : Db) → IsKept db db
IsKept-refl db = (λ c h. h, λ c h. h, λ c h. h, λ c h. h, λ c h. h)

pub IsKept-trans : (a b c : Db) → IsKept a b → IsKept b c → IsKept a c
IsKept-trans a b c (f, g, h, i, j) (f', g', h', i', j') = (
  λ x d. f' x (f x d),
  λ x d. g' x (g x d),
  λ x d. h' x (h x d),
  λ x d. i' x (i x d),
  λ x d. j' x (j x d),
)

pub IsSpent-kept : (x : Spent) (db db' : Db) → IsKept db db' → IsSpent x db → IsSpent x db'
IsSpent-kept (api_key c) db db' k h = k.0 c h
IsSpent-kept (verification c) db db' k h = k.1 c h
IsSpent-kept (reset c) db db' k h = k.2 c h
IsSpent-kept (session c) db db' k h = k.3 c h
IsSpent-kept (listed c) db db' k h = k.4 c h
