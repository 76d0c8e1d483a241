-- ===== src/ApiKeys/Authentication.antt =====
-- apps/api_keys/authentication.py.
use saas_backend_api.Prelude.{
  String, Bool, not, Option, none, some, List, [], ◌∷◌, ◌==◌, ◌&&◌, if◌then◌else◌, str_eq, first,
  select, update_where,
}
use saas_backend_api.Users.Models.{User}
use saas_backend_api.Users.Selectors.{user_by_id}
use saas_backend_api.Common.Utils.{constant_time_compare}
use saas_backend_api.Store.{Env, State}
use saas_backend_api.ApiKeys.Models.{ApiKey, is_active, marked_used}
use saas_backend_api.ApiKeys.Services.{split_prefix, compute_hash}

-- What an authentication class answers: the request goes on to the next class, is authenticated by
-- a user and a key, is refused, or the class itself fails with a decoding error.
pub data Answer : Type 0 where
  fall_through : Answer
  authenticated : User → ApiKey → Answer
  refused : String → Answer
  crashed : Answer

-- A key in a header: none, a text, a refusal or a decoding error.
pub data Extracted : Type 0 where
  no_key : Extracted
  key : String → Extracted
  bad_header : Extracted
  undecodable : Extracted

-- The two words of an `Authorization` header, each decoded as ASCII (`none` where it is not); the
-- keyword is decoded outside the `try`.
abbrev from_words : Env → Option String → Option String → Extracted
from_words e none value = undecodable
from_words e (some word) value =
    if str_eq (e.lower word) (e.lower "Api-Key")
    then elim value [ some s ↦ key s | none ↦ bad_header ]
    else no_key

abbrev from_authorization : Env → List (Option String) → Extracted
from_authorization e (word ∷ value ∷ []) = from_words e word value
from_authorization e _ = no_key

-- `_extract_key`; `words` is the `Authorization` header split at white space.
unfoldable pub extract_key : Env → Option String → List (Option String) → Extracted
extract_key e none words = from_authorization e words
extract_key e (some value) words =
    if str_eq value "" then from_authorization e words else key (e.strip value)

-- `filter(prefix=prefix, revoked_at__isnull=True)`
abbrev pub is_candidate : String → ApiKey → Bool
is_candidate prefix k = str_eq k.prefix prefix && is_active k

-- The loop over the candidates: the first whose hash is the provided one.
abbrev pub matching : String → List ApiKey → Option ApiKey
matching hash ks = first (λ k. constant_time_compare k.key_hash hash) ks

abbrev pub mark : Env → ApiKey → State → State
mark e k s = record s {
  db = record s.db {
    api_keys = update_where (λ r. r.id == k.id) (marked_used e.now) s.db.api_keys;
  };
}

-- A match: the candidate's user has to be active, and the key's use is recorded.
abbrev pub accept : Env → ApiKey → Option User → State → Answer × State
accept e k none s = (crashed, s)
accept e k (some user) s =
    if not user.is_active
    then (refused "User account is disabled.", s)
    else (authenticated user k, mark e k s)

abbrev pub check_key : Env → String → State → Answer × State
check_key e plaintext s =
    let candidates = select (is_candidate (split_prefix plaintext)) s.db.api_keys in
    elim (matching (compute_hash e plaintext) candidates) [
      | none ↦ (refused "Invalid API key.", s)
      | some k ↦ accept e k (user_by_id k.user s.db) s
    ]

abbrev pub answer : Env → Extracted → State → Answer × State
answer e no_key s = (fall_through, s)
answer e (key plaintext) s =
    if str_eq plaintext "" then (fall_through, s) else check_key e plaintext s
answer e bad_header s = (refused "Invalid API key header.", s)
answer e undecodable s = (crashed, s)

-- `APIKeyAuthentication.authenticate`
unfoldable pub authenticate : Env → Option String → List (Option String) → State → Answer × State
authenticate e header words s = answer e (extract_key e header words) s
