-- ===== src/ApiKeys/Services.antt =====
-- apps/api_keys/services.py, and the functions on plaintext keys of apps/api_keys/models.py.
use saas_backend_api.Prelude.{
  ℕ, String, Bool, not, Option, none, some, [], ◌∷◌, ◌==◌, leb, ◌&&◌, if◌then◌else◌, str_eq, first,
  exists, count, update_where,
}
use Prim.Native.String.{◌++◌}
use saas_backend_api.Common.Errors.{
  not_found, conflict, permission_denied, integrity_error, init_error, key_limit, num, Exc, domain,
}
use saas_backend_api.Common.Utils.{hash_token, take_text}
use saas_backend_api.Subscriptions.Models.{Subscription}
use saas_backend_api.Subscriptions.Selectors.{get_active_subscription}
use saas_backend_api.Subscriptions.Services.{plan_of}
use saas_backend_api.Store.{
  Env, Action, pure, gets, or_raise, atomic, ◌>>=◌, ◌>>◌, raise_if, modify, draw, error,
}
use saas_backend_api.ApiKeys.Models.{ApiKey, is_active, revoked}

abbrev pub key_prefix : String
key_prefix = "sk_live_"

abbrev pub prefix_len_for_display : ℕ
prefix_len_for_display = 12

-- `generate_plaintext_key`, from the number of its draw.
abbrev pub plaintext_key : Env → ℕ → String
plaintext_key e n = key_prefix ++ e.token_urlsafe n

-- `split_prefix`
abbrev pub split_prefix : String → String
split_prefix plaintext = take_text prefix_len_for_display plaintext

-- `compute_hash`
abbrev pub compute_hash : Env → String → String
compute_hash e plaintext = hash_token e plaintext

pub record IssuedKey : Type 0 where
  pub plaintext : String
  pub api_key : ApiKey

-- `filter(user=user, revoked_at__isnull=True)`
abbrev pub is_users_active_key : ℕ → ApiKey → Bool
is_users_active_key user k = k.user == user && is_active k

-- `sub.plan.max_api_keys if sub else 1`
abbrev pub plan_max : Option Subscription → Action ℕ
plan_max none = pure 1
plan_max (some sub) = do pure (← plan_of sub).max_api_keys

abbrev pub limit_error : ℕ → ℕ → Exc
limit_error limit current = domain (
    init_error permission_denied (key_limit limit) "api_key_limit_reached"
      (("limit", num limit) ∷ ("current", num current) ∷ []))

-- `name.strip()[:120] or "default"`
abbrev pub key_name : Env → String → String
key_name e name = let s = take_text 120 (e.strip name) in if str_eq s "" then "default" else s

-- The row of a new key.
abbrev pub new_key : Env → ℕ → String → ℕ → String → ApiKey
new_key e user name id plaintext = record {
  id = id;
  user = user;
  name = key_name e name;
  prefix = split_prefix plaintext;
  key_hash = compute_hash e plaintext;
  last_used_at = none;
  revoked_at = none;
  created_at = e.now;
}

-- `APIKey.objects.create`: the hash is unique.
abbrev pub insert_key : ApiKey → Action (Unit {0})
insert_key key = do
  taken ← gets (λ db. exists (λ k. str_eq k.key_hash key.key_hash) db.api_keys)
  raise_if taken integrity_error
  modify (λ db. record db { api_keys = key ∷ db.api_keys })

unfoldable pub create_api_key : Env → ℕ → String → Action IssuedKey
create_api_key e user name = atomic do
  sub ← gets (get_active_subscription user)
  limit ← plan_max sub
  current ← gets (λ db. count (is_users_active_key user) db.api_keys)
  raise_if (leb limit current) (limit_error limit current)
  secret ← draw
  id ← draw
  let plaintext = plaintext_key e secret
  insert_key (new_key e user name id plaintext)
  pure (record { plaintext = plaintext; api_key = new_key e user name id plaintext })

abbrev pub is_owned_key : ℕ → ℕ → ApiKey → Bool
is_owned_key user id k = k.id == id && k.user == user

-- `key.revoke()`
abbrev pub revoke_key : Env → ℕ → Action (Unit {0})
revoke_key e id =
    modify
      (λ db. record db { api_keys = update_where (λ k. k.id == id) (revoked e.now) db.api_keys })

unfoldable pub revoke_api_key : Env → ℕ → ℕ → Action ApiKey
revoke_api_key e user key_id = do
  found ← gets (λ db. first (is_owned_key user key_id) db.api_keys)
  key ← or_raise found (error not_found "API key not found." "api_key_not_found")
  raise_if (not (is_active key)) (error conflict "API key already revoked." "already_revoked")
  revoke_key e key.id
  pure (revoked e.now key)

unfoldable pub rotate_api_key : Env → ℕ → ℕ → Action IssuedKey
rotate_api_key e user key_id = atomic do
  found ← gets (λ db. first (is_owned_key user key_id) db.api_keys)
  old ← or_raise found (error not_found "API key not found." "api_key_not_found")
  raise_if (not (is_active old)) (error conflict "Cannot rotate a revoked key." "already_revoked")
  revoke_key e old.id
  create_api_key e user old.name
