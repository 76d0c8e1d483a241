-- ===== src/ApiKeys/Views.antt =====
-- apps/api_keys/serializers.py and apps/api_keys/views.py.
use saas_backend_api.Prelude.{ℕ, String, Bool, Option, some, List, map, ◌==◌, ltb, select}
use saas_backend_api.Common.Errors.{invalid}
use saas_backend_api.Common.Utils.{text_length}
use saas_backend_api.Common.Responses.{Payload, success}
use saas_backend_api.Users.Models.{User}
use saas_backend_api.Store.{Env, Action, pure, gets, ◌>>=◌, ◌>>◌, raise_if}
use saas_backend_api.ApiKeys.Models.{ApiKey, is_active}
use saas_backend_api.ApiKeys.Services.{IssuedKey, create_api_key, revoke_api_key, rotate_api_key}

-- `APIKeySerializer`
pub record ApiKeyData : Type 0 where
  pub id : ℕ
  pub name : String
  pub prefix : String
  pub is_active : Bool
  pub last_used_at : Option ℕ
  pub revoked_at : Option ℕ
  pub created_at : ℕ

abbrev pub api_key_data : ApiKey → ApiKeyData
api_key_data k = record {
  id = k.id;
  name = k.name;
  prefix = k.prefix;
  is_active = is_active k;
  last_used_at = k.last_used_at;
  revoked_at = k.revoked_at;
  created_at = k.created_at;
}

-- `APIKeyIssuedSerializer`
pub record IssuedData : Type 0 where
  pub key : String
  pub api_key : ApiKeyData

abbrev pub issued_data : IssuedKey → IssuedData
issued_data i = record { key = i.plaintext; api_key = api_key_data i.api_key }

-- `APIKeyListCreateView.get`
unfoldable pub api_key_list_view : User → Action (Payload (List ApiKeyData))
api_key_list_view u = do
  keys ← gets (λ db. select (λ k. k.user == u.id) db.api_keys)
  pure (success (some (map api_key_data keys)) "" 200)

-- `APIKeyListCreateView.post`; `name` is validated to at most 120 characters.
unfoldable pub api_key_create_view : Env → User → String → Action (Payload IssuedData)
api_key_create_view e u name = do
  raise_if (ltb 120 (text_length name)) invalid
  issued ← create_api_key e u.id name
  pure (
      success (some (issued_data issued))
        "API key created. Save it now — it will not be shown again." 201)

-- `APIKeyRevokeView.post`
unfoldable pub api_key_revoke_view : Env → User → ℕ → Action (Payload ApiKeyData)
api_key_revoke_view e u key_id = do
  key ← revoke_api_key e u.id key_id
  pure (success (some (api_key_data key)) "API key revoked." 200)

-- `APIKeyRotateView.post`
unfoldable pub api_key_rotate_view : Env → User → ℕ → Action (Payload IssuedData)
api_key_rotate_view e u key_id = do
  issued ← rotate_api_key e u.id key_id
  pure (success (some (issued_data issued)) "API key rotated." 200)
