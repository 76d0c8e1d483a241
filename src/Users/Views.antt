-- ===== src/Users/Views.antt =====
-- apps/users/serializers.py and apps/users/views.py.
use saas_backend_api.Prelude.{
  ℕ, String, Bool, Option, none, some, List, map, if◌then◌else◌, ltb, false, true,
}
use Prim.Native.String.{◌++◌}
use saas_backend_api.Common.Errors.{invalid}
use saas_backend_api.Common.Utils.{text_length}
use saas_backend_api.Common.Validators.{validate_strong_password}
use saas_backend_api.Common.Responses.{Payload, success}
use saas_backend_api.Common.Pagination.{Paging, Page, get_paginated_response}
use saas_backend_api.Users.Models.{User, UserRole}
use saas_backend_api.Users.Services.{update_profile, change_password, is_found}
use saas_backend_api.Store.{Env, Result, answered, Action, pure, gets, ◌>>=◌, ◌>>◌, raise_if}

-- `UserSerializer`
pub record UserData : Type 0 where
  pub id : ℕ
  pub email : String
  pub first_name : String
  pub last_name : String
  pub full_name : String
  pub role : UserRole
  pub is_verified : Bool
  pub is_active : Bool
  pub created_at : ℕ
  pub last_login_at : Option ℕ

-- `User.full_name`
abbrev pub full_name : Env → User → String
full_name e u = e.strip (u.first_name ++ " " ++ u.last_name)

abbrev pub user_data : Env → User → UserData
user_data e u = record {
  id = u.id;
  email = u.email;
  first_name = u.first_name;
  last_name = u.last_name;
  full_name = full_name e u;
  role = u.role;
  is_verified = u.is_verified;
  is_active = u.is_active;
  created_at = u.created_at;
  last_login_at = u.last_login_at;
}

-- `MeView.get`
unfoldable pub me_view : Env → User → Action (Payload UserData)
me_view e u = do pure (success (some (user_data e u)) "" 200)

-- `max_length=120` of an optional field.
abbrev pub is_too_long : Option String → Bool
is_too_long none = false
is_too_long (some s) = ltb 120 (text_length s)

-- `MeView.patch`
unfoldable pub me_patch_view :
    Env → User → Option String → Option String → Action (Payload UserData)
me_patch_view e u first_name last_name = do
  raise_if (is_too_long first_name) invalid
  raise_if (is_too_long last_name) invalid
  updated ← update_profile u first_name last_name
  pure (success (some (user_data e updated)) "Profile updated." 200)

-- `min_length=10` and `validate_new_password`.
abbrev pub is_bad_password : Env → String → Bool
is_bad_password e s =
    if ltb (text_length s) 10 then true else is_found (validate_strong_password e s)

-- `ChangePasswordView.post`
unfoldable pub change_password_view : Env → User → String → String → Action (Payload (Unit {0}))
change_password_view e u current_password new_password = do
  raise_if (is_bad_password e new_password) invalid
  change_password e u current_password new_password
  pure (success none "Password changed." 200)

-- `UserListView.get`: the table is newest first, and the framework's `paginate_queryset` cuts out
-- the page that is asked for, or refuses.
unfoldable pub user_list_view : Env → (List User → Result (Paging User)) → Action (Page UserData)
user_list_view e paginate_queryset = do
  users ← gets (λ db. db.users)
  page ← answered (paginate_queryset users)
  pure (get_paginated_response page (map (user_data e) page.rows))
