-- ===== src/Users/Services.antt =====
-- apps/users/services.py, apps/users/managers.py and the methods of `User`.
use saas_backend_api.Prelude.{
  ℕ, String, Bool, true, false, not, Option, none, some, ◌∷◌, ◌==◌, str_eq, exists, update_where,
}
use saas_backend_api.Common.Errors.{conflict, authentication_failed, integrity_error, value_error}
use saas_backend_api.Users.Models.{UserRole, admin, customer, User}
use saas_backend_api.Users.Selectors.{get_user_by_email}
use saas_backend_api.Store.{
  Env, Action, pure, gets, atomic, ◌>>=◌, ◌>>◌, raise_if, modify, draw, error,
}
use saas_backend_api.Subscriptions.Services.{enroll_in_free_plan}

-- The keyword arguments `**extra` of the manager; `none` is an absent key.
pub record Extra : Type 0 where
  pub first_name : Option String
  pub last_name : Option String
  pub role : Option UserRole
  pub is_staff : Option Bool
  pub is_superuser : Option Bool
  pub is_active : Option Bool
  pub is_verified : Option Bool

-- `extra.setdefault(key, value)`, and a model field's default.
abbrev pub or_default {ℓ} : {A : Type ℓ} → Option A → A → A
or_default none d = d
or_default (some a) d = a

-- `user.save()` of a new row: the e-mail column is unique.
abbrev pub insert_user : User → Action (Unit {0})
insert_user user = do
  taken ← gets (λ db. exists (λ u. str_eq u.email user.email) db.users)
  raise_if taken integrity_error
  modify (λ db. record db { users = user ∷ db.users })

-- The row that `_create_user` builds; the salt of the password is drawn after the key.
abbrev pub new_user : Env → String → String → Extra → ℕ → ℕ → User
new_user e email password extra id salt = record {
  id = id;
  email = e.lower (e.normalize_email email);
  password = e.make_password salt password;
  first_name = or_default extra.first_name "";
  last_name = or_default extra.last_name "";
  role = or_default extra.role customer;
  is_active = or_default extra.is_active true;
  is_verified = or_default extra.is_verified false;
  is_staff = or_default extra.is_staff false;
  is_superuser = or_default extra.is_superuser false;
  last_login = none;
  last_login_at = none;
  created_at = e.now;
}

-- `UserManager._create_user`
unfoldable pub manager_create : Env → String → String → Extra → Action User
manager_create e email password extra = do
  raise_if (str_eq email "") value_error
  id ← draw
  salt ← draw
  insert_user (new_user e email password extra id salt)
  pure (new_user e email password extra id salt)

-- `UserManager.create_user`
unfoldable pub manager_create_user : Env → String → String → Extra → Action User
manager_create_user e email password extra = manager_create e email password (record extra {
  role = some (or_default extra.role customer);
  is_staff = some (or_default extra.is_staff false);
  is_superuser = some (or_default extra.is_superuser false);
})

-- `UserManager.create_superuser`
unfoldable pub manager_create_superuser : Env → String → String → Extra → Action User
manager_create_superuser e email password extra = do
  raise_if (not (or_default extra.is_staff true)) value_error
  raise_if (not (or_default extra.is_superuser true)) value_error
  manager_create e email password (record extra {
    role = some (or_default extra.role admin);
    is_staff = some (or_default extra.is_staff true);
    is_superuser = some (or_default extra.is_superuser true);
    is_active = some (or_default extra.is_active true);
    is_verified = some (or_default extra.is_verified true);
  })

-- The keyword arguments that the service hands to the manager.
abbrev pub customer_extra : Env → String → String → UserRole → Extra
customer_extra e first_name last_name role = record {
  first_name = some (e.strip first_name);
  last_name = some (e.strip last_name);
  role = some role;
  is_staff = none;
  is_superuser = none;
  is_active = none;
  is_verified = none;
}

abbrev pub is_found {ℓ} : {A : Type ℓ} → Option A → Bool
is_found none = false
is_found (some _) = true

-- `users.services.create_user`
unfoldable pub create_user : Env → String → String → String → String → UserRole → Action User
create_user e email password first_name last_name role = atomic do
  taken ← gets (get_user_by_email e email)
  raise_if (is_found taken)
      (error conflict "An account with this email already exists." "email_taken")
  user ← manager_create_user e email password (customer_extra e first_name last_name role)
  enroll_in_free_plan e user.id
  pure user

-- `user.save(update_fields=...)`
abbrev pub save_user : ℕ → (User → User) → Action (Unit {0})
save_user id f = modify (λ db. record db { users = update_where (λ u. u.id == id) f db.users })

-- The allowed fields of a profile; `none` is an absent key, or the value `None`, which is skipped.
abbrev pub with_names : Option String → Option String → User → User
with_names first_name last_name u = record u {
  first_name = or_default first_name u.first_name;
  last_name = or_default last_name u.last_name;
}

unfoldable pub update_profile : User → Option String → Option String → Action User
update_profile user first_name last_name = do
  save_user user.id (with_names first_name last_name)
  pure (with_names first_name last_name user)

-- `user.set_password(raw)` with a salt.
abbrev pub with_password : Env → ℕ → String → User → User
with_password e salt raw u = record u { password = e.make_password salt raw }

unfoldable pub change_password : Env → User → String → String → Action (Unit {0})
change_password e user current_password new_password = do
  raise_if (not (e.check_password current_password user.password))
      (error authentication_failed "Current password is incorrect." "invalid_password")
  salt ← draw
  save_user user.id (with_password e salt new_password)

-- `User.mark_logged_in`
abbrev pub logged_in : ℕ → User → User
logged_in now u = record u { last_login_at = some now }

unfoldable pub mark_logged_in : Env → User → Action (Unit {0})
mark_logged_in e user = save_user user.id (logged_in e.now)
