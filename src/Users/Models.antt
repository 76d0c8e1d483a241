-- ===== src/Users/Models.antt =====
-- apps/users/models.py.
use saas_backend_api.Prelude.{ℕ, String, Bool, true, false, Option}

pub data UserRole : Type 0 where
  admin staff customer : UserRole

-- A row of `users_user`. `updated_at` is left out of every table: nothing reads it.
pub record User : Type 0 where
  pub id : ℕ
  pub email : String
  pub password : String
  pub first_name : String
  pub last_name : String
  pub role : UserRole
  pub is_active : Bool
  pub is_verified : Bool
  pub is_staff : Bool
  pub is_superuser : Bool
  -- Of the base class.
  pub last_login : Option ℕ
  pub last_login_at : Option ℕ
  pub created_at : ℕ

-- `role in {"admin", "staff"}`
abbrev pub is_staff_or_admin : UserRole → Bool
is_staff_or_admin admin = true
is_staff_or_admin staff = true
is_staff_or_admin customer = false
