-- ===== src/Users/Selectors.antt =====
-- apps/users/selectors.py.
use saas_backend_api.Prelude.{ℕ, String, Option, ◌==◌, ◌&&◌, first}
use saas_backend_api.Users.Models.{User}
use saas_backend_api.Store.{Db, Env}

-- `filter(email__iexact=email.strip())`
unfoldable pub get_user_by_email : Env → String → Db → Option User
get_user_by_email e email db = first (λ u. e.iexact u.email (e.strip email)) db.users

unfoldable pub get_active_user_by_id : ℕ → Db → Option User
get_active_user_by_id id db = first (λ u. u.id == id && u.is_active) db.users

-- The row behind a foreign key to a user.
abbrev pub user_by_id : ℕ → Db → Option User
user_by_id id db = first (λ u. u.id == id) db.users
