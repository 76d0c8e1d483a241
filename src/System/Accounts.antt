-- ===== src/System/Accounts.antt =====
-- The services of apps/users and apps/authentication keep the tables sound.
use saas_backend_api.Common.Utils.{generate_secure_token}
use saas_backend_api.Users.Services.{
  insert_user, save_user, manager_create, manager_create_user, update_profile, with_password,
  mark_logged_in, change_password, create_user, manager_create_superuser, with_names, Extra,
  logged_in,
}
use saas_backend_api.Authentication.Services.{
  Kind, insert_token, update_tokens, register_user, issue_verification_token, verified, user_of,
  verify_email, resend_verification, confirm_password_reset, resend_to, reset_for,
  request_password_reset,
}
use saas_backend_api.Users.Models.{User, UserRole}
use saas_backend_api.Authentication.Models.{Token, consumed}
use saas_backend_api.Prelude.{ℕ, ◌≡◌, refl, arith, String, Option, none, some, Bool, ◌==◌}
use saas_backend_api.Authentication.Services.{verifying, resetting}
use saas_backend_api.Store.{Env}
use saas_backend_api.System.Kept.{is_unused}
use saas_backend_api.System.Sound.{keeping, IsSoundAt-mono, Keeps, KeepsFrom, pure-Keeps}
use saas_backend_api.System.Tables.{IsTable-update_where, IsClosed-cons, IsClosed-update_where}
use saas_backend_api.System.Billing.{enroll_in_free_plan-Keeps}

insert_user-KeepsFrom : (user : User) → KeepsFrom user.id (insert_user user)
insert_user-KeepsFrom user = record {
  keeps = λ s h lt. ground (arith, IsSoundAt-mono user.id s.draws s.db);
}

insert_token-KeepsFrom : (kind : Kind) (t : Token) → KeepsFrom t.id (insert_token kind t)
insert_token-KeepsFrom verifying t = record {
  keeps = λ s h lt. ground (
    arith,
    IsSoundAt-mono t.id s.draws s.db,
    λ (c : String).
        IsClosed-cons (λ t. t.id) (λ t. t.token_hash) is_unused c t s.db.verification_tokens,
  );
}
insert_token-KeepsFrom resetting t = record {
  keeps = λ s h lt. ground (
    arith,
    IsSoundAt-mono t.id s.draws s.db,
    λ (c : String). IsClosed-cons (λ t. t.id) (λ t. t.token_hash) is_unused c t s.db.reset_tokens,
  );
}

-- A write to a user that keeps the key and the address.
module _ (f : User → User) (same_id : (u : User) → (f u).id ≡ u.id)
    (same_email : (u : User) → (f u).email ≡ u.email) where
  pub save_user-Keeps : (id : ℕ) → Keeps (save_user id f)
  save_user-Keeps id = record {
    keeps = λ s h. ground (
      arith,
      IsTable-update_where (λ u. u.id) (λ u. u.email) (λ u. u.id == id) f same_id same_email s.draws
          s.db.users h.users,
    );
  }

consumed-Keeps :
    (kind : Kind) (p : Token → Bool) (now : ℕ) → Keeps (update_tokens kind p (consumed now))
consumed-Keeps verifying p now = record {
  keeps = λ s h. ground (
    arith,
    IsTable-update_where (λ t. t.id) (λ t. t.token_hash) p (consumed now) (λ t. refl) (λ t. refl)
        s.draws s.db.verification_tokens h.verifications,
    λ (c : String).
        IsClosed-update_where (λ t. t.id) (λ t. t.token_hash) is_unused p (consumed now) (λ t. refl)
          (λ t d. refl) c s.db.verification_tokens,
  );
}
consumed-Keeps resetting p now = record {
  keeps = λ s h. ground (
    arith,
    IsTable-update_where (λ t. t.id) (λ t. t.token_hash) p (consumed now) (λ t. refl) (λ t. refl)
        s.draws s.db.reset_tokens h.resets,
    λ (c : String).
        IsClosed-update_where (λ t. t.id) (λ t. t.token_hash) is_unused p (consumed now) (λ t. refl)
          (λ t d. refl) c s.db.reset_tokens,
  );
}

manager_create-Keeps :
    (e : Env) (email password : String) (extra : Extra)
    → Keeps (manager_create e email password extra)
unfolding manager_create
manager_create-Keeps e email password extra = search (keeping, insert_user-KeepsFrom) depth 20

pub manager_create_user-Keeps :
    (e : Env) (email password : String) (extra : Extra)
    → Keeps (manager_create_user e email password extra)
unfolding manager_create_user
manager_create_user-Keeps e email password extra = manager_create-Keeps e email password _

pub manager_create_superuser-Keeps :
    (e : Env) (email password : String) (extra : Extra)
    → Keeps (manager_create_superuser e email password extra)
unfolding manager_create_superuser
manager_create_superuser-Keeps e email password extra =
    search (keeping, manager_create-Keeps) depth 20

pub create_user-Keeps :
    (e : Env) (email password first_name last_name : String) (role : UserRole)
    → Keeps (create_user e email password first_name last_name role)
unfolding create_user
create_user-Keeps e email password first_name last_name role =
    search (keeping, manager_create_user-Keeps, enroll_in_free_plan-Keeps) depth 20

pub update_profile-Keeps :
    (user : User) (first_name last_name : Option String)
    → Keeps (update_profile user first_name last_name)
unfolding update_profile
update_profile-Keeps user first_name last_name =
    search (keeping, save_user-Keeps (with_names first_name last_name) (λ u. refl) (λ u. refl))
      depth 20

with_password-Keeps :
    (e : Env) (salt : ℕ) (raw : String) (id : ℕ) → Keeps (save_user id (with_password e salt raw))
with_password-Keeps e salt raw = save_user-Keeps (with_password e salt raw) (λ u. refl) (λ u. refl)

pub change_password-Keeps :
    (e : Env) (user : User) (current new : String) → Keeps (change_password e user current new)
unfolding change_password
change_password-Keeps e user current new = search (keeping, with_password-Keeps) depth 20

pub mark_logged_in-Keeps : (e : Env) (user : User) → Keeps (mark_logged_in e user)
unfolding mark_logged_in
mark_logged_in-Keeps e user = save_user-Keeps (logged_in e.now) (λ u. refl) (λ u. refl) user.id

verified-Keeps : (id : ℕ) → Keeps (save_user id verified)
verified-Keeps = save_user-Keeps verified (λ u. refl) (λ u. refl)

pub issue_verification_token-Keeps :
    (e : Env) (user : User) → Keeps (issue_verification_token e user)
unfolding issue_verification_token generate_secure_token
issue_verification_token-Keeps e user = search (keeping, insert_token-KeepsFrom) depth 20

pub register_user-Keeps :
    (e : Env) (email password first_name last_name : String)
    → Keeps (register_user e email password first_name last_name)
unfolding register_user
register_user-Keeps e email password first_name last_name =
    search (keeping, create_user-Keeps, issue_verification_token-Keeps) depth 20

user_of-Keeps : (id : ℕ) → Keeps (user_of id)
user_of-Keeps id = search keeping

pub verify_email-Keeps : (e : Env) (token : String) → Keeps (verify_email e token)
unfolding verify_email
verify_email-Keeps e token =
    search (keeping, user_of-Keeps, consumed-Keeps, verified-Keeps) depth 20

resend_to-Keeps : (e : Env) (found : Option User) → Keeps (resend_to e found)
resend_to-Keeps e none = pure-Keeps tt
resend_to-Keeps e (some user) = search (keeping, issue_verification_token-Keeps) depth 20

pub resend_verification-Keeps : (e : Env) (email : String) → Keeps (resend_verification e email)
unfolding resend_verification
resend_verification-Keeps e email = search (keeping, resend_to-Keeps) depth 20

reset_for-Keeps : (e : Env) (found : Option User) → Keeps (reset_for e found)
unfolding generate_secure_token
reset_for-Keeps e none = pure-Keeps tt
reset_for-Keeps e (some user) = search (keeping, insert_token-KeepsFrom) depth 20

pub request_password_reset-Keeps :
    (e : Env) (email : String) → Keeps (request_password_reset e email)
unfolding request_password_reset
request_password_reset-Keeps e email = search (keeping, reset_for-Keeps) depth 20

pub confirm_password_reset-Keeps :
    (e : Env) (token new_password : String) → Keeps (confirm_password_reset e token new_password)
unfolding confirm_password_reset
confirm_password_reset-Keeps e token new_password =
    search (keeping, user_of-Keeps, with_password-Keeps, consumed-Keeps) depth 20
