-- ===== src/Authentication/OneShot.antt =====
-- `verify_email` and `confirm_password_reset` of apps/authentication/services.py, and the rows that
-- they write.
use saas_backend_api.Prelude.{
  ℕ, suc, ◌≡◌, refl, Bool, true, false, String, some, List, [], ◌∷◌, ◌==◌, ◌&&◌, arith, first,
  exists, update_where, ==_self, inl, inr, Bool-cases, ap, ◌∙◌, first-update_where_hit,
  first-update_where_miss, if◌then◌else◌, first-holds,
}
use saas_backend_api.Common.Errors.{validation_error}
use saas_backend_api.Common.Utils.{hash_token}
use saas_backend_api.Users.Models.{User}
use saas_backend_api.Users.Selectors.{user_by_id}
use saas_backend_api.Users.Services.{with_password}
use saas_backend_api.Store.{Env, State, ok, err, error}
use saas_backend_api.Authentication.Models.{Token, is_null, is_valid, consumed}
use saas_backend_api.Authentication.Services.{
  verifying, resetting, token_by_hash, has_hash, has_key, verified, verify_email, is_outstanding,
  confirm_password_reset,
}

-- The rows after the token `t` was consumed.
abbrev pub consume : ℕ → ℕ → List Token → List Token
consume now id ts = update_where (has_key id) (consumed now) ts

-- The token of a hash is found as consumed afterwards.
first-consume :
    (now : ℕ) (hash : String) (ts : List Token) (t : Token)
    → first (has_hash hash) ts ≡ some t
    → first (has_hash hash) (consume now t.id ts) ≡ some (consumed now t)
first-consume now hash ts t h =
    first-update_where_hit (has_hash hash) (has_key t.id) (consumed now) (λ y. refl) ts t h
      (==_self t.id)

user-saved :
    (id : ℕ) (f : User → User) (keeps : (y : User) → ((f y).id == id) ≡ (y.id == id))
    (us : List User) (u : User)
    → first (λ v. v.id == id) us ≡ some u
    → first (λ v. v.id == id) (update_where (λ v. v.id == u.id) f us) ≡ some (f u)
user-saved id f keeps us u h =
    first-update_where_hit (λ v. v.id == id) (λ v. v.id == u.id) f keeps us u h (==_self u.id)

-- The tables and the user after `verify_email`.
abbrev pub after_verify : Env → Token → User → State → State
after_verify e t u s = record s {
  db = record s.db {
    verification_tokens = consume e.now t.id s.db.verification_tokens;
    users =
        if u.is_verified then s.db.users else update_where (λ v. v.id == u.id) verified s.db.users;
  };
}

pub verify_email-used :
    (e : Env) (token : String) (t : Token) (s : State)
    → token_by_hash verifying (hash_token e token) s.db ≡ some t
    → is_null t.used_at ≡ false
    → verify_email e token s
      ≡ (err (error validation_error "Invalid or expired verification token." "invalid_token"), s)
unfolding verify_email
verify_email-used e token t s found used = ground (arith, found, used)

pub confirm-used :
    (e : Env) (token password : String) (t : Token) (s : State)
    → token_by_hash resetting (hash_token e token) s.db ≡ some t
    → is_null t.used_at ≡ false
    → confirm_password_reset e token password s
      ≡ (err (error validation_error "Invalid or expired reset token." "invalid_token"), s)
unfolding confirm_password_reset
confirm-used e token password t s found used = ground (arith, found, used)

pub verify_email_lem :
    (e : Env) (token : String) (t : Token) (u : User) (s : State)
    → token_by_hash verifying (hash_token e token) s.db ≡ some t
    → is_valid e.now t ≡ true
    → user_by_id t.user s.db ≡ some u
    → verify_email e token s ≡ (ok (verified u), after_verify e t u s)
unfolding verify_email
verify_email_lem e token t u s found valid owner = elim (Bool-cases u.is_verified) [
  | inl old ↦ ground (arith, found, valid, owner)
  | inr new ↦ ground (arith, found, valid, owner)
]

saved-verified :
    (id : ℕ) (us : List User) (u : User)
    → first (λ v. v.id == id) us ≡ some u
    → (v : User) × (first
          (λ w. w.id == id)
          (if u.is_verified then us else update_where (λ w. w.id == u.id) verified us)
        ≡ some v)
      × (v.is_verified ≡ true)
saved-verified id us u h =
    let found = λ (b : Bool).
      first (λ w. w.id == id) (if b then us else update_where (λ w. w.id == u.id) verified us) in
    elim (Bool-cases u.is_verified) [
      | inl old ↦ (u, ap found old ∙ h, old)
      | inr new ↦ (verified u, ap found new ∙ user-saved id verified (λ v. refl) us u h, refl)
    ]

-- A valid token of a user in the table verifies this user, who is found as verified afterwards; the
-- same token is then refused as invalid, and that changes nothing.
pub verify_email-once :
    (e : Env) (token : String) (t : Token) (u : User) (s : State)
    → token_by_hash verifying (hash_token e token) s.db ≡ some t
    → is_valid e.now t ≡ true
    → user_by_id t.user s.db ≡ some u
    → let (r, s') = verify_email e token s in
      (r ≡ ok (verified u))
      × ((v : User) × (user_by_id t.user s'.db ≡ some v) × (v.is_verified ≡ true))
      × (verify_email e token s' ≡ (
        err (error validation_error "Invalid or expired verification token." "invalid_token"),
        s',
      ))
verify_email-once e token t u s found valid owner =
    rw (verify_email_lem e token t u s found valid owner) (
      refl,
      saved-verified t.user s.db.users u owner,
      verify_email-used e token (consumed e.now t) (after_verify e t u s)
          (first-consume e.now (hash_token e token) s.db.verification_tokens t found) refl,
    )

-- The rows after a password reset: the token is consumed, and then the user's other open ones.
abbrev pub reset_rows : ℕ → ℕ → ℕ → List Token → List Token
reset_rows now user id ts = update_where (is_outstanding user id) (consumed now) (consume now id ts)

abbrev pub after_reset : Env → String → Token → User → State → State
after_reset e password t u s = record s {
  draws = suc s.draws;
  db = record s.db {
    users = update_where (λ v. v.id == u.id) (with_password e s.draws password) s.db.users;
    reset_tokens = reset_rows e.now u.id t.id s.db.reset_tokens;
  };
}

-- A reset token of the user that was not used.
abbrev pub is_open : ℕ → Token → Bool
is_open user t = t.user == user && is_null t.used_at

reset_rows-closed :
    (now user id : ℕ) (ts : List Token) → exists (is_open user) (reset_rows now user id ts) ≡ false
reset_rows-closed now user id [] = refl
reset_rows-closed now user id (t ∷ ts) = ground (arith, reset_rows-closed now user id ts)

pub confirm_lem :
    (e : Env) (token password : String) (t : Token) (u : User) (s : State)
    → token_by_hash resetting (hash_token e token) s.db ≡ some t
    → is_valid e.now t ≡ true
    → user_by_id t.user s.db ≡ some u
    → confirm_password_reset e token password s
      ≡ (ok (with_password e s.draws password u), after_reset e password t u s)
unfolding confirm_password_reset
confirm_lem e token password t u s found valid owner = ground (arith, found, valid, owner)

-- A valid reset token sets the password of its user's row to the hash of the new one. Afterwards no
-- reset token of that user is open, the other ones included, and the same token is refused as
-- invalid, with the tables as they are.
pub confirm_password_reset-once :
    (e : Env) (token password again : String) (t : Token) (u : User) (s : State)
    → token_by_hash resetting (hash_token e token) s.db ≡ some t
    → is_valid e.now t ≡ true
    → user_by_id t.user s.db ≡ some u
    → let (r, s') = confirm_password_reset e token password s in
      (r ≡ ok (with_password e s.draws password u))
      × (user_by_id t.user s'.db ≡ some (with_password e s.draws password u))
      × (exists (is_open t.user) s'.db.reset_tokens ≡ false)
      × (confirm_password_reset e token again s'
          ≡ (err (error validation_error "Invalid or expired reset token." "invalid_token"), s'))
confirm_password_reset-once e token password again t u s found valid owner =
    let same : u.id ≡ t.user =
      ground (arith, first-holds (λ v. v.id == t.user) s.db.users u owner) in
    rw (confirm_lem e token password t u s found valid owner) (
      refl,
      (user-saved t.user (with_password e s.draws password) (λ v. refl) s.db.users u owner),
      rw same (reset_rows-closed e.now t.user t.id s.db.reset_tokens),
      confirm-used e token again (consumed e.now t) (after_reset e password t u s)
          (first-update_where_miss (has_hash (hash_token e token)) (is_outstanding u.id t.id)
            (consumed e.now) (λ y. refl) (consume e.now t.id s.db.reset_tokens) (consumed e.now t)
            (first-consume e.now (hash_token e token) s.db.reset_tokens t found) (ground arith))
          refl,
    )
