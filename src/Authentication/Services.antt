-- ===== src/Authentication/Services.antt =====
-- apps/authentication/services.py.
use saas_backend_api.Prelude.{
  ℕ, String, Bool, true, not, Option, none, some, List, ◌∷◌, ◌==◌, ◌&&◌, if◌then◌else◌, str_eq,
  first, exists, update_where,
}
use saas_backend_api.Common.Errors.{
  not_found, conflict, authentication_failed, validation_error, integrity_error, does_not_exist,
  data_error,
}
use saas_backend_api.Common.Utils.{generate_secure_token, hash_token, take_text, is_address}
use saas_backend_api.Users.Models.{User, customer}
use saas_backend_api.Users.Selectors.{get_user_by_email, user_by_id}
use saas_backend_api.Users.Services.{create_user, save_user, with_password}
use saas_backend_api.Store.{
  Db, Env, Action, pure, gets, or_raise, atomic, ◌>>=◌, ◌>>◌, raise_if, modify, draw, delay,
  verification, password_reset, error,
}
use saas_backend_api.Authentication.Models.{
  Token, is_null, is_valid, consumed, verification_expiry, reset_expiry, UserSession, revoked,
}

-- The two tables of tokens.
pub data Kind : Type 0 where
  verifying resetting : Kind

abbrev pub tokens : Kind → Db → List Token
tokens verifying db = db.verification_tokens
tokens resetting db = db.reset_tokens

abbrev pub with_tokens : Kind → List Token → Db → Db
with_tokens verifying ts db = record db { verification_tokens = ts }
with_tokens resetting ts db = record db { reset_tokens = ts }

abbrev pub has_hash : String → Token → Bool
has_hash hash t = str_eq t.token_hash hash

-- `objects.create` of a token: the hash is unique.
abbrev pub insert_token : Kind → Token → Action (Unit {0})
insert_token kind t = do
  taken ← gets (λ db. exists (has_hash t.token_hash) (tokens kind db))
  raise_if taken integrity_error
  modify (λ db. with_tokens kind (t ∷ tokens kind db) db)

abbrev pub update_tokens : Kind → (Token → Bool) → (Token → Token) → Action (Unit {0})
update_tokens kind p f = modify (λ db. with_tokens kind (update_where p f (tokens kind db)) db)

-- `filter(token_hash=hash).first()`
abbrev pub token_by_hash : Kind → String → Db → Option Token
token_by_hash kind hash db = first (has_hash hash) (tokens kind db)

-- The user behind a foreign key.
abbrev pub user_of : ℕ → Action User
user_of id = do or_raise (← gets (user_by_id id)) does_not_exist

-- The row of a new token.
abbrev pub new_token : Env → ℕ → ℕ → String → ℕ → Token
new_token e id user plaintext expires_at = record {
  id = id;
  user = user;
  token_hash = hash_token e plaintext;
  expires_at = expires_at;
  used_at = none;
}

unfoldable pub issue_verification_token : Env → User → Action String
issue_verification_token e user = do
  plaintext ← generate_secure_token e
  id ← draw
  insert_token verifying (new_token e id user.id plaintext (verification_expiry e.now))
  delay (record { kind = verification; user_id = user.id; token = plaintext })
  pure plaintext

unfoldable pub register_user : Env → String → String → String → String → Action User
register_user e email password first_name last_name = atomic do
  user ← create_user e email password first_name last_name customer
  issue_verification_token e user
  pure user

-- `not token_obj or not token_obj.is_valid()`
abbrev pub usable : ℕ → Option Token → Option Token
usable now none = none
usable now (some t) = if is_valid now t then some t else none

abbrev pub has_key : ℕ → Token → Bool
has_key id t = t.id == id

abbrev pub verified : User → User
verified u = record u { is_verified = true }

abbrev pub verify_user : User → Action (Unit {0})
verify_user user = if not user.is_verified then save_user user.id verified else pure tt

unfoldable pub verify_email : Env → String → Action User
verify_email e token = do
  found ← gets (token_by_hash verifying (hash_token e token))
  t ←
      or_raise (usable e.now found)
        (error validation_error "Invalid or expired verification token." "invalid_token")
  user ← user_of t.user
  atomic (update_tokens verifying (has_key t.id) (consumed e.now) >> verify_user user)
  pure (verified user)

abbrev pub resend_to : Env → Option User → Action (Unit {0})
resend_to e none = pure tt
resend_to e (some user) =
    if user.is_verified then pure tt else issue_verification_token e user >> pure tt

unfoldable pub resend_verification : Env → String → Action (Unit {0})
resend_verification e email = do found ← gets (get_user_by_email e email); resend_to e found

abbrev pub issue_reset_token : Env → User → Action (Unit {0})
issue_reset_token e user = do
  plaintext ← generate_secure_token e
  id ← draw
  insert_token resetting (new_token e id user.id plaintext (reset_expiry e.now))
  delay (record { kind = password_reset; user_id = user.id; token = plaintext })

abbrev pub reset_for : Env → Option User → Action (Unit {0})
reset_for e none = pure tt
reset_for e (some user) = if not user.is_active then pure tt else issue_reset_token e user

unfoldable pub request_password_reset : Env → String → Action (Unit {0})
request_password_reset e email = do found ← gets (get_user_by_email e email); reset_for e found

-- `filter(user=user, used_at__isnull=True).exclude(id=id)`
abbrev pub is_outstanding : ℕ → ℕ → Token → Bool
is_outstanding user id t = t.user == user && is_null t.used_at && not (t.id == id)

unfoldable pub confirm_password_reset : Env → String → String → Action User
confirm_password_reset e token new_password = atomic do
  found ← gets (token_by_hash resetting (hash_token e token))
  t ←
      or_raise (usable e.now found)
        (error validation_error "Invalid or expired reset token." "invalid_token")
  user ← user_of t.user
  salt ← draw
  save_user user.id (with_password e salt new_password)
  update_tokens resetting (has_key t.id) (consumed e.now)
  update_tokens resetting (is_outstanding user.id t.id) (consumed e.now)
  pure (with_password e salt new_password user)

-- `UserSession.objects.create`: the address has to be one, and the `jti` is unique.
abbrev pub insert_session : Env → UserSession → Action (Unit {0})
insert_session e session = do
  raise_if (not (is_address e session.ip_address)) data_error
  taken ← gets (λ db. exists (λ r. str_eq r.refresh_jti session.refresh_jti) db.sessions)
  raise_if taken integrity_error
  modify (λ db. record db { sessions = session ∷ db.sessions })

unfoldable pub record_session : Env → ℕ → String → String → Option String → Action (Unit {0})
record_session e user jti user_agent ip_address = do
  id ← draw
  insert_session e (record {
    id = id;
    user = user;
    refresh_jti = jti;
    user_agent = take_text 512 user_agent;
    ip_address = ip_address;
    revoked_at = none;
    last_seen_at = e.now;
    created_at = e.now;
  })

abbrev pub is_listed : String → List String → Bool
is_listed jti listed = exists (λ j. str_eq j jti) listed

-- `RefreshToken(text)`: its `jti`, if the signature and the dates are good and it is not
-- blacklisted; otherwise a `TokenError`.
abbrev pub refresh_token : Env → String → Db → Option String
refresh_token e text db = elim (e.decode_refresh text) [
  | none ↦ none
  | some jti ↦ if is_listed jti db.blacklist then none else some jti
]

-- `session.revoke()`
abbrev pub revoke : Env → ℕ → Action (Unit {0})
revoke e id =
    modify
      (λ db. record db { sessions = update_where (λ r. r.id == id) (revoked e.now) db.sessions })

abbrev pub revoke_found : Env → Option UserSession → Action (Unit {0})
revoke_found e none = pure tt
revoke_found e (some session) = revoke e session.id

abbrev pub is_open_session : String → UserSession → Bool
is_open_session jti r = str_eq r.refresh_jti jti && is_null r.revoked_at

-- `token.blacklist()` of the library: a token that it did not issue becomes outstanding as well.
abbrev pub blacklist_token : String → Action (Unit {0})
blacklist_token jti = modify (λ db. record db {
  blacklist = jti ∷ db.blacklist;
  outstanding = if is_listed jti db.outstanding then db.outstanding else jti ∷ db.outstanding;
})

unfoldable pub logout : Env → String → Action (Unit {0})
logout e text = do
  token ← gets (refresh_token e text)
  jti ←
      or_raise token (error authentication_failed "Invalid refresh token." "invalid_refresh_token")
  blacklist_token jti
  session ← gets (λ db. first (is_open_session jti) db.sessions)
  revoke_found e session

abbrev pub is_owned : ℕ → ℕ → UserSession → Bool
is_owned user id r = r.id == id && r.user == user

unfoldable pub revoke_session : Env → ℕ → ℕ → Action (Unit {0})
revoke_session e user session_id = do
  found ← gets (λ db. first (is_owned user session_id) db.sessions)
  session ← or_raise found (error not_found "Session not found." "session_not_found")
  raise_if (not (is_null session.revoked_at))
      (error conflict "Session already revoked." "already_revoked")
  revoke e session.id
