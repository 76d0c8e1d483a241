-- ===== src/System/Sessions.antt =====
-- Login, logout and revocation of sessions in apps/authentication keep the tables sound.
use saas_backend_api.Users.Services.{save_user}
use saas_backend_api.System.Accounts.{mark_logged_in-Keeps, save_user-Keeps}
use saas_backend_api.Subscriptions.Models.{Subscription}
use saas_backend_api.Authentication.Tokens.{
  validate, get_token, login, slug_of, issue_refresh, seen,
}
use saas_backend_api.Common.Utils.{Meta}
use saas_backend_api.Authentication.Services.{
  insert_session, logout, revoke, revoke_session, record_session, revoke_found, blacklist_token,
}
use saas_backend_api.Users.Models.{User}
use saas_backend_api.Authentication.Models.{UserSession, revoked}
use saas_backend_api.Prelude.{ℕ, refl, arith, String, Option, none, some, ◌==◌, suc}
use saas_backend_api.Store.{Env, Db}
use saas_backend_api.System.Kept.{is_open}
use saas_backend_api.System.Sound.{keeping, IsSoundAt-mono, Keeps, KeepsFrom, pure-Keeps}
use saas_backend_api.System.Tables.{IsTable-update_where, IsClosed-cons, IsClosed-update_where}

insert_session-KeepsFrom : (e : Env) (r : UserSession) → KeepsFrom r.id (insert_session e r)
insert_session-KeepsFrom e r = record {
  keeps = λ s h lt. ground (
    arith,
    IsSoundAt-mono r.id s.draws s.db,
    λ (c : String). IsClosed-cons (λ r. r.id) (λ r. r.refresh_jti) is_open c r s.db.sessions,
  );
}

-- Revoking keeps a session's key and `jti`; the blacklist has no key.
revoke-Keeps : (e : Env) (id : ℕ) → Keeps (revoke e id)
revoke-Keeps e id = record {
  keeps = λ s h. ground (
    arith,
    IsTable-update_where (λ r. r.id) (λ r. r.refresh_jti) (λ r. r.id == id) (revoked e.now)
        (λ r. refl) (λ r. refl) s.draws s.db.sessions h.sessions,
    λ (c : String).
        IsClosed-update_where (λ r. r.id) (λ r. r.refresh_jti) is_open (λ r. r.id == id)
          (revoked e.now) (λ r. refl) (λ r d. refl) c s.db.sessions,
  );
}

revoke_found-Keeps : (e : Env) (found : Option UserSession) → Keeps (revoke_found e found)
revoke_found-Keeps e none = pure-Keeps tt
revoke_found-Keeps e (some r) = revoke-Keeps e r.id

blacklist-Keeps : (jti : String) → Keeps (blacklist_token jti)
blacklist-Keeps jti = record { keeps = λ s h. ground arith }

pub logout-Keeps : (e : Env) (token : String) → Keeps (logout e token)
unfolding logout
logout-Keeps e token = search (keeping, blacklist-Keeps, revoke_found-Keeps) depth 20

pub revoke_session-Keeps : (e : Env) (user id : ℕ) → Keeps (revoke_session e user id)
unfolding revoke_session
revoke_session-Keeps e user id = search (keeping, revoke-Keeps) depth 20

pub record_session-Keeps :
    (e : Env) (user : ℕ) (jti user_agent : String) (ip_address : Option String)
    → Keeps (record_session e user jti user_agent ip_address)
unfolding record_session
record_session-Keeps e user jti user_agent ip_address =
    search (keeping, insert_session-KeepsFrom) depth 20

slug_of-Keeps : (found : Option Subscription) → Keeps (slug_of found)
slug_of-Keeps none = pure-Keeps "free"
slug_of-Keeps (some sub) = search keeping depth 20

issue_refresh-Keeps : (e : Env) → Keeps (issue_refresh e)
issue_refresh-Keeps e = record {
  keeps = λ s h. ground (arith, IsSoundAt-mono s.draws (suc s.draws) s.db);
}

seen-Keeps : (now id : ℕ) → Keeps (save_user id (seen now))
seen-Keeps now id = save_user-Keeps (seen now) (λ u. refl) (λ u. refl) id

get_token-Keeps : (e : Env) (user : User) → Keeps (get_token e user)
unfolding get_token
get_token-Keeps e user = search (keeping, issue_refresh-Keeps, slug_of-Keeps) depth 20

validate-Keeps : (e : Env) (found : Option User) → Keeps (validate e found)
unfolding validate
validate-Keeps e found = search (keeping, get_token-Keeps, seen-Keeps) depth 20

pub login-Keeps :
    (e : Env) (authenticate : Db → Option User) (meta : Meta) → Keeps (login e authenticate meta)
unfolding login
login-Keeps e authenticate meta =
    search (keeping, validate-Keeps, record_session-Keeps, mark_logged_in-Keeps) depth 20
