-- ===== src/Authentication/Sessions.antt =====
-- `login`, `logout` and `revoke_session` of apps/authentication.
use saas_backend_api.Subscriptions.Selectors.{get_active_subscription, plan_by_id, is_users_active}
use saas_backend_api.Prelude.{
  ℕ, ◌≡◌, ◌≢◌, refl, Bool, true, false, String, Option, none, some, List, [], ◌∷◌, ◌==◌, ◌&&◌,
  arith, str_eq, str_eq_self, eq_iff, first, exists, update_where, ==_self, inl, inr, ◌⊎◌,
  Bool-cases, Option-cases, if◌then◌else◌, first-update_where_hit, map, suc,
}
use saas_backend_api.Common.Errors.{authentication_failed, not_found, conflict, Exc}
use saas_backend_api.Common.Utils.{Meta}
use saas_backend_api.Users.Models.{User}
use saas_backend_api.Store.{Db, Env, State, Result, ok, err, error, error_of}
use saas_backend_api.Authentication.Models.{UserSession, is_null, revoked}
use saas_backend_api.Authentication.Services.{
  is_open_session, is_owned, is_listed, logout, revoke_session,
}
use saas_backend_api.Authentication.Tokens.{get_token, validate, login, seen}

-- Keys fall along the table of sessions, and no two rows have one `jti`.
abbrev pub has_jti : String → UserSession → Bool
has_jti jti r = str_eq r.refresh_jti jti

abbrev pub HasUniqueJtis : List UserSession → Type 0
HasUniqueJtis [] = Unit
HasUniqueJtis (r ∷ rs) = (exists (has_jti r.refresh_jti) rs ≡ false) × HasUniqueJtis rs

none-open :
    (jti : String) (rs : List UserSession)
    → first (is_open_session jti) rs ≡ none
    → exists (is_open_session jti) rs ≡ false
none-open jti [] h = refl
none-open jti (r ∷ rs) h = ground (arith, none-open jti rs)

no_jti-closed :
    (jti : String) (id now : ℕ) (rs : List UserSession)
    → exists (has_jti jti) rs ≡ false
    → exists (is_open_session jti) (update_where (λ r. r.id == id) (revoked now) rs) ≡ false
no_jti-closed jti id now [] h = refl
no_jti-closed jti id now (r ∷ rs) h = ground (arith, no_jti-closed jti id now rs)

revoke-closed :
    (jti : String) (now : ℕ) (rs : List UserSession) (r : UserSession)
    → HasUniqueJtis rs
    → first (is_open_session jti) rs ≡ some r
    → exists (is_open_session jti) (update_where (λ x. x.id == r.id) (revoked now) rs) ≡ false
revoke-closed jti now [] r h e = ground arith
revoke-closed jti now (x ∷ rs) r (one, rest) e = ground (
  arith,
  eq_iff x.refresh_jti jti,
  no_jti-closed jti x.id now rs,
  revoke-closed jti now rs r rest,
)

-- A good refresh token, not blacklisted yet, is accepted by `logout` once: its `jti` is
-- blacklisted, no session with it is open afterwards, and a second logout with it is refused with a
-- 401 that changes nothing. No two sessions have one `jti`.
pub logout-once :
    (e : Env) (token jti : String) (s : State)
    → HasUniqueJtis s.db.sessions
    → e.decode_refresh token ≡ some jti
    → is_listed jti s.db.blacklist ≡ false
    → let (r, s') = logout e token s in
      (r ≡ ok tt)
      × (is_listed jti s'.db.blacklist ≡ true)
      × (exists (is_open_session jti) s'.db.sessions ≡ false)
      × (logout e token s' ≡ (
        err (error authentication_failed "Invalid refresh token." "invalid_refresh_token"),
        s',
      ))
unfolding logout
logout-once e token jti s unique good fresh =
    elim (Option-cases (first (is_open_session jti) s.db.sessions)) [
      | inl nothing ↦ (
        ground (arith, good, fresh, nothing),
        ground (arith, good, fresh, nothing, str_eq_self jti),
        ground (arith, good, fresh, nothing, none-open jti s.db.sessions nothing),
        ground (arith, good, fresh, nothing, str_eq_self jti),
      )
      | inr (r, found) ↦ (
        ground (arith, good, fresh, found),
        ground (arith, good, fresh, found, str_eq_self jti),
        ground (arith, good, fresh, found, revoke-closed jti e.now s.db.sessions r unique found),
        ground (arith, good, fresh, found, str_eq_self jti),
      )
    ]

-- What `revoke_session` answers for the session that the user owns under the key, if there is one.
abbrev pub revoke_answer : Option UserSession → Result (Unit {0})
revoke_answer none = err (error not_found "Session not found." "session_not_found")
revoke_answer (some r) =
    if is_null r.revoked_at
    then ok tt
    else err (error conflict "Session already revoked." "already_revoked")

-- A user revokes a session only of their own, and once: another's or an unknown key answers 404 and
-- a revoked one 409, both without a change. After a success the session is found as revoked, and a
-- second revocation answers 409.
pub revoke_session-once :
    (e : Env) (user id : ℕ) (s : State)
    → let found = first (is_owned user id) s.db.sessions in
      let (r, s') = revoke_session e user id s in
      (r ≡ revoke_answer found)
      × (((error_of r ≢ none) × (s' ≡ s))
          ⊎ (revoke_session e user id s'
              ≡ (err (error conflict "Session already revoked." "already_revoked"), s')))
unfolding revoke_session
revoke_session-once e user id s = elim (Option-cases (first (is_owned user id) s.db.sessions)) [
  | inl nothing ↦ ground (arith, nothing)
  | inr (r, found) ↦ elim (Bool-cases (is_null r.revoked_at)) [
    | inl open_one ↦ (
      ground (arith, found, open_one),
      inr (
          ground (
            arith,
            found,
            open_one,
            first-update_where_hit (is_owned user id) (λ x. x.id == r.id) (revoked e.now)
                (λ y. refl) s.db.sessions r found (==_self r.id),
          )),
    )
    | inr closed ↦ ground (arith, found, closed)
  ]
]

-- A user less the time of the last login that the framework keeps.
abbrev pub unseen : User → User
unseen u = record u { last_login = none }

map-seen :
    (now id : ℕ) (us : List User)
    → map unseen (update_where (λ u. u.id == id) (seen now) us) ≡ map unseen us
map-seen now id [] = refl
map-seen now id (u ∷ us) = ground (arith, map-seen now id us)

-- The state once a refresh token was issued.
abbrev issued_refresh : Env → State → State
issued_refresh e s = record s {
  draws = suc s.draws;
  db = record s.db { outstanding = e.jti s.draws ∷ s.db.outstanding };
}

get_token-state : (e : Env) (u : User) (s : State) → (get_token e u s).1 ≡ issued_refresh e s
unfolding get_token get_active_subscription
get_token-state e u s = elim (Option-cases (first (is_users_active u.id) s.db.subscriptions)) [
  | inl free ↦ ground (arith, free)
  | inr (sub, there) ↦ elim (Option-cases (plan_by_id sub.plan s.db)) [
    | inl lost ↦ ground (arith, there, lost)
    | inr (plan, priced) ↦ ground (arith, there, priced)
  ]
]

Result-cases : {A : Type 0} (r : Result A) → ((x : Exc) × (r ≡ err x)) ⊎ ((a : A) × (r ≡ ok a))
Result-cases (ok a) = inr (a, refl)
Result-cases (err x) = inl (x, refl)

-- A login whose credentials are those of a user that is not active, or not verified, raises an
-- error: no session row and no `last_login_at` is written. All that changes in the tables is what
-- the base class writes before the checks: the framework's `last_login` of users, and the list of
-- the refresh tokens that were issued.
pub login-gate :
    (e : Env) (authenticate : Db → Option User) (meta : Meta) (u : User) (s : State)
    → authenticate s.db ≡ some u
    → (u.is_active && u.is_verified) ≡ false
    → let (r, s') = login e authenticate meta s in
      (error_of r ≢ none)
      × (s'.db ≡ record s.db { users = s'.db.users; outstanding = s'.db.outstanding })
      × (map unseen s'.db.users ≡ map unseen s.db.users)
unfolding login validate
login-gate e authenticate meta u s found shut = elim (Result-cases (get_token e u s).0) [
  | inl (x, failed) ↦ ground (arith, found, failed, get_token-state e u s)
  | inr (claims, given) ↦
      ground (arith, found, given, get_token-state e u s, map-seen e.now u.id s.db.users)
]
