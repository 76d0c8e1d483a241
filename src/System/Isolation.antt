-- ===== src/System/Isolation.antt =====
-- The rows of the other users under what one user does.
use saas_backend_api.Common.Utils.{generate_secure_token}
use saas_backend_api.Users.Services.{save_user}
use saas_backend_api.Users.Models.{User}
use saas_backend_api.Prelude.{
  ℕ, ◌≡◌, ◌≢◌, refl, String, List, [], ◌∷◌, ◌==◌, arith, first, select, update_where, Option-cases,
  inl, inr, first-holds, some,
}
use saas_backend_api.Store.{Db, State, Env}
use saas_backend_api.Subscriptions.Selectors.{get_active_subscription, is_users_active}
use saas_backend_api.Subscriptions.Services.{
  create_subscription, enroll_in_free_plan, replaced, canceled_now, subscribe, cancel,
  record_request, current_or_rotate_quota,
}
use saas_backend_api.ApiKeys.Models.{revoked}
use saas_backend_api.ApiKeys.Services.{create_api_key, revoke_api_key, rotate_api_key, is_owned_key}
use saas_backend_api.Authentication.Services.{
  logout, refresh_token, is_open_session, revoke_session, is_owned, issue_verification_token,
}
use saas_backend_api.Authentication.Models.{UserSession, revoked as ended}
use saas_backend_api.System.Sound.{IsSound}
use saas_backend_api.Users.Services.{change_password, with_password}
use saas_backend_api.System.Owned.{select-update_where_ne, select-subscription_ne}

-- The rows of the user `v` are the same: the account, keys, sessions, subscriptions and tokens.
abbrev pub IsApart : ℕ → Db → Db → Type 0
IsApart v db db' =
    (select (λ u. u.id == v) db'.users ≡ select (λ u. u.id == v) db.users)
    × (select (λ k. k.user == v) db'.api_keys ≡ select (λ k. k.user == v) db.api_keys)
    × (select (λ r. r.user == v) db'.sessions ≡ select (λ r. r.user == v) db.sessions)
    × (select (λ s. s.user == v) db'.subscriptions ≡ select (λ s. s.user == v) db.subscriptions)
    × (select (λ t. t.user == v) db'.verification_tokens
        ≡ select (λ t. t.user == v) db.verification_tokens)
    × (select (λ t. t.user == v) db'.reset_tokens ≡ select (λ t. t.user == v) db.reset_tokens)

module _ (u v : ℕ) (ne : u ≢ v) where
  pub create_api_key-IsApart :
      (e : Env) (name : String) (s : State) → IsApart v s.db (create_api_key e u name s).1.db
  unfolding create_api_key
  create_api_key-IsApart e name s = elim (Option-cases (get_active_subscription u s.db)) [
    | inl absent ↦ ground (arith, absent)
    | inr (sub, there) ↦ ground (arith, there)
  ]

  pub enroll-IsApart : (e : Env) (s : State) → IsApart v s.db (enroll_in_free_plan e u s).1.db
  unfolding enroll_in_free_plan create_subscription
  enroll-IsApart e s = ground arith

  pub revoke_api_key-IsApart :
      (e : Env) (id : ℕ) (s : State) → IsSound s → IsApart v s.db (revoke_api_key e u id s).1.db
  unfolding revoke_api_key
  revoke_api_key-IsApart e id s h = elim (Option-cases (first (is_owned_key u id) s.db.api_keys)) [
    | inl absent ↦ ground (arith, absent)
    | inr (k, found) ↦
        let own : k.user ≡ u =
          ground (arith, first-holds (is_owned_key u id) s.db.api_keys k found) in
        ground (
          arith,
          found,
          own,
          select-update_where_ne (λ k. k.id) (λ k. k.key_hash) (λ k. k.user) (revoked e.now)
              (is_owned_key u id) v s.draws s.db.api_keys k h.keys found,
        )
  ]

  pub revoke_session-IsApart :
      (e : Env) (id : ℕ) (s : State) → IsSound s → IsApart v s.db (revoke_session e u id s).1.db
  unfolding revoke_session
  revoke_session-IsApart e id s h = elim (Option-cases (first (is_owned u id) s.db.sessions)) [
    | inl absent ↦ ground (arith, absent)
    | inr (r, found) ↦
        let own : r.user ≡ u = ground (arith, first-holds (is_owned u id) s.db.sessions r found) in
        ground (
          arith,
          found,
          own,
          select-update_where_ne (λ r. r.id) (λ r. r.refresh_jti) (λ r. r.user) (ended e.now)
              (is_owned u id) v s.draws s.db.sessions r h.sessions found,
        )
  ]

  -- A logout with the refresh token of an open session of `u`.
  pub logout-IsApart :
      (e : Env) (token jti : String) (r : UserSession) (s : State)
      → IsSound s
      → refresh_token e token s.db ≡ some jti
      → first (is_open_session jti) s.db.sessions ≡ some r
      → r.user ≡ u
      → IsApart v s.db (logout e token s).1.db
  unfolding logout
  logout-IsApart e token jti r s h good found own = ground (
    arith,
    good,
    found,
    own,
    select-update_where_ne (λ x. x.id) (λ x. x.refresh_jti) (λ x. x.user) (ended e.now)
        (is_open_session jti) v s.draws s.db.sessions r h.sessions found,
  )

  pub rotate_api_key-IsApart :
      (e : Env) (id : ℕ) (s : State) → IsSound s → IsApart v s.db (rotate_api_key e u id s).1.db
  unfolding rotate_api_key create_api_key get_active_subscription
  rotate_api_key-IsApart e id s h = elim (Option-cases (first (is_owned_key u id) s.db.api_keys)) [
    | inl absent ↦ ground (arith, absent)
    | inr (k, found) ↦
        let own : k.user ≡ u =
          ground (arith, first-holds (is_owned_key u id) s.db.api_keys k found) in
        let same =
          select-update_where_ne (λ k. k.id) (λ k. k.key_hash) (λ k. k.user) (revoked e.now)
            (is_owned_key u id) v s.draws s.db.api_keys k h.keys found (ground arith)
            (ground arith) in
        elim (Option-cases (first (is_users_active u) s.db.subscriptions)) [
          | inl free ↦ ground (arith, found, own, free, same)
          | inr (sub, there) ↦ ground (arith, found, own, there, same)
        ]
  ]

  pub subscribe-IsApart :
      (e : Env) (slug : String) (s : State) → IsSound s → IsApart v s.db (subscribe e u slug s).1.db
  unfolding subscribe create_subscription get_active_subscription
  subscribe-IsApart e slug s h =
      elim (Option-cases (first (is_users_active u) s.db.subscriptions)) [
        | inl free ↦ ground (arith, free)
        | inr (sub, there) ↦
            let own : sub.user ≡ u =
              ground (arith, first-holds (is_users_active u) s.db.subscriptions sub there) in
            let same =
              select-subscription_ne (replaced e.now) (is_users_active u) v s.draws
                s.db.subscriptions sub h.subscriptions there (ground arith) (ground arith) in
            ground (arith, there, own, same)
      ]

  pub cancel-IsApart : (e : Env) (s : State) → IsSound s → IsApart v s.db (cancel e u s).1.db
  unfolding cancel enroll_in_free_plan create_subscription get_active_subscription
  cancel-IsApart e s h = elim (Option-cases (first (is_users_active u) s.db.subscriptions)) [
    | inl free ↦ ground (arith, free)
    | inr (sub, there) ↦
        let own : sub.user ≡ u =
          ground (arith, first-holds (is_users_active u) s.db.subscriptions sub there) in
        let same =
          select-subscription_ne (canceled_now e.now) (is_users_active u) v s.draws
            s.db.subscriptions sub h.subscriptions there (ground arith) (ground arith) in
        ground (arith, there, own, same)
  ]

  select-user_ne :
      (f : User → User) (us : List User)
      → ((x : User) → (f x).id ≡ x.id)
      → select (λ x. x.id == v) (update_where (λ x. x.id == u) f us) ≡ select (λ x. x.id == v) us
  select-user_ne f [] same = refl
  select-user_ne f (x ∷ us) same = ground (arith, same x, select-user_ne f us same)

  pub save_user-IsApart :
      (f : User → User) (s : State)
      → ((x : User) → (f x).id ≡ x.id)
      → IsApart v s.db (save_user u f s).1.db
  save_user-IsApart f s same = ground (arith, select-user_ne f s.db.users same)

  pub record_request-IsApart : (e : Env) (s : State) → IsApart v s.db (record_request e u s).1.db
  unfolding record_request current_or_rotate_quota
  record_request-IsApart e s = elim (Option-cases (get_active_subscription u s.db)) [
    | inl free ↦ ground (arith, free, enroll-IsApart e s)
    | inr (sub, there) ↦ ground (arith, there)
  ]

pub change_password-IsApart :
    (e : Env) (user : User) (v : ℕ) (current new : String) (s : State)
    → user.id ≢ v
    → IsApart v s.db (change_password e user current new s).1.db
unfolding change_password
change_password-IsApart e user v current new s ne =
    ground (arith, select-user_ne user.id v ne (with_password e s.draws new) s.db.users (λ x. refl))

pub issue-IsApart :
    (e : Env) (user : User) (v : ℕ) (s : State)
    → user.id ≢ v
    → IsApart v s.db (issue_verification_token e user s).1.db
unfolding issue_verification_token generate_secure_token
issue-IsApart e user v s ne = ground arith
