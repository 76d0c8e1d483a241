-- ===== src/Authentication/Registration.antt =====
-- `register_user`, with `create_user` of apps/users/services.py, up to `verify_email`.
use saas_backend_api.Prelude.{
  ℕ, suc, ◌+◌, ◌*◌, ◌<◌, ◌≡◌, refl, true, false, String, none, some, ◌∷◌, lt→ltb, arith, str_eq,
  str_eq_self, exists, ap,
}
use saas_backend_api.Clock.{hour, fifty_years_on}
use saas_backend_api.Common.Errors.{conflict}
use saas_backend_api.Common.Utils.{hash_token, generate_secure_token}
use saas_backend_api.Users.Models.{User, customer}
use saas_backend_api.Users.Selectors.{get_user_by_email, user_by_id}
use saas_backend_api.Users.Services.{
  new_user, customer_extra, create_user, manager_create, manager_create_user, Extra,
}
use saas_backend_api.Store.{Env, State, ok, err, error, verification}
use saas_backend_api.Subscriptions.Models.{free_slug, Plan}
use saas_backend_api.Subscriptions.Selectors.{get_active_subscription, get_plan_by_slug}
use saas_backend_api.Subscriptions.Services.{new_subscription}
use saas_backend_api.Subscriptions.Table.{IsUnique-mono}
use saas_backend_api.Subscriptions.Quotas.{AreOrdered-mono}
use saas_backend_api.Subscriptions.Enrollment.{
  IsValid, IsFree, created, enroll_in_free_plan_lem, get_active-created,
}
use saas_backend_api.Authentication.Models.{Token, verification_expiry}
use saas_backend_api.Authentication.Services.{
  has_hash, new_token, issue_verification_token, register_user, verify_email, verified,
}
use saas_backend_api.Authentication.OneShot.{verify_email_lem}

-- The arguments that the service hands to the manager, with the manager's defaults.
abbrev pub registered_extra : Env → String → String → Extra
registered_extra e first_name last_name = record (customer_extra e first_name last_name customer) {
  role = some customer;
  is_staff = some false;
  is_superuser = some false;
}

-- The user that registration creates.
abbrev pub registered : Env → String → String → String → String → State → User
registered e email password first_name last_name s =
    new_user e email password (registered_extra e first_name last_name) s.draws (suc s.draws)

abbrev pub with_user : User → State → State
with_user u s = record s { draws = suc (suc s.draws); db = record s.db { users = u ∷ s.db.users } }

-- The state after a token was issued to `u`.
abbrev pub issued_token : Env → User → State → Token
issued_token e u s =
    new_token e (suc s.draws) u.id (e.token_urlsafe s.draws) (verification_expiry e.now)

abbrev pub with_token : Env → User → State → State
with_token e u s = record s {
  draws = suc (suc s.draws);
  outbox =
      record { kind = verification; user_id = u.id; token = e.token_urlsafe s.draws } ∷ s.outbox;
  db = record s.db { verification_tokens = issued_token e u s ∷ s.db.verification_tokens };
}

-- The next random text gives a hash that is not in the table.
abbrev pub IsNewToken : Env → State → Type 0
IsNewToken e s =
    exists (has_hash (hash_token e (e.token_urlsafe s.draws))) s.db.verification_tokens ≡ false

pub issue_verification_token_lem :
    (e : Env) (u : User) (s : State)
    → IsNewToken e s
    → issue_verification_token e u s ≡ (ok (e.token_urlsafe s.draws), with_token e u s)
unfolding issue_verification_token generate_secure_token
issue_verification_token_lem e u s fresh = ground (arith, fresh)

-- A token that was issued verifies its user at any time before it expires, a day later. The user is
-- in the table, and the hash of the token was not in the table before.
pub issue-verify :
    (e : Env) (u : User) (t : ℕ) (s : State)
    → IsNewToken e s
    → user_by_id u.id s.db ≡ some u
    → t < e.now + 24 * hour
    → let (r, s') = issue_verification_token e u s in
      (r ≡ ok (e.token_urlsafe s.draws))
      × ((verify_email (record e { now = t }) (e.token_urlsafe s.draws) s').0 ≡ ok (verified u))
issue-verify e u t s fresh owner soon = rw (issue_verification_token_lem e u s fresh) (
  refl,
  ap (λ p. p.0)
      (verify_email_lem (record e { now = t }) (e.token_urlsafe s.draws) (issued_token e u s) u
        (with_token e u s) (ground (arith, str_eq_self (hash_token e (e.token_urlsafe s.draws))))
        (ground (arith, lt→ltb t (e.now + 24 * hour) soon)) owner),
)

-- What registration needs: the address is not empty and not taken, the Free plan is there, fifty
-- years on there is the date, and the next random text is new.
pub record CanRegister (e : Env) (email : String) (plan : Plan) (end : ℕ) (s : State) : Type 0 where
  pub valid : IsValid s
  pub some_email : str_eq email "" ≡ false
  pub untaken : get_user_by_email e email s.db ≡ none
  pub unused : exists (λ u. str_eq u.email (e.lower (e.normalize_email email))) s.db.users ≡ false
  pub unsubscribed : IsFree s.draws s
  pub free_plan : get_plan_by_slug free_slug s.db ≡ some plan
  pub date : fifty_years_on e.now ≡ some end
  pub fresh :
      exists
        (has_hash (hash_token e (e.token_urlsafe (suc (suc (suc (suc s.draws)))))))
        s.db.verification_tokens
      ≡ false

module _ (e : Env) (email password first_name last_name : String) (plan : Plan) (end : ℕ)
    (s : State) (can : CanRegister e email plan end s) where
  abbrev joined : User
  joined = registered e email password first_name last_name s

  abbrev enrolled : State
  enrolled = created e s.draws plan false end (with_user joined s)

  with_user-IsValid : IsValid (with_user joined s)
  with_user-IsValid = record {
    unique =
        IsUnique-mono s.draws (suc (suc s.draws)) s.db.subscriptions (omega arith) can.valid.unique;
    ordered =
        AreOrdered-mono s.draws (suc (suc s.draws)) s.db.quotas (omega arith) can.valid.ordered;
  }

  create_user_lem :
      create_user e email password first_name last_name customer s ≡ (ok joined, enrolled)
  unfolding create_user manager_create_user manager_create get_plan_by_slug
  create_user_lem = ground (
    arith,
    can.some_email,
    can.untaken,
    can.unused,
    enroll_in_free_plan_lem e s.draws plan end (with_user joined s) with_user-IsValid
        can.unsubscribed can.free_plan can.date,
  )

  register_user_lem :
      register_user e email password first_name last_name s
      ≡ (ok joined, with_token e joined enrolled)
  unfolding register_user
  register_user_lem =
      ground (arith, create_user_lem, issue_verification_token_lem e joined enrolled can.fresh)

-- Registration, where it can succeed, creates an active, unverified customer who has the Free plan,
-- and queues one message with a token; a request that presents this token before a day has passed
-- is answered with the verified user, whose row is found as verified afterwards.
pub register-verify :
    (e : Env) (email password first_name last_name : String) (plan : Plan) (end t : ℕ) (s : State)
    → CanRegister e email plan end s
    → t < e.now + 24 * hour
    → let (r, s') = register_user e email password first_name last_name s in
      let u = registered e email password first_name last_name s in
      let token = e.token_urlsafe (suc (suc (suc (suc s.draws)))) in
      (r ≡ ok u)
      × ((u.is_active ≡ true) × (u.is_verified ≡ false) × (u.role ≡ customer))
      × (get_active_subscription u.id s'.db
          ≡ some (new_subscription e u.id plan false (suc (suc s.draws))))
      × (s'.outbox ≡ record { kind = verification; user_id = u.id; token = token } ∷ s.outbox)
      × (let (answer, s'') = verify_email (record e { now = t }) token s' in
          (answer ≡ ok (verified u)) × (user_by_id u.id s''.db ≡ some (verified u)))
unfolding get_active_subscription
register-verify e email password first_name last_name plan end t s can soon =
    let u = registered e email password first_name last_name s in
    let s₁ = created e u.id plan false end (with_user u s) in
    rw (register_user_lem e email password first_name last_name plan end s can) (
      refl,
      (refl, refl, refl),
      get_active-created e u.id plan false end (with_user u s),
      refl,
      rw
          (verify_email_lem (record e { now = t }) (e.token_urlsafe s₁.draws) (issued_token e u s₁)
            u (with_token e u s₁)
            (ground (arith, str_eq_self (hash_token e (e.token_urlsafe s₁.draws))))
            (ground (arith, lt→ltb t (e.now + 24 * hour) soon)) (ground arith))
          (refl, ground arith),
    )

-- A taken address is refused with a 409 that leaves the tables, the queue and the draws alone.
pub register-taken :
    (e : Env) (email password first_name last_name : String) (u : User) (s : State)
    → get_user_by_email e email s.db ≡ some u
    → register_user e email password first_name last_name s
      ≡ (err (error conflict "An account with this email already exists." "email_taken"), s)
unfolding register_user create_user
register-taken e email password first_name last_name u s taken = ground (arith, taken)
