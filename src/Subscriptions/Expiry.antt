-- ===== src/Subscriptions/Expiry.antt =====
-- The step of `expire_due_subscriptions` for one row, and the rows that are due after it.
pub mod Sweep
use saas_backend_api.Prelude.{
  ℕ, zero, suc, ◌<◌, ◌+◌, ◌≡◌, refl, ◌≢◌, Bool, true, false, Option, none, some, List, [], ◌∷◌,
  length, ◌==◌, arith, first, exists, select, update_where, inl, inr, Bool-cases, Option-cases,
  String, ◌∙◌, subst, ap, ==_self, ==_ne, update_where-hit, update_where-miss,
}
use saas_backend_api.Clock.{fifty_years_on}
use saas_backend_api.Store.{Db, Env, State, ok, err}
use saas_backend_api.Subscriptions.Models.{free_slug, Plan, Subscription, is_active_status}
use saas_backend_api.Subscriptions.Selectors.{
  is_users_active, get_active_subscription, get_plan_by_slug,
}
use saas_backend_api.Subscriptions.Services.{
  new_subscription, is_sweepable, expired_now, expire_one, expire_loop, expire_due_subscriptions,
  enroll_in_free_plan, create_subscription,
}
use saas_backend_api.Subscriptions.Table.{IsUnique, has_id, update_where-above, exists-first}
use saas_backend_api.Subscriptions.Enrollment.{
  IsValid, created, created-IsValid, get_active-created, get_active-created_ne,
  enroll_in_free_plan_lem, ended, ended-IsValid, ended-IsFree, get_active-ended_ne,
}

pub expired_off :
    (s : Subscription)
    → ((expired_now s).id ≡ s.id)
      × ((expired_now s).user ≡ s.user)
      × (is_active_status (expired_now s).status ≡ false)
expired_off s = (refl, refl, refl)

-- The rows that the sweep reads.
abbrev pub due : ℕ → Db → List Subscription
due now db = select (is_sweepable now) db.subscriptions

module _ (now : ℕ) (d : Subscription) (ds : List Subscription) where
  due-id-lt :
      (n : ℕ) (subs : List Subscription)
      → IsUnique n subs
      → select (is_sweepable now) subs ≡ d ∷ ds
      → d.id < n
  due-id-lt n [] h e = ground arith
  due-id-lt n (x ∷ subs) h e = ground (arith, due-id-lt x.id subs h.2)

  -- A due row is its user's active subscription.
  pub due-is_active :
      (n : ℕ) (subs : List Subscription)
      → IsUnique n subs
      → select (is_sweepable now) subs ≡ d ∷ ds
      → first (is_users_active d.user) subs ≡ some d
  due-is_active n [] h e = ground arith
  due-is_active n (x ∷ subs) h e =
      ground (arith, due-is_active x.id subs h.2, exists-first d.user subs d)

  due-expired_head :
      (x : Subscription) (subs : List Subscription)
      → IsUnique x.id subs
      → select (is_sweepable now) subs ≡ ds
      → select (is_sweepable now) (update_where (has_id x.id) expired_now (x ∷ subs)) ≡ ds
  due-expired_head x subs h e =
      ap (select (is_sweepable now))
        (update_where-hit (has_id x.id) expired_now x subs (==_self x.id))
      ∙ rw (update_where-above expired_now x.id x.id subs (omega arith) h) e

  due-expired_tail :
      (x : Subscription) (subs : List Subscription)
      → x.id ≢ d.id
      → is_sweepable now x ≡ false
      → select (is_sweepable now) (update_where (has_id d.id) expired_now subs) ≡ ds
      → select (is_sweepable now) (update_where (has_id d.id) expired_now (x ∷ subs)) ≡ ds
  due-expired_tail x subs ne other ih =
      ap (select (is_sweepable now))
        (update_where-miss (has_id d.id) expired_now x subs (==_ne x.id d.id ne))
      ∙ rw other ih

  -- Ending the first due row leaves the others due.
  pub due-expired :
      (n : ℕ) (subs : List Subscription)
      → IsUnique n subs
      → select (is_sweepable now) subs ≡ d ∷ ds
      → select (is_sweepable now) (update_where (has_id d.id) expired_now subs) ≡ ds
  due-expired n [] h e = ground arith
  due-expired n (x ∷ subs) h e = elim (Bool-cases (is_sweepable now x)) [
    | inl here ↦
        let same : x ≡ d = ground arith in
        subst
          (λ t. select (is_sweepable now) (update_where (has_id t.id) expired_now (x ∷ subs)) ≡ ds)
          same (due-expired_head x subs h.2 (ground arith))
    | inr other ↦
        let later : select (is_sweepable now) subs ≡ d ∷ ds = ground arith in
        let below = due-id-lt x.id subs h.2 later in
        due-expired_tail x subs (omega arith) other (due-expired x.id subs h.2 later)
  ]

-- What the sweep needs of its environment: the Free plan, and the date fifty years on.
module _ (e : Env) (plan : Plan) (end : ℕ) (ends : fifty_years_on e.now ≡ some end) where
  -- The state after one row of the sweep.
  abbrev pub swept : Subscription → State → State
  swept d s = created e d.user plan false end (ended expired_now d s)

  module _ (d : Subscription) (ds : List Subscription) (s : State) (v : IsValid s)
      (todo : due e.now s.db ≡ d ∷ ds) where
    pub swept-is_active : get_active_subscription d.user s.db ≡ some d
    unfolding get_active_subscription
    swept-is_active = due-is_active e.now d ds s.draws s.db.subscriptions v.unique todo

    pub expire_one_lem :
        get_plan_by_slug free_slug s.db ≡ some plan → expire_one e d s ≡ (ok tt, swept d s)
    unfolding expire_one get_plan_by_slug
    expire_one_lem found = ground (
      arith,
      enroll_in_free_plan_lem e d.user plan end (ended expired_now d s)
          (ended-IsValid expired_now expired_off d s v)
          (ended-IsFree expired_now expired_off d.user d s v swept-is_active) found ends,
    )

    pub swept-IsValid : IsValid (swept d s)
    swept-IsValid =
        created-IsValid e d.user plan false end (ended expired_now d s)
          (ended-IsValid expired_now expired_off d s v)
          (ended-IsFree expired_now expired_off d.user d s v swept-is_active)

    pub swept-due : due e.now (swept d s).db ≡ ds
    swept-due = due-expired e.now d ds s.draws s.db.subscriptions v.unique todo

    pub swept-others :
        (w : ℕ)
        → w ≢ d.user
        → get_active_subscription w (swept d s).db ≡ get_active_subscription w s.db
    swept-others w ne =
        get_active-created_ne e d.user w plan false end (ended expired_now d s) ne
        ∙ get_active-ended_ne expired_now expired_off d.user w d s v ne swept-is_active
