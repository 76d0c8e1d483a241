-- ===== src/Subscriptions/LeapDay.antt =====
-- Enrolment, cancellation and the sweep of apps/subscriptions/services.py on 29 February.
use saas_backend_api.Prelude.{ℕ, ◌≡◌, ◌≢◌, refl, none, List, [], ◌∷◌, arith, select}
use saas_backend_api.Clock.{date_of, civil, fifty_years_on}
use saas_backend_api.Clock.Calendar.{fifty_years_on-eq-none_iff}
use saas_backend_api.Store.{Env, State, ok, error_of}
use saas_backend_api.Subscriptions.Models.{Subscription}
use saas_backend_api.Subscriptions.Services.{
  create_subscription, enroll_in_free_plan, cancel, expire_one, expire_loop,
  expire_due_subscriptions, is_sweepable,
}

abbrev pub IsLeapDay : Env → Type 0
IsLeapDay e = ((civil (date_of e.now)).month ≡ 2) × ((civil (date_of e.now)).dom ≡ 29)

module _ (e : Env) (leap : IsLeapDay e) where
  no_date : fifty_years_on e.now ≡ none
  no_date = (fifty_years_on-eq-none_iff e.now).1 leap

  pub enroll_fails :
      (user : ℕ) (s : State)
      → let (r, s') = enroll_in_free_plan e user s in (error_of r ≢ none) × (s'.db ≡ s.db)
  unfolding enroll_in_free_plan create_subscription
  enroll_fails user s = ground (arith, no_date)

  cancel_fails :
      (user : ℕ) (s : State) → let (r, s') = cancel e user s in (error_of r ≢ none) × (s'.db ≡ s.db)
  unfolding cancel enroll_in_free_plan create_subscription
  cancel_fails user s = ground (arith, no_date)

  expire_one_fails :
      (sub : Subscription) (s : State)
      → let (r, s') = expire_one e sub s in (error_of r ≢ none) × (s'.db ≡ s.db)
  unfolding expire_one enroll_in_free_plan create_subscription
  expire_one_fails sub s = ground (arith, no_date)

  expire_loop_fails :
      (subs : List Subscription) (n : ℕ) (s : State)
      → let (r, s') = expire_loop e subs n s in (r ≡ ok n) × (s'.db ≡ s.db)
  unfolding expire_loop
  expire_loop_fails [] n s = (refl, refl)
  expire_loop_fails (sub ∷ subs) n s =
      let (r, s') = expire_one e sub s in
      ground (arith, expire_one_fails sub s, expire_loop_fails subs n s')

-- On 29 February the Free plan cannot be entered: enrolment and cancellation raise and restore the
-- tables, and the sweep ends no subscription, whatever the tables hold.
pub leap_day-blocks :
    (e : Env) (user : ℕ) (s : State)
    → IsLeapDay e
    → let (enrolled, s₁) = enroll_in_free_plan e user s in
      let (canceled, s₂) = cancel e user s in
      let (swept, s₃) = expire_due_subscriptions e s in
      ((error_of enrolled ≢ none) × (s₁.db ≡ s.db))
      × ((error_of canceled ≢ none) × (s₂.db ≡ s.db))
      × ((swept ≡ ok 0) × (s₃.db ≡ s.db))
unfolding expire_due_subscriptions
leap_day-blocks e user s leap = (
  enroll_fails e leap user s,
  cancel_fails e leap user s,
  expire_loop_fails e leap (select (is_sweepable e.now) s.db.subscriptions) 0 s,
)
