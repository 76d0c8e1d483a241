-- ===== src/Subscriptions/Expiry/Sweep.antt =====
-- `expire_due_subscriptions` as a whole: its count, and where it leaves each user.
use saas_backend_api.Prelude.{
  ℕ, ◌+◌, ◌≡◌, refl, ◌≢◌, Bool, true, false, Option, none, some, List, [], ◌∷◌, length, arith,
  first, select, inl, inr, Bool-cases, ◌∙◌, ◌⊎◌, sym, ℕ_discrete, ap, subst,
}
use saas_backend_api.Clock.{fifty_years_on}
use saas_backend_api.Store.{Env, State, Result, ok, err}
use saas_backend_api.Subscriptions.Models.{free_slug, Plan, Subscription, is_due}
use saas_backend_api.Subscriptions.Selectors.{
  is_users_active, get_active_subscription, get_plan_by_slug,
}
use saas_backend_api.Subscriptions.Services.{is_sweepable, expire_loop, expire_due_subscriptions}
use saas_backend_api.Subscriptions.Enrollment.{IsValid, ended, get_active-created}
use saas_backend_api.Subscriptions.Expiry.{
  expired_now, due, swept, swept-is_active, expire_one_lem, swept-IsValid, swept-due, swept-others,
  new_subscription,
}

abbrev pub is_due_sub : ℕ → Option Subscription → Bool
is_due_sub now none = false
is_due_sub now (some b) = is_due now b.expires_at

due_sub :
    (now : ℕ) (o : Option Subscription)
    → is_due_sub now o ≡ true
    → (b : Subscription) × (o ≡ some b) × (is_due now b.expires_at ≡ true)
due_sub now none h = cc
due_sub now (some b) h = (b, refl, h)

due-head :
    (now : ℕ) (d : Subscription) (ds subs : List Subscription)
    → select (is_sweepable now) subs ≡ d ∷ ds
    → is_sweepable now d ≡ true
due-head now d ds [] h = ground arith
due-head now d ds (x ∷ subs) h = ground (arith, due-head now d ds subs)

none-due :
    (now w : ℕ) (subs : List Subscription)
    → select (is_sweepable now) subs ≡ []
    → is_due_sub now (first (is_users_active w) subs) ≡ false
none-due now w [] h = refl
none-due now w (x ∷ subs) h = ground (arith, none-due now w subs)

module _ (e : Env) (plan : Plan) (end : ℕ) (ends : fifty_years_on e.now ≡ some end) where
  not_owner :
      (w : ℕ) (d : Subscription) (ds : List Subscription) (s : State)
      → IsValid s
      → due e.now s.db ≡ d ∷ ds
      → is_due_sub e.now (get_active_subscription w s.db) ≡ false
      → w ≢ d.user
  not_owner w d ds s v todo fresh same =
      let has : get_active_subscription w s.db ≡ some d =
        subst (λ u. get_active_subscription u s.db ≡ some d) (sym same)
          (swept-is_active e plan end ends d ds s v todo) in
      ground (arith, due-head e.now d ds s.db.subscriptions todo)

  moved :
      (w : ℕ) (d : Subscription) (s : State)
      → w ≡ d.user
      → get_active_subscription w (swept e plan end ends d s).db
        ≡ some (new_subscription e d.user plan false s.draws)
  moved w d s same =
      subst
        (λ u.
          get_active_subscription u (swept e plan end ends d s).db
          ≡ some (new_subscription e d.user plan false s.draws))
        (sym same) (get_active-created e d.user plan false end (ended expired_now d s))

  expire_loop-step :
      (d : Subscription) (ds : List Subscription) (acc : ℕ) (s : State)
      → IsValid s
      → get_plan_by_slug free_slug s.db ≡ some plan
      → due e.now s.db ≡ d ∷ ds
      → expire_loop e (d ∷ ds) acc s ≡ expire_loop e ds (acc + 1) (swept e plan end ends d s)
  unfolding expire_loop
  expire_loop-step d ds acc s v found todo =
      ap
        (λ (p : Result (Unit {0}) × State).
          expire_loop e ds (elim p.0 [ ok _ ↦ acc + 1 | err _ ↦ acc ]) p.1)
        (expire_one_lem e plan end ends d ds s v todo found)

  expire_loop_lem :
      (ds : List Subscription) (acc : ℕ) (s : State)
      → IsValid s
      → get_plan_by_slug free_slug s.db ≡ some plan
      → due e.now s.db ≡ ds
      → let (r, s') = expire_loop e ds acc s in
        (r ≡ ok (acc + length ds)) × IsValid s' × (due e.now s'.db ≡ [])
  unfolding expire_loop get_plan_by_slug
  expire_loop_lem [] acc s v found todo = (ground arith, v, todo)
  expire_loop_lem (d ∷ ds) acc s v found todo =
      let (r, w, none_left) =
        expire_loop_lem ds (acc + 1) (swept e plan end ends d s)
          (swept-IsValid e plan end ends d ds s v todo) found
          (swept-due e plan end ends d ds s v todo) in
      subst (λ p. (p.0 ≡ ok (acc + length (d ∷ ds))) × IsValid p.1 × (due e.now p.1.db ≡ []))
        (sym (expire_loop-step d ds acc s v found todo)) (ground arith, w, none_left)

  -- A user whose subscription is not due keeps it.
  expire_loop-keeps :
      (w : ℕ) (ds : List Subscription) (acc : ℕ) (s : State)
      → IsValid s
      → get_plan_by_slug free_slug s.db ≡ some plan
      → due e.now s.db ≡ ds
      → is_due_sub e.now (get_active_subscription w s.db) ≡ false
      → get_active_subscription w (expire_loop e ds acc s).1.db ≡ get_active_subscription w s.db
  unfolding expire_loop get_plan_by_slug
  expire_loop-keeps w [] acc s v found todo fresh = refl
  expire_loop-keeps w (d ∷ ds) acc s v found todo fresh =
      let other : w ≢ d.user = not_owner w d ds s v todo fresh in
      let same = swept-others e plan end ends d ds s v todo w other in
      ap (λ (p : Result ℕ × State). get_active_subscription w p.1.db)
        (expire_loop-step d ds acc s v found todo)
      ∙ expire_loop-keeps w ds (acc + 1) (swept e plan end ends d s)
          (swept-IsValid e plan end ends d ds s v todo) found
          (swept-due e plan end ends d ds s v todo) (ap (is_due_sub e.now) same ∙ fresh)
      ∙ same

  -- A user whose subscription is due is on the Free plan after the loop, without an end.
  expire_loop-moves :
      (w : ℕ) (b : Subscription) (ds : List Subscription) (acc : ℕ) (s : State)
      → IsValid s
      → get_plan_by_slug free_slug s.db ≡ some plan
      → due e.now s.db ≡ ds
      → get_active_subscription w s.db ≡ some b
      → is_due e.now b.expires_at ≡ true
      → (sub : Subscription) × (get_active_subscription w (expire_loop e ds acc s).1.db ≡ some sub)
        × (sub.plan ≡ plan.id)
        × (sub.expires_at ≡ none)
  unfolding expire_loop get_plan_by_slug get_active_subscription
  expire_loop-moves w b [] acc s v found todo has late =
      absurd (ground (arith, none-due e.now w s.db.subscriptions todo))
  expire_loop-moves w b (d ∷ ds) acc s v found todo has late =
      let s' = swept e plan end ends d s in
      let valid = swept-IsValid e plan end ends d ds s v todo in
      let rest = swept-due e plan end ends d ds s v todo in
      let step =
        ap (λ (p : Result ℕ × State). get_active_subscription w p.1.db)
          (expire_loop-step d ds acc s v found todo) in
      elim (ℕ_discrete w d.user) [
        | yes mine ↦
            let fresh = moved w d s mine in
            (
              new_subscription e d.user plan false s.draws,
              step
                  ∙ expire_loop-keeps w ds (acc + 1) s' valid found rest
                      (ap (is_due_sub e.now) fresh)
                  ∙ fresh,
              refl,
              refl,
            )
        | no other ↦
            let (sub, at, on, open_ended) =
              expire_loop-moves w b ds (acc + 1) s' valid found rest
                (swept-others e plan end ends d ds s v todo w other ∙ has) late in
            (sub, step ∙ at, on, open_ended)
      ]

-- One run of the sweep ends every due subscription and counts them all; a second run at the same
-- time finds nothing and changes nothing. The Free plan and the date fifty years on have to exist.
pub expire_due_subscriptions-idempotent :
    (e : Env) (plan : Plan) (end : ℕ) (s : State)
    → IsValid s
    → get_plan_by_slug free_slug s.db ≡ some plan
    → fifty_years_on e.now ≡ some end
    → let (r, s') = expire_due_subscriptions e s in
      (r ≡ ok (length (due e.now s.db)))
      × IsValid s'
      × (due e.now s'.db ≡ [])
      × (expire_due_subscriptions e s' ≡ (ok 0, s'))
unfolding expire_due_subscriptions expire_loop
expire_due_subscriptions-idempotent e plan end s v found ends =
    let (r, w, none_left) = expire_loop_lem e plan end ends (due e.now s.db) 0 s v found refl in
    (ground arith, w, none_left, rw none_left)

-- After the sweep a user whose active subscription was due is on the Free plan, without an end;
-- every other user has the active subscription of before, or none as before. The Free plan and the
-- date fifty years on have to exist.
pub expire_due_subscriptions-by_user :
    (e : Env) (plan : Plan) (end : ℕ) (w : ℕ) (s : State)
    → IsValid s
    → get_plan_by_slug free_slug s.db ≡ some plan
    → fifty_years_on e.now ≡ some end
    → let after = get_active_subscription w (expire_due_subscriptions e s).1.db in
      let before = get_active_subscription w s.db in
      ((is_due_sub e.now before ≡ false) × (after ≡ before))
      ⊎ ((is_due_sub e.now before ≡ true)
          × ((sub : Subscription) × (after ≡ some sub)
              × (sub.plan ≡ plan.id)
              × (sub.expires_at ≡ none)))
unfolding expire_due_subscriptions
expire_due_subscriptions-by_user e plan end w s v found ends =
    elim (Bool-cases (is_due_sub e.now (get_active_subscription w s.db))) [
      | inl late ↦
          let (b, has, due_b) = due_sub e.now (get_active_subscription w s.db) late in
          inr (
            late,
            expire_loop-moves e plan end ends w b (due e.now s.db) 0 s v found refl has due_b,
          )
      | inr fresh ↦
          inl (fresh, expire_loop-keeps e plan end ends w (due e.now s.db) 0 s v found refl fresh)
    ]
