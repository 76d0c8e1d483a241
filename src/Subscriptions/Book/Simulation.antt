-- ===== src/Subscriptions/Book/Simulation.antt =====
-- `subscribe`, `cancel` and `enroll_in_free_plan` of apps/subscriptions/services.py against the book.
use saas_backend_api.Subscriptions.Book.{
  Order, to_subscribe, to_cancel, to_enroll, Book, put, is_plan, obey, serve, Matches, obey_all,
  serve_all, IsDated,
}
use saas_backend_api.Subscriptions.Quotas.{AreOrdered-mono}
use saas_backend_api.Subscriptions.Table.{IsUnique-mono, exists-of-none, exists-first}
use saas_backend_api.Prelude.{
  ℕ, ◌≡◌, ◌≢◌, ◌≤◌, refl, Bool, false, String, Option, none, some, List, [], ◌∷◌, ◌==◌, arith,
  first, All, ltb, sym, ◌∙◌, inl, inr, Bool-cases, Option-cases, suc,
}
use saas_backend_api.Clock.{fifty_years_on}
use saas_backend_api.Store.{Env, State}
use saas_backend_api.Subscriptions.Models.{free_slug, Plan, Subscription}
use saas_backend_api.Subscriptions.Selectors.{
  get_active_subscription, get_plan_by_slug, has_slug, is_users_active,
}
use saas_backend_api.Subscriptions.Services.{
  subscribe, cancel, enroll_in_free_plan, is_on_plan, create_subscription, canceled_now,
}
use saas_backend_api.Subscriptions.Changes.{
  subscribe_lem, quota_end-some, cleared, cleared-IsValid, cleared-IsFree, cleared-others,
  cancel_lem, canceled_off,
}
use saas_backend_api.Subscriptions.Enrollment.{
  IsValid, IsFree, created, created-IsValid, get_active-created, get_active-created_ne, ended,
  ended-IsValid, enroll_in_free_plan_lem, ended-IsFree, get_active-ended_ne,
}

-- The code gives the book's answer, and its tables stand for the book's next state.
record Implements (plans : List Plan) (answer : Bool × Book) (out : Bool × State) : Type 0 where
  same : out.0 ≡ answer.0
  matches : Matches plans answer.1 out.1

module _ (plans : List Plan) (b : Book) (s : State) (m : Matches plans b s) where
  refused-Matches : (t : State) → t.db ≡ s.db → s.draws ≤ t.draws → Matches plans b t
  unfolding get_active_subscription
  refused-Matches t same later = record {
    valid = record {
      unique = rw same (IsUnique-mono s.draws t.draws s.db.subscriptions later m.valid.unique);
      ordered = rw same (AreOrdered-mono s.draws t.draws s.db.quotas later m.valid.ordered);
    };
    catalogue = rw same m.catalogue;
    agrees = λ u. rw same (m.agrees u);
  }

  -- The new row of a user, over tables that differ in this user's rows only.
  moved-Matches :
      (e : Env) (user : ℕ) (plan : Plan) (expires : Bool) (end : ℕ) (t : State)
      → IsValid t
      → IsFree user t
      → t.db.plans ≡ s.db.plans
      → ((w : ℕ) → w ≢ user → get_active_subscription w t.db ≡ get_active_subscription w s.db)
      → Matches plans (put user plan.id b) (created e user plan expires end t)
  moved-Matches e user plan expires end t v free same others = record {
    valid = created-IsValid e user plan expires end t v free;
    catalogue = same ∙ m.catalogue;
    agrees = λ w. elim (Bool-cases (w == user)) [
      | inl here ↦
          let eq : w ≡ user = ground arith in
          rw (eq, get_active-created e user plan expires end t) (ground arith)
      | inr other ↦
          let ne : w ≢ user = ground arith in
          rw (get_active-created_ne e user w plan expires end t ne, others w ne, other) (m.agrees w)
    ];
  }

  is_on_plan-agrees :
      (user : ℕ) (plan : Plan)
      → is_plan plan.id (b user) ≡ is_on_plan plan (get_active_subscription user s.db)
  is_on_plan-agrees user plan = elim (Option-cases (get_active_subscription user s.db)) [
    | inl none_there ↦ ground (arith, m.agrees user)
    | inr (sub, there) ↦ ground (arith, m.agrees user)
  ]

  -- An error of a known operation, with the tables as they were.
  refused-Implements :
      (t : State) → t.db ≡ s.db → s.draws ≤ t.draws → Implements plans (false, b) (false, t)
  refused-Implements t same later = record { same = refl; matches = refused-Matches t same later }

  -- Where the date exists fifty years on.
  module _ (e : Env) (end : ℕ) (ends : fifty_years_on e.now ≡ some end) where
    cleared-plans : (current : Option Subscription) → (cleared e current s).db.plans ≡ s.db.plans
    cleared-plans none = refl
    cleared-plans (some sub) = refl

    subscribe-Implements :
        (user : ℕ) (slug : String)
        → Implements plans
            (obey plans (to_subscribe user slug) b)
            (serve e (to_subscribe user slug) s)
    unfolding subscribe get_plan_by_slug
    subscribe-Implements user slug = elim (Option-cases (first (has_slug slug) s.db.plans)) [
      | inl missing ↦
          let missing' : first (has_slug slug) plans ≡ none = rw (sym m.catalogue) missing in
          ground (arith, missing, missing', refused-Matches s refl (omega arith))
      | inr (plan, found) ↦
          let found' : first (has_slug slug) plans ≡ some plan = rw (sym m.catalogue) found in
          let current = get_active_subscription user s.db in
          elim (Bool-cases (is_on_plan plan current)) [
            | inl on ↦ ground (
              arith,
              found,
              found',
              on,
              is_on_plan-agrees user plan,
              refused-Matches s refl (omega arith),
            )
            | inr other ↦
                let (t, at) = quota_end-some e plan end ends in
                let made = subscribe_lem e user slug plan current t s m.valid found refl other at in
                let after =
                  moved-Matches e user plan (ltb 0 plan.duration_days) t (cleared e current s)
                    (cleared-IsValid e current s m.valid)
                    (cleared-IsFree e user current s m.valid refl) (cleared-plans current)
                    (λ w ne. cleared-others e user w current s m.valid ne refl) in
                ground (arith, made, found', is_on_plan-agrees user plan, other, after)
          ]
    ]

    cancel-Implements :
        (user : ℕ) → Implements plans (obey plans (to_cancel user) b) (serve e (to_cancel user) s)
    unfolding cancel enroll_in_free_plan get_plan_by_slug
    cancel-Implements user = elim (Option-cases (get_active_subscription user s.db)) [
      | inl none_there ↦
          let absent : b user ≡ none = ground (arith, m.agrees user) in
          elim (Option-cases (first (has_slug free_slug) plans)) [
            | inl missing ↦
                ground (arith, none_there, absent, missing, refused-Matches s refl (omega arith))
            | inr (plan, found) ↦
                ground (arith, none_there, absent, found, refused-Matches s refl (omega arith))
          ]
      | inr (sub, there) ↦
          let present : b user ≡ some sub.plan = ground (arith, m.agrees user) in
          elim (Option-cases (first (has_slug free_slug) s.db.plans)) [
            | inl missing ↦
                let missing' : first (has_slug free_slug) plans ≡ none =
                  rw (sym m.catalogue) missing in
                ground
                  (arith, there, present, missing, missing', refused-Matches s refl (omega arith))
            | inr (plan, found) ↦
                let found' : first (has_slug free_slug) plans ≡ some plan =
                  rw (sym m.catalogue) found in
                let made = cancel_lem e user sub plan end s m.valid there found ends in
                let after =
                  moved-Matches e user plan false end (ended (canceled_now e.now) sub s)
                    (ended-IsValid (canceled_now e.now) (canceled_off e.now) sub s m.valid)
                    (ended-IsFree (canceled_now e.now) (canceled_off e.now) user sub s m.valid
                      there)
                    refl
                    (λ w ne.
                      get_active-ended_ne (canceled_now e.now) (canceled_off e.now) user w sub s
                        m.valid ne there) in
                ground (arith, made, found', present, after)
          ]
    ]

    enroll-Implements :
        (user : ℕ) → Implements plans (obey plans (to_enroll user) b) (serve e (to_enroll user) s)
    unfolding enroll_in_free_plan create_subscription get_plan_by_slug get_active_subscription
    enroll-Implements user = elim (Option-cases (first (has_slug free_slug) s.db.plans)) [
      | inl missing ↦
          let missing' : first (has_slug free_slug) plans ≡ none = rw (sym m.catalogue) missing in
          ground (arith, missing, missing', refused-Matches s refl (omega arith))
      | inr (plan, found) ↦
          let found' : first (has_slug free_slug) plans ≡ some plan = rw (sym m.catalogue) found in
          elim (Option-cases (first (is_users_active user) s.db.subscriptions)) [
            | inl none_there ↦
                let free = exists-of-none user s.db.subscriptions none_there in
                let absent : b user ≡ none = ground (arith, m.agrees user) in
                let made = enroll_in_free_plan_lem e user plan end s m.valid free found ends in
                let after =
                  moved-Matches e user plan false end s m.valid free refl (λ w ne. refl) in
                ground (arith, made, found', absent, after)
            | inr (sub, there) ↦
                let present : b user ≡ some sub.plan = ground (arith, m.agrees user) in
                ground (
                  arith,
                  found,
                  found',
                  present,
                  exists-first user s.db.subscriptions sub there,
                  refused-Matches (record s { draws = suc s.draws }) refl (omega arith),
                )
          ]
    ]

    serve-Implements : (o : Order) → Implements plans (obey plans o b) (serve e o s)
    serve-Implements (to_subscribe user slug) = subscribe-Implements user slug
    serve-Implements (to_cancel user) = cancel-Implements user
    serve-Implements (to_enroll user) = enroll-Implements user

-- Changes, cancellations and enrolments implement the book: of any sequence of them, at any times,
-- the code accepts and refuses exactly those that the book does, and at the end the tables are
-- valid, have the same catalogue of plans, and each user's active subscription is on the plan that
-- the book says. At the start the tables are valid and stand for the book, and at the time of each
-- order the date exists fifty years on.
pub serve_all-refines :
    (plans : List Plan) (os : List (Env × Order)) (b : Book) (s : State)
    → Matches plans b s
    → All IsDated os
    → let (answers, b') = obey_all plans os b in
      let (outcomes, s') = serve_all os s in (outcomes ≡ answers) × Matches plans b' s'
unfolding obey_all serve_all
serve_all-refines plans [] b s m h = (refl, m)
serve_all-refines plans ((e, o) ∷ os) b s m ((end, ends), h) =
    let now = serve-Implements plans b s m e end ends o in
    let (same, after) =
      serve_all-refines plans os (obey plans o b).1 (serve e o s).1 now.matches h in
    (rw (now.same, same) refl, after)
