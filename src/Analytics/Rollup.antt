-- ===== src/Analytics/Rollup.antt =====
-- `rollup_daily_usage` of apps/analytics/selectors.py, and the figures of each user's requests.
use saas_backend_api.Prelude.{
  ℕ, ◌+◌, ◌≡◌, ◌≢◌, refl, Bool, true, false, Option, none, some, List, [], ◌∷◌, ◌==◌, ◌∙◌, arith,
  length, select, first, exists, update_where, if◌then◌else◌, ==_self, Bool-cases, inl, inr, ap,
  sym,
}
use saas_backend_api.Store.{Env, State}
use saas_backend_api.Analytics.Models.{RequestLog, DailyUsage}
use saas_backend_api.Analytics.Selectors.{
  is_error, avg_ms, Group, group_by_user, with_usage, is_usage_of, update_or_create_usage,
  rollup_loop, target_or, rollup_daily_usage,
}
use saas_backend_api.Analytics.Charts.{is_on}
use saas_backend_api.Analytics.Groups.{
  has_user, AreGroups, requests_in, group_by_user-AreGroups, requests_in-group_by_user,
}

-- A number of requests, how many of them failed, and their mean time.
abbrev pub Figures : Type 0
Figures = ℕ × ℕ × ℕ

abbrev pub figures_of : List RequestLog → Figures
figures_of rs = (length rs, length (select is_error rs), avg_ms rs)

-- The figures of requests, or the old ones where there is none.
abbrev pub measured : List RequestLog → Option Figures → Option Figures
measured [] old = old
measured (r ∷ rs) old = some (figures_of (r ∷ rs))

abbrev read : Option DailyUsage → Option Figures
read none = none
read (some d) = some (d.request_count, d.error_count, d.avg_response_ms)

-- The figures that the table has for a user and a day.
abbrev pub figures : ℕ → ℕ → State → Option Figures
figures user date s = read (first (is_usage_of user date) s.db.daily_usages)

-- What the loop writes for a user: the figures of the last of the user's groups.
written : ℕ → List Group → Option Figures → Option Figures
written u [] old = old
written u (g ∷ gs) old = written u gs (if g.user == u then some (figures_of g.requests) else old)

first-update_where_apart :
    (p q : DailyUsage → Bool) (f : DailyUsage → DailyUsage) (ds : List DailyUsage)
    → ((d : DailyUsage) → p (f d) ≡ p d)
    → ((d : DailyUsage) → q d ≡ true → p d ≡ false)
    → first p (update_where q f ds) ≡ first p ds
first-update_where_apart p q f [] keeps apart = refl
first-update_where_apart p q f (d ∷ ds) keeps apart =
    ground (arith, keeps d, apart d, first-update_where_apart p q f ds keeps apart)

update-read :
    (u t : ℕ) (rs : List RequestLog) (ds : List DailyUsage)
    → exists (is_usage_of u t) ds ≡ true
    → read (first (is_usage_of u t) (update_where (is_usage_of u t) (with_usage rs) ds))
      ≡ some (figures_of rs)
update-read u t rs [] h = ground arith
update-read u t rs (d ∷ ds) h = elim (Bool-cases (is_usage_of u t d)) [
  | inl here ↦ ground arith
  | inr other ↦ ground (arith, update-read u t rs ds)
]

module _ (t : ℕ) where
  step_figures :
      (u : ℕ) (g : Group) (s : State)
      → figures u t (update_or_create_usage t g s).1
        ≡ (if g.user == u then some (figures_of g.requests) else figures u t s)
  unfolding update_or_create_usage
  step_figures u g s = elim (Bool-cases (g.user == u)) [
    | inl same ↦ elim (Bool-cases (exists (is_usage_of g.user t) s.db.daily_usages)) [
      | inl there ↦
          let eq : g.user ≡ u = ground arith in
          ground (arith, eq, there, update-read u t g.requests s.db.daily_usages)
      | inr missing ↦ ground (arith, ==_self t)
    ]
    | inr other ↦
        let apart =
          first-update_where_apart (is_usage_of u t) (is_usage_of g.user t) (with_usage g.requests)
            s.db.daily_usages (λ d. refl) (λ d h. ground arith) in
        ground (arith, apart)
  ]

  loop_figures :
      (u n : ℕ) (gs : List Group) (s : State)
      → figures u t (rollup_loop t gs n s).1 ≡ written u gs (figures u t s)
  unfolding rollup_loop written
  loop_figures u n [] s = refl
  loop_figures u n (g ∷ gs) s =
      loop_figures u (n + 1) gs (update_or_create_usage t g s).1
      ∙ ap (written u gs) (step_figures u g s)

  -- The rows of other days stay.
  step_others :
      (u d : ℕ) (g : Group) (s : State)
      → d ≢ t
      → figures u d (update_or_create_usage t g s).1 ≡ figures u d s
  unfolding update_or_create_usage
  step_others u d g s ne =
      let apart =
        first-update_where_apart (is_usage_of u d) (is_usage_of g.user t) (with_usage g.requests)
          s.db.daily_usages (λ r. refl) (λ r h. ground arith) in
      ground (arith, apart)

  loop_others :
      (u d n : ℕ) (gs : List Group) (s : State)
      → d ≢ t
      → figures u d (rollup_loop t gs n s).1 ≡ figures u d s
  unfolding rollup_loop
  loop_others u d n [] s ne = refl
  loop_others u d n (g ∷ gs) s ne =
      loop_others u d (n + 1) gs (update_or_create_usage t g s).1 ne ∙ step_others u d g s ne

written-absent :
    (u : ℕ) (gs : List Group) (old : Option Figures)
    → exists (has_user u) gs ≡ false
    → written u gs old ≡ old
unfolding written
written-absent u [] old h = refl
written-absent u (g ∷ gs) old h = ground (arith, written-absent u gs old)

measured-some :
    (rs : List RequestLog) (old : Option Figures)
    → length rs ≢ 0
    → measured rs old ≡ some (figures_of rs)
measured-some [] old h = absurd (h refl)
measured-some (r ∷ rs) old h = refl

written-groups :
    (u : ℕ) (gs : List Group) (old : Option Figures)
    → AreGroups gs
    → written u gs old ≡ measured (requests_in u gs) old
unfolding written
written-groups u [] old h = refl
written-groups u (g ∷ gs) old (one, some_there, rest) = elim (Bool-cases (g.user == u)) [
  | inl same ↦
      let eq : g.user ≡ u = ground arith in
      ground (
        arith,
        eq,
        written-absent g.user gs (some (figures_of g.requests)) one,
        measured-some g.requests old some_there,
      )
  | inr other ↦ ground (arith, written-groups u gs old rest)
]

loop_logs :
    (t n : ℕ) (gs : List Group) (s : State)
    → (rollup_loop t gs n s).1.db.request_logs ≡ s.db.request_logs
unfolding rollup_loop update_or_create_usage
loop_logs t n [] s = refl
loop_logs t n (g ∷ gs) s = loop_logs t (n + 1) gs (update_or_create_usage t g s).1 ∙ (ground arith)

-- One rollup: a user's figures of the day.
rollup_figures :
    (e : Env) (target : Option ℕ) (u : ℕ) (s : State)
    → let t = target_or e target in
      figures u t (rollup_daily_usage e target s).1
      ≡ measured (select (is_on (some u) t) s.db.request_logs) (figures u t s)
unfolding rollup_daily_usage
rollup_figures e target u s =
    let t = target_or e target in
    let gs = group_by_user t s.db.request_logs in
    loop_figures t u 0 gs s
    ∙ written-groups u gs (figures u t s) (group_by_user-AreGroups t s.db.request_logs)
    ∙ ap (λ rs. measured rs (figures u t s)) (requests_in-group_by_user t u s.db.request_logs)

measured-twice :
    (rs : List RequestLog) (old : Option Figures) → measured rs (measured rs old) ≡ measured rs old
measured-twice [] old = refl
measured-twice (r ∷ rs) old = refl

-- After a rollup of a day the table has for each user the figures of exactly the requests that the
-- log has of the user and that day (how many, how many of them failed, their mean time), or what it
-- had before where there is none; the figures of another day stay. A second rollup of the day
-- changes no figures.
pub rollup_daily_usage-measures :
    (e : Env) (target : Option ℕ) (u d : ℕ) (s : State)
    → d ≢ target_or e target
    → let t = target_or e target in
      let s' = (rollup_daily_usage e target s).1 in
      (figures u t s' ≡ measured (select (is_on (some u) t) s.db.request_logs) (figures u t s))
      × (figures u d s' ≡ figures u d s)
      × (figures u t (rollup_daily_usage e target s').1 ≡ figures u t s')
unfolding rollup_daily_usage
rollup_daily_usage-measures e target u d s other =
    let t = target_or e target in
    let gs = group_by_user t s.db.request_logs in
    let logs = select (is_on (some u) t) s.db.request_logs in
    let s' = (rollup_daily_usage e target s).1 in
    let once = rollup_figures e target u s in
    let again : figures u t (rollup_daily_usage e target s').1
        ≡ measured (select (is_on (some u) t) s'.db.request_logs) (figures u t s') =
      rollup_figures e target u s' in
    (
      once,
      loop_others t u d 0 gs s other,
      again
          ∙ ap (λ rs. measured (select (is_on (some u) t) rs) (figures u t s')) (loop_logs t 0 gs s)
          ∙ ap (measured logs) once
          ∙ measured-twice logs (figures u t s)
          ∙ sym once,
    )
