-- ===== src/Analytics/Groups.antt =====
-- The groups of `rollup_daily_usage` of apps/analytics/selectors.py: a user's requests of a day.
use saas_backend_api.Prelude.{
  ℕ, ◌≡◌, ◌≢◌, refl, Bool, true, false, some, List, [], ◌∷◌, ◌==◌, arith, length, select, exists,
  if◌then◌else◌, Option-cases, inl, inr,
}
use saas_backend_api.Analytics.Models.{RequestLog}
use saas_backend_api.Analytics.Selectors.{Group, group_user, group_by_user}
use saas_backend_api.Analytics.Charts.{is_on}

abbrev pub has_user : ℕ → Group → Bool
has_user u g = g.user == u

-- No two groups have one user, and none is empty.
abbrev pub AreGroups : List Group → Type 0
AreGroups [] = Unit
AreGroups (g ∷ gs) = (exists (has_user g.user) gs ≡ false) × (length g.requests ≢ 0) × AreGroups gs

abbrev pub requests_in : ℕ → List Group → List RequestLog
requests_in u [] = []
requests_in u (g ∷ gs) = if g.user == u then g.requests else requests_in u gs

exists-group_user :
    (u v : ℕ) (r : RequestLog) (gs : List Group)
    → exists (has_user u) (group_user v r gs) ≡ (if v == u then true else exists (has_user u) gs)
unfolding group_user
exists-group_user u v r [] = ground arith
exists-group_user u v r (g ∷ gs) = ground (arith, exists-group_user u v r gs)

AreGroups-group_user :
    (v : ℕ) (r : RequestLog) (gs : List Group) → AreGroups gs → AreGroups (group_user v r gs)
unfolding group_user
AreGroups-group_user v r [] h = (refl, omega arith, tt)
AreGroups-group_user v r (g ∷ gs) (one, some_there, rest) =
    ground (arith, exists-group_user g.user v r gs, AreGroups-group_user v r gs rest)

requests_in-group_user :
    (u v : ℕ) (r : RequestLog) (gs : List Group)
    → requests_in u (group_user v r gs)
      ≡ (if v == u then r ∷ requests_in u gs else requests_in u gs)
unfolding group_user
requests_in-group_user u v r [] = ground arith
requests_in-group_user u v r (g ∷ gs) = ground (arith, requests_in-group_user u v r gs)

module _ (t : ℕ) where
  pub group_by_user-AreGroups : (rs : List RequestLog) → AreGroups (group_by_user t rs)
  unfolding group_by_user
  group_by_user-AreGroups [] = tt
  group_by_user-AreGroups (r ∷ rs) = elim (Option-cases r.user) [
    | inl nobody ↦ ground (arith, nobody, group_by_user-AreGroups rs)
    | inr (v, by) ↦ ground (
      arith,
      by,
      group_by_user-AreGroups rs,
      AreGroups-group_user v r (group_by_user t rs) (group_by_user-AreGroups rs),
    )
  ]

  pub requests_in-group_by_user :
      (u : ℕ) (rs : List RequestLog)
      → requests_in u (group_by_user t rs) ≡ select (is_on (some u) t) rs
  unfolding group_by_user
  requests_in-group_by_user u [] = refl
  requests_in-group_by_user u (r ∷ rs) = elim (Option-cases r.user) [
    | inl nobody ↦ ground (arith, nobody, requests_in-group_by_user u rs)
    | inr (v, by) ↦ ground (
      arith,
      by,
      requests_in-group_by_user u rs,
      requests_in-group_user u v r (group_by_user t rs),
    )
  ]
