-- ===== src/Analytics/Charts.antt =====
-- `daily_chart` of apps/analytics/selectors.py, and a direct count of each day's requests.
use saas_backend_api.Prelude.{
  ℕ, zero, suc, ◌+◌, ◌≤◌, ◌≡◌, ◌≢◌, refl, Bool, Option, List, [], ◌∷◌, ◌==◌, ◌&&◌, arith, count,
  select, Bool-cases, inl, inr,
}
use saas_backend_api.Clock.{date_of}
use saas_backend_api.Store.{Db, Env}
use saas_backend_api.Analytics.Models.{RequestLog}
use saas_backend_api.Analytics.Selectors.{
  log_in_scope, is_error, error_weight, Point, add_to, group_by_day, get_point, fill_days, is_since,
  chart_start, daily_chart,
}

-- The requests of one day in the scope of the query.
abbrev pub is_on : Option ℕ → ℕ → RequestLog → Bool
is_on user k r = date_of r.created_at == k && log_in_scope user r

-- The point that the chart should have for the day `k`.
abbrev pub tally : Option ℕ → ℕ → List RequestLog → Point
tally user k logs = record {
  key = k;
  count = count (is_on user k) logs;
  errors = count (λ r. is_on user k r && is_error r) logs;
}

-- The points of `n` days from the day `k` on.
unfoldable pub tallies : Option ℕ → ℕ → ℕ → List RequestLog → List Point
tallies user zero k logs = []
tallies user (suc n) k logs = tally user k logs ∷ tallies user n (suc k) logs

get_point-key : (k : ℕ) (ps : List Point) → (get_point k ps).key ≡ k
unfolding get_point
get_point-key k [] = refl
get_point-key k (p ∷ ps) = ground (arith, get_point-key k ps)

-- Adding to a group's counts changes the point of its key alone.
get_point-add_to_same :
    (k c w : ℕ) (ps : List Point)
    → get_point k (add_to k c w ps)
      ≡ record { key = k; count = (get_point k ps).count + c; errors = (get_point k ps).errors + w }
unfolding get_point add_to
get_point-add_to_same k c w [] = ground arith
get_point-add_to_same k c w (p ∷ ps) = elim (Bool-cases (p.key == k)) [
  | inl hit ↦ ground (arith, hit)
  | inr miss ↦ ground (arith, get_point-add_to_same k c w ps, miss)
]

get_point-add_to_other :
    (k j c w : ℕ) (ps : List Point) → j ≢ k → get_point k (add_to j c w ps) ≡ get_point k ps
unfolding get_point add_to
get_point-add_to_other k j c w [] ne = ground arith
get_point-add_to_other k j c w (p ∷ ps) ne = ground (arith, get_point-add_to_other k j c w ps ne)

module _ (user : Option ℕ) (start k : ℕ) (from : start ≤ k) where
  -- The group of a day that is read holds the counts of that day.
  get_point-group_by_day :
      (logs : List RequestLog)
      → get_point k (group_by_day (select (is_since start user) logs)) ≡ tally user k logs
  unfolding group_by_day get_point
  get_point-group_by_day [] = refl
  get_point-group_by_day (r ∷ rs) =
      let rest = group_by_day (select (is_since start user) rs) in
      elim (Bool-cases (date_of r.created_at == k)) [
        | inl here ↦ ground (
          arith,
          get_point-group_by_day rs,
          get_point-add_to_same k 1 (error_weight r) rest,
          here,
        )
        | inr there ↦ ground (
          arith,
          get_point-group_by_day rs,
          get_point-add_to_other k (date_of r.created_at) 1 (error_weight r) rest,
          there,
        )
      ]

fill_days-tallies :
    (user : Option ℕ) (start n k : ℕ) (logs : List RequestLog)
    → start ≤ k
    → fill_days n k (group_by_day (select (is_since start user) logs)) ≡ tallies user n k logs
unfolding fill_days tallies
fill_days-tallies user start zero k logs from = refl
fill_days-tallies user start (suc n) k logs from = ground (
  arith,
  get_point-group_by_day user start k from logs,
  fill_days-tallies user start n (suc k) logs (omega arith),
)

-- The daily chart has one point for each of the days that end today, in order and without gaps,
-- and a point counts the requests, and the failed ones, of its day in the scope of the query.
pub daily_chart-tallies :
    (e : Env) (user : Option ℕ) (days : ℕ) (db : Db)
    → daily_chart e user days db ≡ tallies user days (chart_start e.now days) db.request_logs
unfolding daily_chart
daily_chart-tallies e user days db =
    let start = chart_start e.now days in
    fill_days-tallies user start days start db.request_logs (omega arith)
