-- ===== src/Analytics/Buckets.antt =====
-- `monthly_chart` of apps/analytics/selectors.py against the calendar: what it shows of each month.
use saas_backend_api.Prelude.{
  ℕ, ◌+◌, ◌*◌, ◌≤◌, ◌≡◌, refl, Option, List, [], ◌∷◌, ◌==◌, ◌&&◌, arith, select, if◌then◌else◌, ◌-◌,
}
use saas_backend_api.Clock.{civil, date_of, month_at, year_of, days_before_year}
use saas_backend_api.Store.{Db, Env}
use saas_backend_api.Analytics.Models.{DailyUsage}
use saas_backend_api.Analytics.Selectors.{
  Point, add_to, get_point, month_of, earliest_day, fill_buckets, insert_sorted, sort_points,
  is_charted, monthly_chart,
}
use saas_backend_api.Analytics.Months.{
  shown, recorded, Ascends, Misses, AreDistinct, fill_buckets-AreDistinct, monthly_chart-conserves,
  Misses-sort_points,
}

-- The requests and the errors of the daily rows whose date is in the month `m` of the year `y`.
unfoldable pub requests_in : ℕ → ℕ → List DailyUsage → ℕ × ℕ
requests_in y m [] = (0, 0)
requests_in y m (d ∷ ds) =
    let rest = requests_in y m ds in
    if (civil d.date).year == y && (civil d.date).month == m
    then (d.request_count + rest.0, d.error_count + rest.1)
    else rest

-- What the points show under a key; a key without a point shows nothing.
abbrev pub shown_at : ℕ → List Point → ℕ × ℕ
shown_at k ps = let p = get_point k ps in (p.count, p.errors)

month_at_bounds : (y n : ℕ) → (1 ≤ month_at y n) × (month_at y n ≤ 12)
unfolding month_at
month_at_bounds y n = ground arith

-- Months of the calendar have different keys.
month_of_key :
    (n y m : ℕ)
    → 1 ≤ m
    → m ≤ 12
    → (month_of n == y * 12 + m) ≡ ((civil n).year == y && (civil n).month == m)
unfolding month_of civil
month_of_key n y m low high =
    ground (arith, month_at_bounds (year_of n) (n - days_before_year (year_of n)))

shown_at-add_to :
    (k j c w : ℕ) (ps : List Point)
    → shown_at k (add_to j c w ps)
      ≡ (if j == k then (c + (shown_at k ps).0, w + (shown_at k ps).1) else shown_at k ps)
unfolding add_to get_point
shown_at-add_to k j c w [] = ground arith
shown_at-add_to k j c w (p ∷ ps) = ground (arith, shown_at-add_to k j c w ps)

shown_at-fill_buckets :
    (y m : ℕ) (ds : List DailyUsage) (ps : List Point)
    → 1 ≤ m
    → m ≤ 12
    → shown_at (y * 12 + m) (fill_buckets ds ps) ≡ (
      (requests_in y m ds).0 + (shown_at (y * 12 + m) ps).0,
      (requests_in y m ds).1 + (shown_at (y * 12 + m) ps).1,
    )
unfolding fill_buckets requests_in
shown_at-fill_buckets y m [] ps low high = ground arith
shown_at-fill_buckets y m (d ∷ ds) ps low high = ground (
  arith,
  shown_at-fill_buckets y m ds (add_to (month_of d.date) d.request_count d.error_count ps),
  shown_at-add_to (y * 12 + m) (month_of d.date) d.request_count d.error_count ps,
  month_of_key d.date y m,
)

shown_at-insert_sorted :
    (k : ℕ) (p : Point) (ps : List Point)
    → Misses p.key ps
    → shown_at k (insert_sorted p ps) ≡ shown_at k (p ∷ ps)
unfolding insert_sorted get_point
shown_at-insert_sorted k p [] h = refl
shown_at-insert_sorted k p (q ∷ ps) (h, hs) = ground (arith, shown_at-insert_sorted k p ps hs, h)

shown_at-sort_points :
    (k : ℕ) (ps : List Point) → AreDistinct ps → shown_at k (sort_points ps) ≡ shown_at k ps
unfolding sort_points AreDistinct get_point
shown_at-sort_points k [] h = refl
shown_at-sort_points k (p ∷ ps) (h, hs) = ground (
  arith,
  shown_at-insert_sorted k p (sort_points ps) (Misses-sort_points p.key ps h),
  shown_at-sort_points k ps hs,
)

-- The monthly chart shows of each month of the calendar exactly the requests and the errors of the
-- daily rows of that month that it reads, each month at most once, in ascending order, and nothing
-- else: in all it shows the requests and the errors of these rows.
pub monthly_chart-by_month :
    (e : Env) (user : Option ℕ) (months y m : ℕ) (db : Db)
    → 1 ≤ m
    → m ≤ 12
    → let rows = select (is_charted (earliest_day (date_of e.now) months) user) db.daily_usages in
      (shown_at (y * 12 + m) (monthly_chart e user months db) ≡ requests_in y m rows)
      × Ascends 0 (monthly_chart e user months db)
      × (shown (monthly_chart e user months db) ≡ recorded rows)
unfolding monthly_chart get_point AreDistinct
monthly_chart-by_month e user months y m db low high =
    let rows = select (is_charted (earliest_day (date_of e.now) months) user) db.daily_usages in
    let buckets = fill_buckets rows [] in
    let (ascends, conserves) = monthly_chart-conserves e user months db in
    (
      ground (
        arith,
        shown_at-sort_points (y * 12 + m) buckets (fill_buckets-AreDistinct rows [] tt),
        shown_at-fill_buckets y m rows [] low high,
      ),
      ascends,
      conserves,
    )
