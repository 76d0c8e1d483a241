-- ===== src/Analytics/Months.antt =====
-- `monthly_chart` of apps/analytics/selectors.py: its totals and its order.
use saas_backend_api.Prelude.{
  ℕ, suc, ◌+◌, ◌≤◌, ◌≡◌, refl, false, Option, List, [], ◌∷◌, ◌==◌, leb, arith, select, All,
  Bool-cases, inl, inr,
}
use saas_backend_api.Clock.{date_of}
use saas_backend_api.Store.{Db, Env}
use saas_backend_api.Analytics.Models.{DailyUsage}
use saas_backend_api.Analytics.Selectors.{
  Point, add_to, month_of, earliest_day, fill_buckets, insert_sorted, sort_points, is_charted,
  monthly_chart,
}

-- The requests and the errors that the points show together.
unfoldable pub shown : List Point → ℕ × ℕ
shown [] = (0, 0)
shown (p ∷ ps) = (p.count + (shown ps).0, p.errors + (shown ps).1)

-- The requests and the errors of the daily rows together.
unfoldable pub recorded : List DailyUsage → ℕ × ℕ
recorded [] = (0, 0)
recorded (d ∷ ds) = (d.request_count + (recorded ds).0, d.error_count + (recorded ds).1)

-- The keys grow, and all are above `n`.
unfoldable pub Ascends : ℕ → List Point → Type 0
Ascends n [] = Unit
Ascends n (p ∷ ps) = (n ≤ p.key) × Ascends (suc p.key) ps

-- No point has the key `k`.
abbrev pub Misses : ℕ → List Point → Type 0
Misses k ps = All (λ p. (p.key == k) ≡ false) ps

unfoldable pub AreDistinct : List Point → Type 0
AreDistinct [] = Unit
AreDistinct (p ∷ ps) = Misses p.key ps × AreDistinct ps

shown-add_to :
    (k c w : ℕ) (ps : List Point) → shown (add_to k c w ps) ≡ (c + (shown ps).0, w + (shown ps).1)
unfolding shown add_to
shown-add_to k c w [] = refl
shown-add_to k c w (p ∷ ps) = ground (arith, shown-add_to k c w ps)

shown-fill_buckets :
    (ds : List DailyUsage) (ps : List Point)
    → shown (fill_buckets ds ps) ≡ ((recorded ds).0 + (shown ps).0, (recorded ds).1 + (shown ps).1)
unfolding fill_buckets recorded shown
shown-fill_buckets [] ps = ground arith
shown-fill_buckets (d ∷ ds) ps = ground (
  arith,
  shown-fill_buckets ds (add_to (month_of d.date) d.request_count d.error_count ps),
  shown-add_to (month_of d.date) d.request_count d.error_count ps,
)

shown-insert_sorted : (p : Point) (ps : List Point) → shown (insert_sorted p ps) ≡ shown (p ∷ ps)
unfolding insert_sorted shown
shown-insert_sorted p [] = refl
shown-insert_sorted p (q ∷ ps) = ground (arith, shown-insert_sorted p ps)

shown-sort_points : (ps : List Point) → shown (sort_points ps) ≡ shown ps
unfolding sort_points shown
shown-sort_points [] = refl
shown-sort_points (p ∷ ps) =
    ground (arith, shown-insert_sorted p (sort_points ps), shown-sort_points ps)

Misses-add_to :
    (j k c w : ℕ) (ps : List Point) → (k == j) ≡ false → Misses j ps → Misses j (add_to k c w ps)
unfolding add_to
Misses-add_to j k c w [] ne h = (ne, tt)
Misses-add_to j k c w (p ∷ ps) ne (h, hs) = elim (Bool-cases (p.key == k)) [
  | inl hit ↦ rw hit (h, hs)
  | inr miss ↦ rw miss (h, Misses-add_to j k c w ps ne hs)
]

add_to-AreDistinct : (k c w : ℕ) (ps : List Point) → AreDistinct ps → AreDistinct (add_to k c w ps)
unfolding add_to AreDistinct
add_to-AreDistinct k c w [] h = (tt, tt)
add_to-AreDistinct k c w (p ∷ ps) (h, hs) = elim (Bool-cases (p.key == k)) [
  | inl hit ↦ rw hit (h, hs)
  | inr miss ↦
      rw miss
        (Misses-add_to p.key k c w ps (ground (arith, miss)) h, add_to-AreDistinct k c w ps hs)
]

pub fill_buckets-AreDistinct :
    (ds : List DailyUsage) (ps : List Point) → AreDistinct ps → AreDistinct (fill_buckets ds ps)
unfolding fill_buckets
fill_buckets-AreDistinct [] ps h = h
fill_buckets-AreDistinct (d ∷ ds) ps h =
    fill_buckets-AreDistinct ds (add_to (month_of d.date) d.request_count d.error_count ps)
      (add_to-AreDistinct (month_of d.date) d.request_count d.error_count ps h)

Misses-insert_sorted :
    (k : ℕ) (p : Point) (ps : List Point) → Misses k (p ∷ ps) → Misses k (insert_sorted p ps)
unfolding insert_sorted
Misses-insert_sorted k p [] h = h
Misses-insert_sorted k p (q ∷ ps) (hp, (hq, hs)) = elim (Bool-cases (leb p.key q.key)) [
  | inl before ↦ rw before (hp, (hq, hs))
  | inr after ↦ rw after (hq, Misses-insert_sorted k p ps (hp, hs))
]

pub Misses-sort_points : (k : ℕ) (ps : List Point) → Misses k ps → Misses k (sort_points ps)
unfolding sort_points
Misses-sort_points k [] h = h
Misses-sort_points k (p ∷ ps) (h, hs) =
    Misses-insert_sorted k p (sort_points ps) (h, Misses-sort_points k ps hs)

insert_sorted-Ascends :
    (n : ℕ) (p : Point) (ps : List Point)
    → n ≤ p.key
    → Misses p.key ps
    → Ascends n ps
    → Ascends n (insert_sorted p ps)
unfolding insert_sorted Ascends
insert_sorted-Ascends n p [] le h a = (le, tt)
insert_sorted-Ascends n p (q ∷ ps) le (h, hs) (a, rest) = elim (Bool-cases (leb p.key q.key)) [
  | inl before ↦ rw before (le, (ground arith, rest))
  | inr after ↦ rw after (a, insert_sorted-Ascends (suc q.key) p ps (ground arith) hs rest)
]

sort_points-Ascends : (ps : List Point) → AreDistinct ps → Ascends 0 (sort_points ps)
unfolding sort_points Ascends AreDistinct
sort_points-Ascends [] h = tt
sort_points-Ascends (p ∷ ps) (h, hs) =
    insert_sorted-Ascends 0 p (sort_points ps) (omega arith) (Misses-sort_points p.key ps h)
      (sort_points-Ascends ps hs)

-- The monthly chart shows each month at most once, in ascending order, and shows in all exactly the
-- requests and the errors of the daily rows that it reads.
pub monthly_chart-conserves :
    (e : Env) (user : Option ℕ) (months : ℕ) (db : Db)
    → let rows = select (is_charted (earliest_day (date_of e.now) months) user) db.daily_usages in
      Ascends 0 (monthly_chart e user months db)
      × (shown (monthly_chart e user months db) ≡ recorded rows)
unfolding monthly_chart shown AreDistinct
monthly_chart-conserves e user months db =
    let rows = select (is_charted (earliest_day (date_of e.now) months) user) db.daily_usages in
    (
      sort_points-Ascends (fill_buckets rows []) (fill_buckets-AreDistinct rows [] tt),
      ground (arith, shown-sort_points (fill_buckets rows []), shown-fill_buckets rows []),
    )
