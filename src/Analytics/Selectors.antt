-- ===== src/Analytics/Selectors.antt =====
-- apps/analytics/selectors.py.
use saas_backend_api.Prelude.{
  ℕ, zero, suc, ◌+◌, ◌-◌, ◌*◌, ◌/◌, Bool, true, false, Option, none, some, List, [], ◌∷◌, length,
  leb, ◌==◌, ◌&&◌, if◌then◌else◌, select, take, exists, update_where,
}
use saas_backend_api.Clock.{day, date_of, civil, month_start}
use saas_backend_api.Analytics.Models.{RequestLog, DailyUsage}
use saas_backend_api.Store.{Db, Env, ok, Action, gets, ◌>>=◌, modify, draw}

-- `user=None` is every user; `some u` is one user.
abbrev pub log_in_scope : Option ℕ → RequestLog → Bool
log_in_scope none r = true
log_in_scope (some u) r = elim r.user [ none ↦ false | some v ↦ v == u ]

abbrev pub usage_in_scope : Option ℕ → DailyUsage → Bool
usage_in_scope none d = true
usage_in_scope (some u) d = d.user == u

-- `Q(status_code__gte=400)`
abbrev pub is_error : RequestLog → Bool
is_error r = leb 400 r.status_code

-- `_scope(filter(created_at__gte=since), user)`
abbrev pub is_recent : ℕ → Option ℕ → RequestLog → Bool
is_recent since user r = leb since r.created_at && log_in_scope user r

unfoldable pub sum_ms : List RequestLog → ℕ
sum_ms [] = 0
sum_ms (r ∷ rs) = r.response_ms + sum_ms rs

-- `int(Avg("response_ms") or 0)`
unfoldable pub avg_ms : List RequestLog → ℕ
avg_ms rs = if length rs == 0 then 0 else sum_ms rs / length rs

-- `success_rate` is the quotient of the good requests by all of them, before it is printed as a
-- percentage rounded to two places; no request counts as 100 percent.
pub record UsageSummary : Type 0 where
  pub window_days : ℕ
  pub total_requests : ℕ
  pub error_requests : ℕ
  pub success_rate : ℕ × ℕ
  pub avg_response_ms : ℕ

abbrev pub rate : ℕ → ℕ → ℕ × ℕ
rate total errors = if total == 0 then (1, 1) else (total - errors, total)

unfoldable pub usage_summary : Env → Option ℕ → ℕ → Db → UsageSummary
usage_summary e user days db =
    let qs = select (is_recent (e.now - days * day) user) db.request_logs in
    let total = length qs in
    let errors = length (select is_error qs) in
    record {
      window_days = days;
      total_requests = total;
      error_requests = errors;
      success_rate = rate total errors;
      avg_response_ms = avg_ms qs;
    }

-- One group of a query, or one point of a chart: a day or a month with its counts.
pub record Point : Type 0 where
  pub key : ℕ
  pub count : ℕ
  pub errors : ℕ

-- A request added to the groups of a `GROUP BY`: the counts of its key grow, or a group is new.
unfoldable pub add_to : ℕ → ℕ → ℕ → List Point → List Point
add_to k count errors [] = record { key = k; count = count; errors = errors } ∷ []
add_to k count errors (p ∷ ps) =
    if p.key == k
    then record p { count = p.count + count; errors = p.errors + errors } ∷ ps
    else p ∷ add_to k count errors ps

abbrev pub error_weight : RequestLog → ℕ
error_weight r = if is_error r then 1 else 0

-- `annotate(day=TruncDate("created_at")).values("day").annotate(count=..., errors=...)`
unfoldable pub group_by_day : List RequestLog → List Point
group_by_day [] = []
group_by_day (r ∷ rs) = add_to (date_of r.created_at) 1 (error_weight r) (group_by_day rs)

-- `by_day.get(day, {"count": 0, "errors": 0})`
unfoldable pub get_point : ℕ → List Point → Point
get_point k [] = record { key = k; count = 0; errors = 0 }
get_point k (p ∷ ps) = if p.key == k then p else get_point k ps

-- The loop that fills the missing days, from the day `d` on.
unfoldable pub fill_days : ℕ → ℕ → List Point → List Point
fill_days zero d groups = []
fill_days (suc n) d groups = get_point d groups ∷ fill_days n (suc d) groups

-- `_scope(filter(created_at__date__gte=start), user)`
abbrev pub is_since : ℕ → Option ℕ → RequestLog → Bool
is_since start user r = leb start (date_of r.created_at) && log_in_scope user r

-- The first day of the chart, `today - (days - 1)`.
abbrev pub chart_start : ℕ → ℕ → ℕ
chart_start now days = date_of now - (days - 1)

unfoldable pub daily_chart : Env → Option ℕ → ℕ → Db → List Point
daily_chart e user days db =
    let start = chart_start e.now days in
    fill_days days start (group_by_day (select (is_since start user) db.request_logs))

-- A month as a number, in the order of `strftime("%Y-%m")`.
unfoldable pub month_of : ℕ → ℕ
month_of n = let d = civil n in d.year * 12 + d.month

-- The first day that `monthly_chart` reads.
unfoldable pub earliest_day : ℕ → ℕ → ℕ
earliest_day today months = month_start (month_start today - 31 * (months - 1))

-- The loop over the rows: `setdefault` and the two additions.
unfoldable pub fill_buckets : List DailyUsage → List Point → List Point
fill_buckets [] buckets = buckets
fill_buckets (d ∷ ds) buckets =
    fill_buckets ds (add_to (month_of d.date) d.request_count d.error_count buckets)

-- `sorted(buckets.items())`: the keys are distinct, so the counts are not compared.
unfoldable pub insert_sorted : Point → List Point → List Point
insert_sorted p [] = p ∷ []
insert_sorted p (q ∷ ps) = if leb p.key q.key then p ∷ q ∷ ps else q ∷ insert_sorted p ps

unfoldable pub sort_points : List Point → List Point
sort_points [] = []
sort_points (p ∷ ps) = insert_sorted p (sort_points ps)

abbrev pub is_charted : ℕ → Option ℕ → DailyUsage → Bool
is_charted earliest user d = leb earliest d.date && usage_in_scope user d

unfoldable pub monthly_chart : Env → Option ℕ → ℕ → Db → List Point
monthly_chart e user months db =
    let earliest = earliest_day (date_of e.now) months in
    sort_points (fill_buckets (select (is_charted earliest user) db.daily_usages) [])

unfoldable pub recent_requests : ℕ → ℕ → Db → List RequestLog
recent_requests user limit db = take limit (select (log_in_scope (some user)) db.request_logs)

-- A group of the rollup: one user's requests of the day.
pub record Group : Type 0 where
  pub user : ℕ
  pub requests : List RequestLog

unfoldable pub group_user : ℕ → RequestLog → List Group → List Group
group_user u r [] = record { user = u; requests = r ∷ [] } ∷ []
group_user u r (g ∷ gs) =
    if g.user == u then record g { requests = r ∷ g.requests } ∷ gs else g ∷ group_user u r gs

-- `filter(created_at__date=target, user__isnull=False).values("user_id")`
unfoldable pub group_by_user : ℕ → List RequestLog → List Group
group_by_user target [] = []
group_by_user target (r ∷ rs) =
    let rest = group_by_user target rs in
    elim r.user [
      | none ↦ rest
      | some u ↦ if date_of r.created_at == target then group_user u r rest else rest
    ]

-- The `defaults` of a rollup row.
abbrev pub with_usage : List RequestLog → DailyUsage → DailyUsage
with_usage rs d = record d {
  request_count = length rs;
  error_count = length (select is_error rs);
  avg_response_ms = avg_ms rs;
}

abbrev pub is_usage_of : ℕ → ℕ → DailyUsage → Bool
is_usage_of user date d = d.user == user && d.date == date

abbrev new_usage : ℕ → ℕ → ℕ → List RequestLog → DailyUsage
new_usage id user date rs = record {
  id = id;
  user = user;
  date = date;
  request_count = length rs;
  error_count = length (select is_error rs);
  avg_response_ms = avg_ms rs;
}

abbrev create_usage : ℕ → Group → Action (Unit {0})
create_usage target g = do
  id ← draw
  modify
      (λ db. record db { daily_usages = new_usage id g.user target g.requests ∷ db.daily_usages })

abbrev update_usage : ℕ → Group → Action (Unit {0})
update_usage target g = modify (λ db. record db {
  daily_usages = update_where (is_usage_of g.user target) (with_usage g.requests) db.daily_usages;
})

-- `DailyUsage.objects.update_or_create(user_id=..., date=..., defaults=...)`
unfoldable pub update_or_create_usage : ℕ → Group → Action (Unit {0})
update_or_create_usage target g = do
  there ← gets (λ db. exists (is_usage_of g.user target) db.daily_usages)
  if there then update_usage target g else create_usage target g

unfoldable pub rollup_loop : ℕ → List Group → ℕ → Action ℕ
rollup_loop target [] count s = (ok count, s)
rollup_loop target (g ∷ gs) count s =
    let (_, s') = update_or_create_usage target g s in rollup_loop target gs (count + 1) s'

-- `target_date or (today - 1)`
abbrev pub target_or : Env → Option ℕ → ℕ
target_or e none = date_of e.now - 1
target_or e (some d) = d

unfoldable pub rollup_daily_usage : Env → Option ℕ → Action ℕ
rollup_daily_usage e target_date = do
  let target = target_or e target_date
  gs ← gets (λ db. group_by_user target db.request_logs)
  rollup_loop target gs 0
