-- ===== src/Subscriptions/Book.antt =====
-- An abstract view of apps/subscriptions/services.py: a book that says on which plan each user is,
-- and what an order does to it.
pub mod Simulation
use saas_backend_api.Prelude.{
  ℕ, ◌≡◌, Bool, true, false, String, Option, none, some, List, [], ◌∷◌, ◌==◌, if◌then◌else◌, first,
  not,
}
use saas_backend_api.Clock.{fifty_years_on}
use saas_backend_api.Store.{Env, State, Result, ok, err}
use saas_backend_api.Subscriptions.Models.{free_slug, Plan, Subscription}
use saas_backend_api.Subscriptions.Selectors.{get_active_subscription, has_slug}
use saas_backend_api.Subscriptions.Services.{subscribe, cancel, enroll_in_free_plan}
use saas_backend_api.Subscriptions.Enrollment.{IsValid}

-- What a user can ask for.
pub data Order : Type 0 where
  to_subscribe : ℕ → String → Order
  to_cancel to_enroll : ℕ → Order

-- The plan that each user is on, if any.
abbrev pub Book : Type 0
Book = ℕ → Option ℕ

abbrev pub put : ℕ → ℕ → Book → Book
put user plan b w = if w == user then some plan else b w

abbrev pub is_plan : ℕ → Option ℕ → Bool
is_plan plan none = false
is_plan plan (some p) = p == plan

-- To move a user to a plan of the catalogue, where that is allowed: whether the order is accepted,
-- and the book after it.
abbrev pub move : ℕ → Bool → Option Plan → Book → Bool × Book
move user allowed none b = (false, b)
move user allowed (some plan) b = if allowed then (true, put user plan.id b) else (false, b)

abbrev pub is_there : Option ℕ → Bool
is_there none = false
is_there (some p) = true

abbrev pub differs : Option Plan → Option ℕ → Bool
differs none p = true
differs (some plan) p = not (is_plan plan.id p)

-- An order's answer by the catalogue and the book alone. A change goes to a known plan that is
-- another one; a cancellation needs a plan and leads to the Free plan; an enrolment needs that there
-- is none.
abbrev pub obey : List Plan → Order → Book → Bool × Book
obey plans (to_subscribe user slug) b =
    let plan = first (has_slug slug) plans in move user (differs plan (b user)) plan b
obey plans (to_cancel user) b = move user (is_there (b user)) (first (has_slug free_slug) plans) b
obey plans (to_enroll user) b =
    move user (not (is_there (b user))) (first (has_slug free_slug) plans) b

-- The code's operations, with whether they returned.
abbrev pub is_ok : {A : Type 0} → Result A → Bool
is_ok (ok a) = true
is_ok (err e) = false

abbrev serve : Env → Order → State → Bool × State
serve e (to_subscribe user slug) s = let (r, t) = subscribe e user slug s in (is_ok r, t)
serve e (to_cancel user) s = let (r, t) = cancel e user s in (is_ok r, t)
serve e (to_enroll user) s = let (r, t) = enroll_in_free_plan e user s in (is_ok r, t)

abbrev pub plan_on : Option Subscription → Option ℕ
plan_on none = none
plan_on (some sub) = some sub.plan

-- The book that the tables stand for.
abbrev pub view : State → Book
view s u = plan_on (get_active_subscription u s.db)

-- The tables are valid, with this catalogue, and stand for the book.
pub record Matches (plans : List Plan) (b : Book) (s : State) : Type 0 where
  pub valid : IsValid s
  pub catalogue : s.db.plans ≡ plans
  pub agrees : (u : ℕ) → view s u ≡ b u

-- Orders one after the other: whether each was accepted, and the book or the state at the end.
unfoldable pub obey_all : List Plan → List (Env × Order) → Book → List Bool × Book
obey_all plans [] b = ([], b)
obey_all plans ((e, o) ∷ os) b =
    let (a, b') = obey plans o b in let (rest, b'') = obey_all plans os b' in (a ∷ rest, b'')

unfoldable pub serve_all : List (Env × Order) → State → List Bool × State
serve_all [] s = ([], s)
serve_all ((e, o) ∷ os) s =
    let (a, s') = serve e o s in let (rest, s'') = serve_all os s' in (a ∷ rest, s'')

-- The date exists fifty years after the time of an order.
abbrev pub IsDated : Env × Order → Type 0
IsDated (e, o) = (end : ℕ) × (fifty_years_on e.now ≡ some end)
