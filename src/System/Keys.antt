-- ===== src/System/Keys.antt =====
-- The services of apps/api_keys keep the tables sound, and so do the log and the rollup of
-- apps/analytics and the seed command.
use saas_backend_api.Users.Selectors.{user_by_id}
use saas_backend_api.Subscriptions.Seed.{update_or_create_plan, handle, Spec, seed_loop}
use saas_backend_api.Analytics.Selectors.{
  update_or_create_usage, rollup_daily_usage, rollup_loop, Group,
}
use saas_backend_api.Common.Requests.{Request, Response}
use saas_backend_api.Users.Models.{User}
use saas_backend_api.System.Kept.{IsKept-refl}
use saas_backend_api.Analytics.Middleware.{is_storable, log_row, record_analytics, with_log}
use saas_backend_api.ApiKeys.Models.{ApiKey, is_active, marked_used, revoked}
use saas_backend_api.ApiKeys.Services.{
  revoke_key, rotate_api_key, create_api_key, revoke_api_key, insert_key, plan_max, split_prefix,
  compute_hash,
}
use saas_backend_api.ApiKeys.Authentication.{
  check_key, authenticate, mark, accept, Extracted, extract_key, is_candidate, answer, matching,
}
use saas_backend_api.Subscriptions.Models.{Subscription}
use saas_backend_api.Prelude.{
  inl, inr, ◌+◌, ℕ, refl, arith, String, Option, none, some, List, [], ◌∷◌, ◌==◌, select, suc,
  Bool-cases, Option-cases, str_eq,
}
use saas_backend_api.ApiKeys.Authentication.{no_key, key, bad_header, undecodable}
use saas_backend_api.Store.{Env, State}
use saas_backend_api.System.Sound.{
  keeping, IsSound, IsSoundAt-mono, Follows, Keeps, KeepsFrom, pure-Keeps, Follows-refl,
  Follows-trans,
}
use saas_backend_api.System.Tables.{IsTable-update_where, IsClosed-cons, IsClosed-update_where}
use saas_backend_api.System.Billing.{record_request-Keeps}

insert_key-KeepsFrom : (k : ApiKey) → KeepsFrom k.id (insert_key k)
insert_key-KeepsFrom k = record {
  keeps = λ s h lt. ground (
    arith,
    IsSoundAt-mono k.id s.draws s.db,
    λ (c : String). IsClosed-cons (λ k. k.id) (λ k. k.key_hash) is_active c k s.db.api_keys,
  );
}

plan_max-Keeps : (found : Option Subscription) → Keeps (plan_max found)
plan_max-Keeps none = pure-Keeps 1
plan_max-Keeps (some sub) = search keeping depth 20

pub create_api_key-Keeps : (e : Env) (user : ℕ) (name : String) → Keeps (create_api_key e user name)
unfolding create_api_key
create_api_key-Keeps e user name = search (keeping, plan_max-Keeps, insert_key-KeepsFrom) depth 20

revoke_key-Keeps : (e : Env) (id : ℕ) → Keeps (revoke_key e id)
revoke_key-Keeps e id = record {
  keeps = λ s h. ground (
    arith,
    IsTable-update_where (λ k. k.id) (λ k. k.key_hash) (λ k. k.id == id) (revoked e.now) (λ k. refl)
        (λ k. refl) s.draws s.db.api_keys h.keys,
    λ (c : String).
        IsClosed-update_where (λ k. k.id) (λ k. k.key_hash) is_active (λ k. k.id == id)
          (revoked e.now) (λ k. refl) (λ k d. refl) c s.db.api_keys,
  );
}

pub revoke_api_key-Keeps : (e : Env) (user id : ℕ) → Keeps (revoke_api_key e user id)
unfolding revoke_api_key
revoke_api_key-Keeps e user id = search (keeping, revoke_key-Keeps) depth 20

pub rotate_api_key-Keeps : (e : Env) (user id : ℕ) → Keeps (rotate_api_key e user id)
unfolding rotate_api_key
rotate_api_key-Keeps e user id = search (keeping, revoke_key-Keeps, create_api_key-Keeps) depth 20

mark-Follows : (e : Env) (k : ApiKey) (s : State) → IsSound s → Follows s (mark e k s)
mark-Follows e k s h = ground (
  arith,
  IsTable-update_where (λ r. r.id) (λ r. r.key_hash) (λ r. r.id == k.id) (marked_used e.now)
      (λ r. refl) (λ r. refl) s.draws s.db.api_keys h.keys,
  λ (c : String).
      IsClosed-update_where (λ r. r.id) (λ r. r.key_hash) is_active (λ r. r.id == k.id)
        (marked_used e.now) (λ r. refl) (λ r d. d) c s.db.api_keys,
)

accept-Follows :
    (e : Env) (k : ApiKey) (found : Option User) (s : State)
    → IsSound s
    → Follows s (accept e k found s).1
accept-Follows e k none s h = Follows-refl s h
accept-Follows e k (some user) s h = ground (arith, mark-Follows e k s h)

check_key-Follows :
    (e : Env) (text : String) (s : State) → IsSound s → Follows s (check_key e text s).1
check_key-Follows e text s h =
    let candidates = select (is_candidate (split_prefix text)) s.db.api_keys in
    elim (Option-cases (matching (compute_hash e text) candidates)) [
      | inl missing ↦ rw (missing, check_key) (Follows-refl s h)
      | inr (k, found) ↦ rw (found, check_key) (accept-Follows e k (user_by_id k.user s.db) s h)
    ]

answer-Follows :
    (e : Env) (extracted : Extracted) (s : State) → IsSound s → Follows s (answer e extracted s).1
answer-Follows e no_key s h = Follows-refl s h
answer-Follows e (key plaintext) s h = elim (Bool-cases (str_eq plaintext "")) [
  | inl empty ↦ rw empty (Follows-refl s h)
  | inr given ↦ rw given (check_key-Follows e plaintext s h)
]
answer-Follows e bad_header s h = Follows-refl s h
answer-Follows e undecodable s h = Follows-refl s h

-- Authentication by a key writes no more than the time of its use.
pub authenticate-Follows :
    (e : Env) (header : Option String) (words : List (Option String)) (s : State)
    → IsSound s
    → Follows s (authenticate e header words s).1
unfolding authenticate
authenticate-Follows e header words s h = answer-Follows e (extract_key e header words) s h

pub record_analytics-Follows :
    (e : Env) (user : User) (request : Request) (response : Response) (s : State)
    → IsSound s
    → Follows s (record_analytics e user request response s)
unfolding record_analytics
record_analytics-Follows e user request response s h =
    let logged = with_log e user request response s in
    let sound : IsSound logged = ground (arith, IsSoundAt-mono s.draws (suc s.draws) s.db) in
    let next = (record_request-Keeps e user.id).keeps logged sound in
    elim (Bool-cases (is_storable e (log_row e s.draws user request response))) [
      | inl stored ↦
          rw stored
            (record { sound = next.sound; later = omega (arith, next.later); kept = next.kept })
      | inr refused ↦ rw refused (record {
        sound = IsSoundAt-mono s.draws (suc s.draws) s.db (omega arith) h;
        later = omega arith;
        kept = IsKept-refl s.db;
      })
    ]

update_or_create_usage-Keeps : (target : ℕ) (g : Group) → Keeps (update_or_create_usage target g)
unfolding update_or_create_usage
update_or_create_usage-Keeps target g = record {
  keeps = λ s h. ground (arith, IsSoundAt-mono s.draws (suc s.draws) s.db);
}

rollup_loop-Keeps : (target : ℕ) (gs : List Group) (n : ℕ) → Keeps (rollup_loop target gs n)
unfolding rollup_loop
rollup_loop-Keeps target [] n = pure-Keeps n
rollup_loop-Keeps target (g ∷ gs) n = record {
  keeps = λ s h.
      let t = (update_or_create_usage target g s).1 in
      let before = (update_or_create_usage-Keeps target g).keeps s h in
      Follows-trans s t (rollup_loop target gs (n + 1) t).1 before
        ((rollup_loop-Keeps target gs (n + 1)).keeps t before.sound);
}

pub rollup_daily_usage-Keeps : (e : Env) (target : Option ℕ) → Keeps (rollup_daily_usage e target)
unfolding rollup_daily_usage
rollup_daily_usage-Keeps e target = search (keeping, rollup_loop-Keeps) depth 20

update_or_create_plan-Keeps : (spec : Spec) → Keeps (update_or_create_plan spec)
unfolding update_or_create_plan
update_or_create_plan-Keeps spec = record {
  keeps = λ s h. ground (arith, IsSoundAt-mono s.draws (suc s.draws) s.db);
}

pub handle-Keeps : Keeps handle
unfolding handle seed_loop
handle-Keeps = search (keeping, update_or_create_plan-Keeps) depth 20
