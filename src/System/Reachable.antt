-- ===== src/System/Reachable.antt =====
-- What holds in every state that the service can reach from empty tables.
use saas_backend_api.Prelude.{ℕ, ◌≤◌, ◌≡◌, refl, arith, String, List, [], ◌∷◌, count, exists, false}
use saas_backend_api.Store.{State}
use saas_backend_api.Subscriptions.Models.{Subscription}
use saas_backend_api.Subscriptions.Selectors.{is_users_active}
use saas_backend_api.Subscriptions.Table.{IsUnique}
use saas_backend_api.Subscriptions.Enrollment.{IsValid}
use saas_backend_api.System.Tables.{has_name, IsTable-count-le}
use saas_backend_api.System.Sound.{IsSound}
use saas_backend_api.System.Calls.{Reach, Reach-Follows}

-- Empty tables, no task queued, nothing drawn.
abbrev pub blank : State
blank = record {
  db = record {
    users = [];
    plans = [];
    subscriptions = [];
    quotas = [];
    api_keys = [];
    verification_tokens = [];
    reset_tokens = [];
    sessions = [];
    blacklist = [];
    outstanding = [];
    request_logs = [];
    daily_usages = [];
  };
  outbox = [];
  draws = 0;
}

blank-IsSound : IsSound blank
blank-IsSound = ground arith

pub Reach-IsSound : (s : State) → Reach blank s → IsSound s
Reach-IsSound s r = (Reach-Follows blank-IsSound r).sound

pub Reach-IsValid : (s : State) → Reach blank s → IsValid s
Reach-IsValid s r =
    let h = Reach-IsSound s r in record { unique = h.subscriptions; ordered = h.quotas }

none_active :
    (u : ℕ) (subs : List Subscription)
    → exists (is_users_active u) subs ≡ false
    → count (is_users_active u) subs ≡ 0
none_active u [] h = refl
none_active u (s ∷ subs) h = ground (arith, none_active u subs)

one_active :
    (u n : ℕ) (subs : List Subscription) → IsUnique n subs → count (is_users_active u) subs ≤ 1
one_active u n [] h = omega arith
one_active u n (s ∷ subs) (a, b, c) =
    ground (arith, none_active s.user subs, one_active u s.id subs c)

-- Whatever operations are called, in whatever order, at whatever times and with whatever outcome,
-- from empty tables on: a user has at most one active subscription, and at most one user has an
-- e-mail address, one key or token a hash, and one session a `jti`.
pub reachable_unique :
    (s : State) (user : ℕ) (text : String)
    → Reach blank s
    → (count (is_users_active user) s.db.subscriptions ≤ 1)
      × (count (has_name (λ u. u.id) (λ u. u.email) text) s.db.users ≤ 1)
      × (count (has_name (λ k. k.id) (λ k. k.key_hash) text) s.db.api_keys ≤ 1)
      × (count (has_name (λ t. t.id) (λ t. t.token_hash) text) s.db.verification_tokens ≤ 1)
      × (count (has_name (λ t. t.id) (λ t. t.token_hash) text) s.db.reset_tokens ≤ 1)
      × (count (has_name (λ r. r.id) (λ r. r.refresh_jti) text) s.db.sessions ≤ 1)
reachable_unique s user text r =
    let h = Reach-IsSound s r in
    (
      one_active user s.draws s.db.subscriptions h.subscriptions,
      IsTable-count-le (λ u. u.id) (λ u. u.email) text s.draws s.db.users h.users,
      IsTable-count-le (λ k. k.id) (λ k. k.key_hash) text s.draws s.db.api_keys h.keys,
      IsTable-count-le (λ t. t.id) (λ t. t.token_hash) text s.draws s.db.verification_tokens
          h.verifications,
      IsTable-count-le (λ t. t.id) (λ t. t.token_hash) text s.draws s.db.reset_tokens h.resets,
      IsTable-count-le (λ r. r.id) (λ r. r.refresh_jti) text s.draws s.db.sessions h.sessions,
    )
