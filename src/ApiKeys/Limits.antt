-- ===== src/ApiKeys/Limits.antt =====
-- `create_api_key` and `rotate_api_key` of apps/api_keys/services.py, and the plan's limit.
use saas_backend_api.Prelude.{
  ℕ, suc, ◌+◌, ◌<◌, ◌≤◌, ◌≡◌, true, false, String, none, some, ◌∷◌, leb, arith, first, exists,
  count, update_where, Bool-cases, inl, inr, ◌⊎◌, subst, first-holds, ◌∙◌,
}
use saas_backend_api.Store.{Env, State, ok, err}
use saas_backend_api.Subscriptions.Models.{Plan, Subscription}
use saas_backend_api.Subscriptions.Selectors.{get_active_subscription, plan_by_id}
use saas_backend_api.ApiKeys.Models.{ApiKey, is_active, revoked}
use saas_backend_api.ApiKeys.Services.{
  IssuedKey, is_users_active_key, is_owned_key, limit_error, new_key, plaintext_key, compute_hash,
  create_api_key, rotate_api_key,
}
use saas_backend_api.ApiKeys.Table.{has_hash, has_id, IsKeyed, count-revoke, exists-revoke}

-- The active keys of a user.
abbrev pub active_keys : ℕ → State → ℕ
active_keys user s = count (is_users_active_key user) s.db.api_keys

-- The next key text is new: its hash is not in the table.
abbrev pub IsNewSecret : Env → State → Type 0
IsNewSecret e s = exists (has_hash (compute_hash e (plaintext_key e s.draws))) s.db.api_keys ≡ false

-- The key that is created next, and the state after it.
abbrev pub issued : Env → ℕ → String → State → IssuedKey
issued e user name s = record {
  plaintext = plaintext_key e s.draws;
  api_key = new_key e user name (suc s.draws) (plaintext_key e s.draws);
}

abbrev pub after_issue : Env → ℕ → String → State → State
after_issue e user name s = record s {
  draws = suc (suc s.draws);
  db = record s.db { api_keys = (issued e user name s).api_key ∷ s.db.api_keys };
}

-- The number of active keys that a user's plan allows is `limit`.
pub data Allows (user limit : ℕ) (s : State) : Type 0 where
  no_plan : get_active_subscription user s.db ≡ none → limit ≡ 1 → Allows user limit s
  on_plan :
      (sub : Subscription) (plan : Plan)
      → get_active_subscription user s.db ≡ some sub
      → plan_by_id sub.plan s.db ≡ some plan
      → plan.max_api_keys ≡ limit
      → Allows user limit s

-- Below the plan's limit a key is issued, and the user's active keys are one more, within the
-- limit; at the limit the request is refused with a 403 that tells the limit and the count, and the
-- tables are as before. The hash of the next key is not in the table.
pub create_api_key-limit :
    (e : Env) (user limit : ℕ) (name : String) (s : State)
    → Allows user limit s
    → IsNewSecret e s
    → ((active_keys user s < limit)
        × (create_api_key e user name s ≡ (ok (issued e user name s), after_issue e user name s))
        × (active_keys user (after_issue e user name s) ≡ active_keys user s + 1))
      ⊎ ((limit ≤ active_keys user s)
          × (create_api_key e user name s ≡ (err (limit_error limit (active_keys user s)), s)))
unfolding create_api_key
create_api_key-limit e user limit name s (no_plan none_yet one) fresh =
    elim (Bool-cases (leb limit (active_keys user s))) [
      | inl full ↦ inr (ground arith, ground arith)
      | inr room ↦ inl (ground arith, ground arith, ground arith)
    ]
create_api_key-limit e user limit name s (on_plan sub plan has found max) fresh =
    elim (Bool-cases (leb limit (active_keys user s))) [
      | inl full ↦ inr (ground arith, ground arith)
      | inr room ↦ inl (ground arith, ground arith, ground arith)
    ]

-- The state after a key was revoked.
abbrev pub after_revoke : Env → ℕ → State → State
after_revoke e id s = record s {
  db = record s.db { api_keys = update_where (has_id id) (revoked e.now) s.db.api_keys };
}

Allows-after_revoke :
    (e : Env) (user limit id : ℕ) (s : State)
    → Allows user limit s
    → Allows user limit (after_revoke e id s)
unfolding get_active_subscription
Allows-after_revoke e user limit id s (no_plan a b) = no_plan a b
Allows-after_revoke e user limit id s (on_plan sub plan a b c) = on_plan sub plan a b c

IsNewSecret-after_revoke :
    (e : Env) (id : ℕ) (s : State) → IsNewSecret e s → IsNewSecret e (after_revoke e id s)
IsNewSecret-after_revoke e id s fresh =
    exists-revoke e.now id (compute_hash e (plaintext_key e s.draws)) s.db.api_keys ∙ fresh

revoke-active_keys :
    (e : Env) (user id : ℕ) (old : ApiKey) (s : State)
    → IsKeyed s.draws s.db.api_keys
    → first (is_owned_key user id) s.db.api_keys ≡ some old
    → is_active old ≡ true
    → active_keys user (after_revoke e old.id s) + 1 ≡ active_keys user s
revoke-active_keys e user id old s keyed found on =
    subst (λ i. active_keys user (after_revoke e i s) + 1 ≡ active_keys user s)
      (ground (arith, first-holds (is_owned_key user id) s.db.api_keys old found))
      (count-revoke e.now user id s.draws s.db.api_keys old keyed found on)

-- Rotating an active key of one's own keeps the number of active keys, where that number is within
-- the plan's limit: the old key is revoked and a new one with its name issued. Over the limit, as
-- after a downgrade, rotation is refused, and the old key stays as it is. No two rows have one
-- hash, and the hash of the next key is not in the table.
pub rotate_api_key-limit :
    (e : Env) (user limit id : ℕ) (old : ApiKey) (s : State)
    → IsKeyed s.draws s.db.api_keys
    → Allows user limit s
    → IsNewSecret e s
    → first (is_owned_key user id) s.db.api_keys ≡ some old
    → is_active old ≡ true
    → let s₁ = after_revoke e old.id s in
      ((active_keys user s ≤ limit)
        × (rotate_api_key e user id s
            ≡ (ok (issued e user old.name s₁), after_issue e user old.name s₁))
        × (active_keys user (after_issue e user old.name s₁) ≡ active_keys user s))
      ⊎ ((limit < active_keys user s)
          × (rotate_api_key e user id s ≡ (err (limit_error limit (active_keys user s₁)), s)))
unfolding rotate_api_key
rotate_api_key-limit e user limit id old s keyed allows fresh found on =
    let s₁ = after_revoke e old.id s in
    let fewer : active_keys user s₁ + 1 ≡ active_keys user s =
      revoke-active_keys e user id old s keyed found on in
    elim (create_api_key-limit e user limit old.name s₁
      (Allows-after_revoke e user limit old.id s allows)
      (IsNewSecret-after_revoke e old.id s fresh)) [
        | inl (room, made, more) ↦ inl (omega arith, ground arith, omega arith)
        | inr (full, failed) ↦ inr (omega arith, ground arith)
      ]
