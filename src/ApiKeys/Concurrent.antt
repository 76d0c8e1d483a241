-- ===== src/ApiKeys/Concurrent.antt =====
-- `create_api_key` by several workers at once: its check of the limit, which takes no lock, and its
-- insertion as two steps, interleaved.
use saas_backend_api.Prelude.{
  inl, inr, ℕ, suc, ◌+◌, ◌<◌, ◌≤◌, ◌≡◌, refl, String, arith, count, List, [], ◌∷◌, Bool, leb,
  Option-cases, first, update_where, ◌==◌,
}
use saas_backend_api.Common.Errors.{Exc}
use saas_backend_api.Store.{
  Env, State, ok, err, Action, pure, gets, atomic, ◌>>=◌, ◌>>◌, raise_if, draw,
}
use saas_backend_api.Subscriptions.Selectors.{get_active_subscription}
use saas_backend_api.ApiKeys.Models.{ApiKey, revoked}
use saas_backend_api.ApiKeys.Services.{
  IssuedKey, is_users_active_key, limit_error, plan_max, new_key, plaintext_key, insert_key,
  create_api_key, revoke_api_key, is_owned_key,
}
use saas_backend_api.ApiKeys.Limits.{
  active_keys, Allows, no_plan, on_plan, IsNewSecret, after_issue,
}

-- The check, up to the `raise`.
unfoldable pub check_limit : ℕ → Action (Unit {0})
check_limit user = do
  sub ← gets (get_active_subscription user)
  limit ← plan_max sub
  current ← gets (λ db. count (is_users_active_key user) db.api_keys)
  raise_if (leb limit current) (limit_error limit current)

-- The rest.
unfoldable pub issue : Env → ℕ → String → Action IssuedKey
issue e user name = do
  secret ← draw
  id ← draw
  let plaintext = plaintext_key e secret
  insert_key (new_key e user name id plaintext)
  pure (record { plaintext = plaintext; api_key = new_key e user name id plaintext })

pub check_then_issue :
    (e : Env) (user : ℕ) (name : String) (s : State)
    → create_api_key e user name s ≡ atomic (check_limit user >> issue e user name) s
unfolding create_api_key check_limit issue
check_then_issue e user name s = elim (Option-cases (get_active_subscription user s.db)) [
  | inl free ↦ ground (arith, free)
  | inr (sub, there) ↦ ground (arith, there)
]

-- How many requests have passed the check and not yet inserted their key, and the state.
pub record Running : Type 0 where
  pub pending : ℕ
  pub state : State

-- One step of some worker on a request of the user: a check that passes or is refused, an
-- insertion, or a revocation, which is one step; a worker serves one request at a time.
pub data Step (user workers : ℕ) (r t : Running) : Type 0 where
  passed :
      r.pending < workers
      → (check_limit user r.state).0 ≡ ok tt
      → t ≡ record r { pending = suc r.pending }
      → Step user workers r t
  refused : (x : Exc) → (check_limit user r.state).0 ≡ err x → t ≡ r → Step user workers r t
  inserted :
      (e : Env) (name : String) (rest : ℕ)
      → r.pending ≡ suc rest
      → t ≡ record { pending = rest; state = (issue e user name r.state).1 }
      → Step user workers r t
  withdrawn :
      (e : Env) (id : ℕ)
      → t ≡ record r { state = (revoke_api_key e user id r.state).1 }
      → Step user workers r t

-- Any interleaving of such steps.
pub data Reach (user workers : ℕ) (r : Running) : Running → Type 0 where
  start : Reach user workers r r
  next : {t u : Running} → Reach user workers r t → Step user workers t u → Reach user workers r u

abbrev pub at_rest : State → Running
at_rest s = record { pending = 0; state = s }

count-revoke-le :
    (user now : ℕ) (p : ApiKey → Bool) (ks : List ApiKey)
    → count (is_users_active_key user) (update_where p (revoked now) ks)
      ≤ count (is_users_active_key user) ks
count-revoke-le user now p [] = omega arith
count-revoke-le user now p (k ∷ ks) = ground (arith, count-revoke-le user now p ks)

module _ (user limit workers : ℕ) where
  -- What every interleaving keeps.
  record IsWithin (r : Running) : Type 0 where
    allows : Allows user limit r.state
    bounded : active_keys user r.state + r.pending < limit + workers

  check_ok :
      (s : State)
      → Allows user limit s
      → (check_limit user s).0 ≡ ok tt
      → active_keys user s < limit
  unfolding check_limit
  check_ok s (no_plan none_yet one) h = ground arith
  check_ok s (on_plan sub plan has found max) h = ground arith

  issue-Allows :
      (e : Env) (name : String) (s : State)
      → Allows user limit s
      → Allows user limit (issue e user name s).1
  unfolding issue get_active_subscription
  issue-Allows e name s (no_plan a b) = no_plan (ground arith) b
  issue-Allows e name s (on_plan sub plan a b c) = on_plan sub plan (ground arith) (ground arith) c

  issue-active_keys :
      (e : Env) (name : String) (s : State)
      → active_keys user (issue e user name s).1 ≤ active_keys user s + 1
  unfolding issue
  issue-active_keys e name s = ground arith

  revoke-Allows :
      (e : Env) (id : ℕ) (s : State)
      → Allows user limit s
      → Allows user limit (revoke_api_key e user id s).1
  unfolding revoke_api_key get_active_subscription
  revoke-Allows e id s (no_plan a b) = no_plan (ground arith) b
  revoke-Allows e id s (on_plan sub plan a b c) = on_plan sub plan (ground arith) (ground arith) c

  revoke-active_keys_le :
      (e : Env) (id : ℕ) (s : State)
      → active_keys user (revoke_api_key e user id s).1 ≤ active_keys user s
  unfolding revoke_api_key
  revoke-active_keys_le e id s = elim (Option-cases (first (is_owned_key user id) s.db.api_keys)) [
    | inl absent ↦ ground (arith, absent)
    | inr (k, found) ↦
        ground (arith, found, count-revoke-le user e.now (λ r. r.id == k.id) s.db.api_keys)
  ]

  Step-IsWithin : {r t : Running} → Step user workers r t → IsWithin r → IsWithin t
  Step-IsWithin {r} {t} (passed lt good same) h =
      rw same
        (record { allows = h.allows; bounded = omega (arith, lt, check_ok r.state h.allows good) })
  Step-IsWithin {r} {t} (refused x bad same) h = rw same h
  Step-IsWithin {r} {t} (inserted e name rest was same) h = rw same (record {
    allows = issue-Allows e name r.state h.allows;
    bounded = omega (arith, was, h.bounded, issue-active_keys e name r.state);
  })
  Step-IsWithin {r} {t} (withdrawn e id same) h = rw same (record {
    allows = revoke-Allows e id r.state h.allows;
    bounded = omega (arith, h.bounded, revoke-active_keys_le e id r.state);
  })

  Reach-IsWithin : {r t : Running} → Reach user workers r t → IsWithin r → IsWithin t
  Reach-IsWithin start h = h
  Reach-IsWithin (next reached step) h = Step-IsWithin step (Reach-IsWithin reached h)

-- However several workers interleave the checks, insertions and revocations of one user's keys,
-- from a state with no more active keys than the plan allows: there are never more than that plus
-- one less than the number of workers; a single worker never passes the limit.
pub create_api_key-concurrent_limit :
    (user limit workers : ℕ) (s : State) (t : Running)
    → 0 < workers
    → Allows user limit s
    → active_keys user s ≤ limit
    → Reach user workers (at_rest s) t
    → active_keys user t.state + t.pending < limit + workers
create_api_key-concurrent_limit user limit workers s t some_worker allows le reached =
    (Reach-IsWithin user limit workers reached
      (record { allows = allows; bounded = omega (arith, some_worker, le) })).bounded

check_passes :
    (user limit : ℕ) (s : State)
    → Allows user limit s
    → active_keys user s < limit
    → (check_limit user s).0 ≡ ok tt
unfolding check_limit
check_passes user limit s (no_plan none_yet one) lt = ground arith
check_passes user limit s (on_plan sub plan has found max) lt = ground arith

issue_new :
    (e : Env) (user : ℕ) (name : String) (s : State)
    → IsNewSecret e s
    → (issue e user name s).1 ≡ after_issue e user name s
unfolding issue
issue_new e user name s fresh = ground arith

-- The limit can be passed: when one more key is allowed, two workers that both check before either
-- inserts both issue a key, and the user has one active key more than the plan allows. The two
-- secrets are new.
pub create_api_key-race :
    (e : Env) (user limit : ℕ) (name : String) (s : State)
    → Allows user limit s
    → active_keys user s + 1 ≡ limit
    → IsNewSecret e s
    → IsNewSecret e (after_issue e user name s)
    → let t = after_issue e user name (after_issue e user name s) in
      Reach user 2 (at_rest s) (at_rest t) × (active_keys user t ≡ limit + 1)
create_api_key-race e user limit name s allows one_left fresh fresh' =
    let passes = check_passes user limit s allows (omega (arith, one_left)) in
    let first_insert = issue_new e user name s fresh in
    let second_insert = issue_new e user name (after_issue e user name s) fresh' in
    (
      next
          (next
            (next (next start (passed (omega arith) passes refl))
              (passed (omega arith) passes refl))
            (inserted e name 1 refl refl))
          (inserted e name 0 refl (rw first_insert (rw second_insert refl))),
      ground (arith, one_left),
    )
