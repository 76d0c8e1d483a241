-- ===== src/ApiKeys/Access.antt =====
-- What authentication by a key rests on, in apps/api_keys/authentication.py.
use saas_backend_api.Prelude.{
  ◌≡◌, refl, true, String, Option, some, List, [], ◌∷◌, arith, str_eq, eq_iff, select, Bool-cases,
  Option-cases, inl, inr, subst, subst₂,
}
use mathlib.Core.List.{Memᴰ}
use saas_backend_api.Users.Models.{User}
use saas_backend_api.Users.Selectors.{user_by_id}
use saas_backend_api.Common.Utils.{constant_time_compare}
use saas_backend_api.Store.{Env, State}
use saas_backend_api.ApiKeys.Models.{ApiKey, is_active}
use saas_backend_api.ApiKeys.Services.{split_prefix, compute_hash}
use saas_backend_api.ApiKeys.Authentication.{
  authenticated, Extracted, no_key, bad_header, undecodable, key, extract_key, is_candidate,
  matching, check_key, answer, authenticate,
}

module _ (e : Env) (text : String) where
  -- What the two filters of the look-up say of the row that is found.
  pub record IsMatch (k : ApiKey) (ks : List ApiKey) : Type 0 where
    pub listed : Memᴰ k ks
    pub prefix : k.prefix ≡ split_prefix text
    pub hash : k.key_hash ≡ compute_hash e text
    pub live : is_active k ≡ true

  IsMatch-tail : (x k : ApiKey) (ks : List ApiKey) → IsMatch k ks → IsMatch k (x ∷ ks)
  IsMatch-tail x k ks m = record {
    listed = Memᴰ.tail m.listed;
    prefix = m.prefix;
    hash = m.hash;
    live = m.live;
  }

  matching-IsMatch :
      (ks : List ApiKey) (k : ApiKey)
      → matching (compute_hash e text) (select (is_candidate (split_prefix text)) ks) ≡ some k
      → IsMatch k ks
  matching-IsMatch [] k h = absurd (ground arith)
  matching-IsMatch (x ∷ ks) k h = elim (Bool-cases (is_candidate (split_prefix text) x)) [
    | inl here ↦ elim (Bool-cases (constant_time_compare x.key_hash (compute_hash e text))) [
      | inl same ↦ record {
        listed = Memᴰ.head (ground arith);
        prefix = ground (arith, eq_iff x.prefix (split_prefix text));
        hash = ground (arith, eq_iff x.key_hash (compute_hash e text));
        live = ground arith;
      }
      | inr other ↦ IsMatch-tail x k ks (matching-IsMatch ks k (ground arith))
    ]
    | inr other ↦ IsMatch-tail x k ks (matching-IsMatch ks k (ground arith))
  ]

-- What a successful authentication by `k` as `u` rests on.
pub record IsGenuine (e : Env) (text : String) (u : User) (k : ApiKey) (s : State) : Type 0 where
  pub row : IsMatch e text k s.db.api_keys
  pub owner : user_by_id k.user s.db ≡ some u
  pub enabled : u.is_active ≡ true

check_key-IsGenuine :
    (e : Env) (text : String) (u : User) (k : ApiKey) (s : State)
    → (check_key e text s).0 ≡ authenticated u k
    → IsGenuine e text u k s
check_key-IsGenuine e text u k s h =
    let hash = compute_hash e text in
    let candidates = select (is_candidate (split_prefix text)) s.db.api_keys in
    elim (Option-cases (matching hash candidates)) [
      | inl nothing ↦ absurd (ground arith)
      | inr (c, found) ↦ elim (Option-cases (user_by_id c.user s.db)) [
        | inl missing ↦ absurd (ground arith)
        | inr (v, owner) ↦ elim (Bool-cases v.is_active) [
          | inl on ↦
              let same : c ≡ k = ground arith in
              let who : v ≡ u = ground arith in
              record {
                row =
                    subst (λ t. IsMatch e text t s.db.api_keys) same
                      (matching-IsMatch e text s.db.api_keys c found);
                owner = subst₂ (λ t w. user_by_id t.user s.db ≡ some w) same who owner;
                enabled = subst (λ w. w.is_active ≡ true) who on;
              }
          | inr off ↦ absurd (ground arith)
        ]
      ]
    ]

answer-IsGenuine :
    (e : Env) (x : Extracted) (u : User) (k : ApiKey) (s : State)
    → (answer e x s).0 ≡ authenticated u k
    → (text : String) × (x ≡ key text) × IsGenuine e text u k s
answer-IsGenuine e no_key u k s h = absurd (ground arith)
answer-IsGenuine e (key text) u k s h = elim (Bool-cases (str_eq text "")) [
  | inl empty ↦ absurd (ground arith)
  | inr some_text ↦ (text, refl, check_key-IsGenuine e text u k s (ground arith))
]
answer-IsGenuine e bad_header u k s h = absurd (ground arith)
answer-IsGenuine e undecodable u k s h = absurd (ground arith)

-- A request is authenticated by a key only if it carries a text whose hash is that of a row which
-- is not revoked, has the text's prefix, and belongs to the active user that is answered.
pub authenticate-IsGenuine :
    (e : Env) (header : Option String) (words : List (Option String)) (u : User) (k : ApiKey)
    (s : State)
    → (authenticate e header words s).0 ≡ authenticated u k
    → (text : String) × (extract_key e header words ≡ key text) × IsGenuine e text u k s
unfolding authenticate
authenticate-IsGenuine e header words u k s h =
    answer-IsGenuine e (extract_key e header words) u k s h
