-- ===== src/ApiKeys/Table.antt =====
-- The table of API keys of apps/api_keys: its keys and its hashes.
use saas_backend_api.Prelude.{
  ℕ, ◌+◌, ◌<◌, ◌≤◌, ◌≡◌, refl, Bool, true, false, String, some, List, [], ◌∷◌, ◌==◌, arith, str_eq,
  first, exists, count, update_where, Bool-cases, inl, inr, first-holds,
}
use saas_backend_api.ApiKeys.Models.{ApiKey, is_active, revoked}
use saas_backend_api.ApiKeys.Services.{is_users_active_key, is_owned_key}

abbrev pub has_hash : String → ApiKey → Bool
has_hash hash k = str_eq k.key_hash hash

abbrev pub has_id : ℕ → ApiKey → Bool
has_id id k = k.id == id

abbrev pub IsKeyed : ℕ → List ApiKey → Type 0
IsKeyed n [] = Unit
IsKeyed n (k ∷ ks) = (k.id < n) × (exists (has_hash k.key_hash) ks ≡ false) × IsKeyed k.id ks

pub IsKeyed-mono : (m n : ℕ) (ks : List ApiKey) → m ≤ n → IsKeyed m ks → IsKeyed n ks
IsKeyed-mono m n [] le h = tt
IsKeyed-mono m n (k ∷ ks) le (a, b, c) = (omega arith, b, c)

pub revoke-above :
    (now i n : ℕ) (ks : List ApiKey)
    → n ≤ i
    → IsKeyed n ks
    → update_where (has_id i) (revoked now) ks ≡ ks
revoke-above now i n [] le h = refl
revoke-above now i n (k ∷ ks) le h = ground (arith, revoke-above now i k.id ks)

pub exists-revoke :
    (now i : ℕ) (hash : String) (ks : List ApiKey)
    → exists (has_hash hash) (update_where (has_id i) (revoked now) ks) ≡ exists (has_hash hash) ks
exists-revoke now i hash [] = refl
exists-revoke now i hash (k ∷ ks) = ground (arith, exists-revoke now i hash ks)

pub IsKeyed-revoke :
    (now i n : ℕ) (ks : List ApiKey)
    → IsKeyed n ks
    → IsKeyed n (update_where (has_id i) (revoked now) ks)
IsKeyed-revoke now i n [] h = tt
IsKeyed-revoke now i n (k ∷ ks) (lt, one, rest) =
    ground (arith, exists-revoke now i k.key_hash ks, IsKeyed-revoke now i k.id ks rest)

pub owned-id-lt :
    (p : ApiKey → Bool) (n : ℕ) (ks : List ApiKey) (k : ApiKey)
    → IsKeyed n ks
    → first p ks ≡ some k
    → k.id < n
owned-id-lt p n [] k h e = ground arith
owned-id-lt p n (x ∷ ks) k h e = ground (arith, owned-id-lt p x.id ks k h.2)

-- Revoking an active key takes one from its user's count, and nothing from another's.
pub count-revoke :
    (now user i n : ℕ) (ks : List ApiKey) (k : ApiKey)
    → IsKeyed n ks
    → first (is_owned_key user i) ks ≡ some k
    → is_active k ≡ true
    → count (is_users_active_key user) (update_where (has_id i) (revoked now) ks) + 1
      ≡ count (is_users_active_key user) ks
count-revoke now user i n [] k h e on = ground arith
count-revoke now user i n (x ∷ ks) k h e on = elim (Bool-cases (is_owned_key user i x)) [
  | inl here ↦ ground (arith, revoke-above now i x.id ks)
  | inr other ↦
      let later : first (is_owned_key user i) ks ≡ some k = ground arith in
      ground (
        arith,
        count-revoke now user i x.id ks k h.2 later on,
        owned-id-lt (is_owned_key user i) x.id ks k h.2 later,
        first-holds (is_owned_key user i) ks k later,
      )
]
