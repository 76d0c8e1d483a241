-- ===== src/ApiKeys/Lifecycle.antt =====
-- Authentication by a key after its issue and after its revocation, in apps/api_keys.
use saas_backend_api.Prelude.{
  ℕ, ◌<◌, ◌≡◌, ◌≢◌, refl, Bool, true, false, String, Option, none, some, List, [], ◌∷◌, arith,
  eq_iff, first, exists, select, update_where, Bool-cases, inl, inr, str_eq_self, sym, subst, ◌∙◌,
}
use Prim.Native.Char.{Char}
use Prim.Native.String.{◌++◌}
use text.Mathlib.TextLemmas.{cons-append}
use saas_backend_api.Users.Models.{User}
use saas_backend_api.Users.Selectors.{user_by_id}
use saas_backend_api.Store.{Env, State, ok}
use saas_backend_api.ApiKeys.Models.{ApiKey, is_active, revoked}
use saas_backend_api.ApiKeys.Services.{
  split_prefix, compute_hash, plaintext_key, create_api_key, revoke_api_key, is_owned_key,
}
use saas_backend_api.ApiKeys.Authentication.{
  authenticated, refused, extract_key, is_candidate, matching, authenticate,
}
use saas_backend_api.ApiKeys.Table.{has_hash, has_id, IsKeyed, owned-id-lt, revoke-above}
use saas_backend_api.ApiKeys.Limits.{
  active_keys, Allows, IsNewSecret, issued, create_api_key-limit, after_revoke,
}

-- The text is not empty.
abbrev pub IsCons : String → Type 0
IsCons String.[] = ⊥
IsCons (String.◌∷◌ c s) = Unit

cons-ne-nil : (c : Char) (s : String) → String.◌∷◌ c s ≢ ""
cons-ne-nil c s h = subst IsCons h tt

plaintext_key-ne_empty : (e : Env) (n : ℕ) → plaintext_key e n ≢ ""
plaintext_key-ne_empty e n h =
    let opened : plaintext_key e n ≡ String.◌∷◌ "s" ("k_live_" ++ e.token_urlsafe n) =
      cons-append "s" "k_live_" (e.token_urlsafe n) in
    cons-ne-nil "s" ("k_live_" ++ e.token_urlsafe n) (sym opened ∙ h)

-- Below the plan's limit a key is issued, and a request that carries its plaintext in the header is
-- then authenticated as its owner. The key's hash is not in the table before, stripping leaves the
-- plaintext as it is, and the owner is there and active.
pub create-authenticate :
    (e : Env) (user limit : ℕ) (name : String) (u : User) (words : List (Option String)) (s : State)
    → Allows user limit s
    → active_keys user s < limit
    → IsNewSecret e s
    → user_by_id user s.db ≡ some u
    → u.is_active ≡ true
    → e.strip (plaintext_key e s.draws) ≡ plaintext_key e s.draws
    → let (r, s') = create_api_key e user name s in
      let i = issued e user name s in
      (r ≡ ok i) × ((authenticate e (some i.plaintext) words s').0 ≡ authenticated u i.api_key)
unfolding authenticate extract_key
create-authenticate e user limit name u words s allows room fresh owner on bare =
    elim (create_api_key-limit e user limit name s allows fresh) [
      | inl (below, made, more) ↦ ground (
        arith,
        bare,
        plaintext_key-ne_empty e s.draws,
        eq_iff (plaintext_key e s.draws) "",
        str_eq_self (split_prefix (plaintext_key e s.draws)),
        str_eq_self (compute_hash e (plaintext_key e s.draws)),
      )
      | inr (full, failed) ↦ absurd (omega arith)
    ]

no_hash-matching :
    (prefix hash : String) (ks : List ApiKey)
    → exists (has_hash hash) ks ≡ false
    → matching hash (select (is_candidate prefix) ks) ≡ none
no_hash-matching prefix hash [] h = refl
no_hash-matching prefix hash (x ∷ ks) h = ground (arith, no_hash-matching prefix hash ks)

exists-of-first :
    (p : ApiKey → Bool) (ks : List ApiKey) (k : ApiKey)
    → first p ks ≡ some k
    → exists (has_hash k.key_hash) ks ≡ true
exists-of-first p [] k h = ground arith
exists-of-first p (x ∷ ks) k h = ground (arith, exists-of-first p ks k, str_eq_self k.key_hash)

revoked-no_match :
    (now user n : ℕ) (prefix : String) (ks : List ApiKey) (k : ApiKey)
    → IsKeyed n ks
    → first (is_owned_key user k.id) ks ≡ some k
    → matching k.key_hash
        (select (is_candidate prefix) (update_where (has_id k.id) (revoked now) ks))
      ≡ none
revoked-no_match now user n prefix [] k h e = refl
revoked-no_match now user n prefix (x ∷ ks) k (lt, one, rest) e =
    elim (Bool-cases (is_owned_key user k.id x)) [
      | inl here ↦
          ground (arith, revoke-above now k.id x.id ks, no_hash-matching prefix k.key_hash ks)
      | inr other ↦
          let later : first (is_owned_key user k.id) ks ≡ some k = ground arith in
          ground (
            arith,
            owned-id-lt (is_owned_key user k.id) x.id ks k rest later,
            exists-of-first (is_owned_key user k.id) ks k later,
            eq_iff x.key_hash k.key_hash,
            revoked-no_match now user x.id prefix ks k rest later,
          )
    ]

-- Revoking an active key of one's own marks it as revoked, and a request that carries a text with
-- the key's hash in the header is refused afterwards as an invalid key. No two rows have one hash,
-- and the text is not empty and is left by stripping as it is.
pub revoke-authenticate :
    (e : Env) (user : ℕ) (k : ApiKey) (text : String) (words : List (Option String)) (s : State)
    → IsKeyed s.draws s.db.api_keys
    → first (is_owned_key user k.id) s.db.api_keys ≡ some k
    → is_active k ≡ true
    → k.key_hash ≡ compute_hash e text
    → e.strip text ≡ text
    → text ≢ ""
    → let (r, s') = revoke_api_key e user k.id s in
      (r ≡ ok (revoked e.now k))
      × (s' ≡ after_revoke e k.id s)
      × ((authenticate e (some text) words s').0 ≡ refused "Invalid API key.")
unfolding revoke_api_key authenticate extract_key
revoke-authenticate e user k text words s keyed found on hash bare full = ground (
  arith,
  bare,
  hash,
  eq_iff text "",
  revoked-no_match e.now user s.draws (split_prefix text) s.db.api_keys k keyed found,
)
