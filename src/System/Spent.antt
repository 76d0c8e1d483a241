-- ===== src/System/Spent.antt =====
-- What is used up stays used up, whatever is called afterwards: revoked API keys, used tokens and
-- refresh tokens that were logged out.
use saas_backend_api.Prelude.{
  ℕ, ◌≡◌, ◌≢◌, refl, true, false, String, Option, some, List, [], ◌∷◌, ◌&&◌, arith, str_eq, eq_iff,
  first, exists, select, inl, inr, none, Option-cases, subst, sym, first-holds, str_eq_self,
}
use saas_backend_api.Common.Errors.{Exc, validation_error, authentication_failed}
use saas_backend_api.Common.Utils.{hash_token}
use saas_backend_api.Users.Models.{User}
use saas_backend_api.Users.Selectors.{user_by_id}
use saas_backend_api.Store.{Env, State, Action, err, error}
use saas_backend_api.Authentication.Models.{Token, is_valid, consumed}
use saas_backend_api.Authentication.Services.{
  Kind, verifying, resetting, token_by_hash, has_hash, verify_email, confirm_password_reset,
  is_listed, is_outstanding, logout, refresh_token, is_open_session,
}
use saas_backend_api.Authentication.OneShot.{
  verify_email-used, confirm-used, verify_email_lem, confirm_lem, consume,
}
use saas_backend_api.ApiKeys.Models.{ApiKey, is_active, revoked}
use saas_backend_api.ApiKeys.Services.{split_prefix, compute_hash, is_owned_key, revoke_api_key}
use saas_backend_api.ApiKeys.Authentication.{
  refused, is_candidate, matching, extract_key, authenticate,
}
use saas_backend_api.System.Tables.{IsClosed-written, IsClosed-update_where, IsClosed-first}
use saas_backend_api.System.Kept.{
  Spent, api_key, verification, reset, listed, IsSpent, IsSpent-kept, AreClosedKeys, is_unused,
  AreClosedTokens,
}
use saas_backend_api.System.Sound.{IsSound, AreTokens}
use saas_backend_api.System.Sessions.{logout-Keeps}
use saas_backend_api.System.Accounts.{verify_email-Keeps, confirm_password_reset-Keeps}
use saas_backend_api.System.Keys.{revoke_api_key-Keeps}
use saas_backend_api.System.Calls.{Reach, Reach-Follows}
use saas_backend_api.System.Reachable.{blank, Reach-IsSound}

-- What was used up in a state that calls reach is so in every later one.
reached-IsSpent :
    (x : Spent) (s t : State) → IsSound s → Reach s t → IsSpent x s.db → IsSpent x t.db
reached-IsSpent x s t h r = IsSpent-kept x s.db t.db (Reach-Follows h r).kept

closed-matching :
    (prefix hash : String) (ks : List ApiKey)
    → AreClosedKeys hash ks
    → matching hash (select (is_candidate prefix) ks) ≡ none
closed-matching prefix hash ks (there, dead) = unmatched prefix hash ks dead
  where
    unmatched :
        (prefix hash : String) (ks : List ApiKey)
        → exists (λ k. str_eq k.key_hash hash && is_active k) ks ≡ false
        → matching hash (select (is_candidate prefix) ks) ≡ none
    unmatched prefix hash [] h = refl
    unmatched prefix hash (k ∷ ks) h = ground (arith, unmatched prefix hash ks)

revoke_api_key-IsSpent :
    (e : Env) (user : ℕ) (k : ApiKey) (s : State)
    → IsSound s
    → first (is_owned_key user k.id) s.db.api_keys ≡ some k
    → is_active k ≡ true
    → IsSpent (api_key k.key_hash) (revoke_api_key e user k.id s).1.db
unfolding revoke_api_key
revoke_api_key-IsSpent e user k s h found on = ground (
  arith,
  IsClosed-written (λ k. k.id) (λ k. k.key_hash) is_active (revoked e.now) (λ k. refl) (λ k. refl)
      (is_owned_key user k.id) s.draws s.db.api_keys k h.keys found,
)

-- Once an active API key was revoked by its owner, a request that carries its text is refused as
-- one with an invalid key in every state that any calls of the service's operations lead to
-- afterwards. The state before was reached from empty tables; the text has the key's hash, is not
-- empty and is left by stripping as it is.
pub revoked_key-refused :
    (e e' : Env) (user : ℕ) (k : ApiKey) (text : String) (words : List (Option String))
    (s t : State)
    → Reach blank s
    → first (is_owned_key user k.id) s.db.api_keys ≡ some k
    → is_active k ≡ true
    → Reach (revoke_api_key e user k.id s).1 t
    → compute_hash e' text ≡ k.key_hash
    → e'.strip text ≡ text
    → text ≢ ""
    → (authenticate e' (some text) words t).0 ≡ refused "Invalid API key."
unfolding authenticate extract_key
revoked_key-refused e e' user k text words s t reached found on after hash bare full =
    let h = Reach-IsSound s reached in
    let s' = (revoke_api_key e user k.id s).1 in
    let spent =
      reached-IsSpent (api_key k.key_hash) s' t ((revoke_api_key-Keeps e user k.id).keeps s h).sound
        after (revoke_api_key-IsSpent e user k s h found on) in
    ground (
      arith,
      bare,
      hash,
      eq_iff text "",
      closed-matching (split_prefix text) k.key_hash t.db.api_keys spent,
    )

-- The two operations that take a token.
abbrev pub redeem : Kind → Env → String → String → Action User
redeem verifying e token password = verify_email e token
redeem resetting e token password = confirm_password_reset e token password

-- How they refuse one.
abbrev pub invalid : Kind → Exc
invalid verifying = error validation_error "Invalid or expired verification token." "invalid_token"
invalid resetting = error validation_error "Invalid or expired reset token." "invalid_token"

abbrev spent_token : Kind → String → Spent
spent_token verifying = verification
spent_token resetting = reset

spent_token-refused :
    (kind : Kind) (e : Env) (token password : String) (s : State)
    → IsSpent (spent_token kind (hash_token e token)) s.db
    → redeem kind e token password s ≡ (err (invalid kind), s)
spent_token-refused verifying e token password s spent =
    let (t, found, used) =
      IsClosed-first (λ t. t.id) (λ t. t.token_hash) is_unused (hash_token e token)
        s.db.verification_tokens spent in
    verify_email-used e token t s found used
spent_token-refused resetting e token password s spent =
    let (t, found, used) =
      IsClosed-first (λ t. t.id) (λ t. t.token_hash) is_unused (hash_token e token)
        s.db.reset_tokens spent in
    confirm-used e token password t s found used

redeem-Follows :
    (kind : Kind) (e : Env) (token password : String) (s : State)
    → IsSound s
    → IsSound (redeem kind e token password s).1
redeem-Follows verifying e token password s h = ((verify_email-Keeps e token).keeps s h).sound
redeem-Follows resetting e token password s h =
    ((confirm_password_reset-Keeps e token password).keeps s h).sound

consume-closes :
    (now n : ℕ) (hash : String) (ts : List Token) (t : Token)
    → AreTokens n ts
    → first (has_hash hash) ts ≡ some t
    → AreClosedTokens hash (consume now t.id ts)
consume-closes now n hash ts t h found =
    let same : t.token_hash ≡ hash =
      ground (arith, first-holds (has_hash hash) ts t found, eq_iff t.token_hash hash) in
    subst (λ c. AreClosedTokens c (consume now t.id ts)) same
      (IsClosed-written (λ t. t.id) (λ t. t.token_hash) is_unused (consumed now) (λ t. refl)
        (λ t. refl) (has_hash hash) n ts t h found)

redeem-IsSpent :
    (kind : Kind) (e : Env) (token password : String) (t : Token) (u : User) (s : State)
    → IsSound s
    → token_by_hash kind (hash_token e token) s.db ≡ some t
    → is_valid e.now t ≡ true
    → user_by_id t.user s.db ≡ some u
    → IsSpent (spent_token kind (hash_token e token)) (redeem kind e token password s).1.db
redeem-IsSpent verifying e token password t u s h found valid owner =
    rw (verify_email_lem e token t u s found valid owner) (
      consume-closes e.now s.draws (hash_token e token) s.db.verification_tokens t h.verifications
        found)
redeem-IsSpent resetting e token password t u s h found valid owner =
    rw (confirm_lem e token password t u s found valid owner) (
      IsClosed-update_where (λ t. t.id) (λ t. t.token_hash) is_unused (is_outstanding u.id t.id)
        (consumed e.now) (λ t. refl) (λ t d. refl) (hash_token e token)
        (consume e.now t.id s.db.reset_tokens)
        (consume-closes e.now s.draws (hash_token e token) s.db.reset_tokens t h.resets found))

-- Once a valid verification or reset token of a user was used, it is refused as invalid, and that
-- changes nothing, in every state that any calls of the service's operations lead to afterwards,
-- whatever the new password and the time. The state before was reached from empty tables, and a
-- token's hash is the same at both times.
pub used_token-refused :
    (kind : Kind) (e e' : Env) (token password again : String) (t : Token) (u : User) (s s' : State)
    → Reach blank s
    → token_by_hash kind (hash_token e token) s.db ≡ some t
    → is_valid e.now t ≡ true
    → user_by_id t.user s.db ≡ some u
    → Reach (redeem kind e token password s).1 s'
    → hash_token e' token ≡ hash_token e token
    → redeem kind e' token again s' ≡ (err (invalid kind), s')
used_token-refused kind e e' token password again t u s s' reached found valid owner after same =
    let h = Reach-IsSound s reached in
    let used = (redeem kind e token password s).1 in
    let x = spent_token kind (hash_token e token) in
    let spent =
      reached-IsSpent x used s' (redeem-Follows kind e token password s h) after
        (redeem-IsSpent kind e token password t u s h found valid owner) in
    spent_token-refused kind e' token again s'
      (subst (λ c. IsSpent (spent_token kind c) s'.db) (sym same) spent)

logout-IsSpent :
    (e : Env) (token jti : String) (s : State)
    → refresh_token e token s.db ≡ some jti
    → is_listed jti (logout e token s).1.db.blacklist ≡ true
unfolding logout
logout-IsSpent e token jti s good =
    elim (Option-cases (first (is_open_session jti) s.db.sessions)) [
      | inl nothing ↦ ground (arith, good, nothing, str_eq_self jti)
      | inr (r, found) ↦ ground (arith, good, found, str_eq_self jti)
    ]

-- Once a good refresh token was logged out, a refresh token with its `jti` is no longer accepted, and a
-- logout with one is refused with a 401 that changes nothing, in every state that any calls of the
-- service's operations lead to afterwards. The state before was reached from empty tables.
pub logged_out-refused :
    (e e' : Env) (token token' jti : String) (s t : State)
    → Reach blank s
    → refresh_token e token s.db ≡ some jti
    → Reach (logout e token s).1 t
    → e'.decode_refresh token' ≡ some jti
    → (refresh_token e' token' t.db ≡ none)
      × (logout e' token' t
          ≡ (err (error authentication_failed "Invalid refresh token." "invalid_refresh_token"), t))
unfolding logout
logged_out-refused e e' token token' jti s t reached good after same =
    let h = Reach-IsSound s reached in
    let spent : is_listed jti t.db.blacklist ≡ true =
      reached-IsSpent (listed jti) (logout e token s).1 t ((logout-Keeps e token).keeps s h).sound
        after (logout-IsSpent e token jti s good) in
    (ground (arith, same, spent), ground (arith, same, spent))
