-- ===== src/Subscriptions/Table.antt =====
-- The table of subscriptions: the order of its keys, and the active rows of a user.
use saas_backend_api.Prelude.{
  ℕ, subst, ◌<◌, ◌≤◌, ◌≡◌, refl, ◌≢◌, Bool, true, false, none, some, List, [], ◌∷◌, ◌==◌, arith,
  first, exists, update_where, Bool-cases, inl, inr,
}
use saas_backend_api.Subscriptions.Models.{Subscription, is_active_status}
use saas_backend_api.Subscriptions.Selectors.{is_users_active}

-- Every key is below `n` and below the keys of the newer rows; no two active rows have one user.
abbrev pub IsUnique : ℕ → List Subscription → Type 0
IsUnique n [] = Unit
IsUnique n (s ∷ subs) =
    (s.id < n)
    × (is_active_status s.status ≡ true → exists (is_users_active s.user) subs ≡ false)
    × IsUnique s.id subs

abbrev pub has_id : ℕ → Subscription → Bool
has_id id s = s.id == id

pub IsUnique-mono : (m n : ℕ) (subs : List Subscription) → m ≤ n → IsUnique m subs → IsUnique n subs
IsUnique-mono m n [] le h = tt
IsUnique-mono m n (s ∷ subs) le (a, b, c) = (omega arith, b, c)

pub first-eq-none :
    (u : ℕ) (subs : List Subscription)
    → exists (is_users_active u) subs ≡ false
    → first (is_users_active u) subs ≡ none
first-eq-none u [] h = refl
first-eq-none u (s ∷ subs) h = ground (arith, first-eq-none u subs)

pub exists-of-none :
    (u : ℕ) (subs : List Subscription)
    → first (is_users_active u) subs ≡ none
    → exists (is_users_active u) subs ≡ false
exists-of-none u [] h = refl
exists-of-none u (s ∷ subs) h = ground (arith, exists-of-none u subs)

pub exists-first :
    (u : ℕ) (subs : List Subscription) (s : Subscription)
    → first (is_users_active u) subs ≡ some s
    → exists (is_users_active u) subs ≡ true
exists-first u [] s h = ground arith
exists-first u (x ∷ subs) s h = ground (arith, exists-first u subs s)

pub first-id-lt :
    (p : Subscription → Bool) (n : ℕ) (subs : List Subscription) (s : Subscription)
    → IsUnique n subs
    → first p subs ≡ some s
    → s.id < n
first-id-lt p n [] s h e = ground arith
first-id-lt p n (x ∷ subs) s h e = ground (arith, first-id-lt p x.id subs s h.2)

-- A write to a key that is not below the bound changes nothing.
pub update_where-above :
    (f : Subscription → Subscription) (k n : ℕ) (subs : List Subscription)
    → n ≤ k
    → IsUnique n subs
    → update_where (has_id k) f subs ≡ subs
update_where-above f k n [] le h = refl
update_where-above f k n (x ∷ subs) le h = ground (arith, update_where-above f k x.id subs)

-- A write that ends a subscription: it keeps the key and the user, and the row is not active.
module _ (f : Subscription → Subscription)
    (off : (s : Subscription)
      → ((f s).id ≡ s.id) × ((f s).user ≡ s.user) × (is_active_status (f s).status ≡ false)) where
  pub exists-update_where_off :
      (u k : ℕ) (subs : List Subscription)
      → exists (is_users_active u) subs ≡ false
      → exists (is_users_active u) (update_where (has_id k) f subs) ≡ false
  exists-update_where_off u k [] h = refl
  exists-update_where_off u k (x ∷ subs) h = ground (arith, off x, exists-update_where_off u k subs)

  pub IsUnique-update_where :
      (n k : ℕ) (subs : List Subscription)
      → IsUnique n subs
      → IsUnique n (update_where (has_id k) f subs)
  IsUnique-update_where n k [] h = tt
  IsUnique-update_where n k (x ∷ subs) (lt, one, rest) =
      ground (
        arith,
        off x,
        exists-update_where_off x.user k subs,
        IsUnique-update_where x.id k subs rest,
      )

  pub exists-update_where_self :
      (u n : ℕ) (subs : List Subscription) (s : Subscription)
      → IsUnique n subs
      → first (is_users_active u) subs ≡ some s
      → exists (is_users_active u) (update_where (has_id s.id) f subs) ≡ false
  exists-update_where_self u n [] s h e = ground arith
  exists-update_where_self u n (x ∷ subs) s (lt, one, rest) e = ground (
    arith,
    off x,
    exists-update_where_off u s.id subs,
    exists-update_where_self u x.id subs s rest,
  )

  first-update_where_head :
      (u v n : ℕ) (x : Subscription) (subs : List Subscription)
      → u ≢ v
      → is_users_active u x ≡ true
      → update_where (has_id x.id) f subs ≡ subs
      → first (is_users_active v) (update_where (has_id x.id) f (x ∷ subs))
        ≡ first (is_users_active v) (x ∷ subs)
  first-update_where_head u v n x subs ne here same = rw same (ground (arith, off x))

  first-update_where_tail :
      (v k : ℕ) (x : Subscription) (subs : List Subscription)
      → x.id ≢ k
      → first (is_users_active v) (update_where (has_id k) f subs) ≡ first (is_users_active v) subs
      → first (is_users_active v) (update_where (has_id k) f (x ∷ subs))
        ≡ first (is_users_active v) (x ∷ subs)
  first-update_where_tail v k x subs ne ih = rw ih (ground arith)

  -- Ending one user's subscription leaves the others' as they are.
  pub first-update_where_ne :
      (u v n : ℕ) (subs : List Subscription) (s : Subscription)
      → u ≢ v
      → IsUnique n subs
      → first (is_users_active u) subs ≡ some s
      → first (is_users_active v) (update_where (has_id s.id) f subs)
        ≡ first (is_users_active v) subs
  first-update_where_ne u v n [] s ne h e = refl
  first-update_where_ne u v n (x ∷ subs) s ne (lt, one, rest) e =
      elim (Bool-cases (is_users_active u x)) [
        | inl here ↦
            let same : x ≡ s = ground arith in
            subst
              (λ t.
                first (is_users_active v) (update_where (has_id t.id) f (x ∷ subs))
                ≡ first (is_users_active v) (x ∷ subs))
              same
              (first-update_where_head u v n x subs ne here
                (update_where-above f x.id x.id subs (omega arith) rest))
        | inr other ↦
            let later : first (is_users_active u) subs ≡ some s = ground arith in
            let below = first-id-lt (is_users_active u) x.id subs s rest later in
            first-update_where_tail v s.id x subs (omega arith)
              (first-update_where_ne u v x.id subs s ne rest later)
      ]
