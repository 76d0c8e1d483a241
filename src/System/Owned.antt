-- ===== src/System/Owned.antt =====
-- A user's rows in a table, under writes to the rows of another user.
use saas_backend_api.Prelude.{
  ℕ, ◌≤◌, ◌≡◌, ◌≢◌, refl, Bool, String, List, [], ◌∷◌, ◌==◌, some, arith, first, select,
  update_where, Bool-cases, inl, inr,
}
use saas_backend_api.Subscriptions.Models.{Subscription}
use saas_backend_api.Subscriptions.Table.{IsUnique, has_id, first-id-lt, update_where-above}
use saas_backend_api.System.Tables.{IsTable, first-id-below}

module _ {A : Type 0} (id : A → ℕ) (name : A → String) (user : A → ℕ) (f : A → A) where
  update_where-none :
      (k n : ℕ) (xs : List A)
      → n ≤ k
      → IsTable id name n xs
      → update_where (λ x. id x == k) f xs ≡ xs
  update_where-none k n [] le h = refl
  update_where-none k n (x ∷ xs) le (a, b, c) =
      ground (arith, update_where-none k (id x) xs (omega arith) c)

  -- A write to the row that was found by its key, of a user other than `v`.
  pub select-update_where_ne :
      (p : A → Bool) (v n : ℕ) (xs : List A) (k : A)
      → IsTable id name n xs
      → first p xs ≡ some k
      → user k ≢ v
      → user (f k) ≢ v
      → select (λ x. user x == v) (update_where (λ x. id x == id k) f xs)
        ≡ select (λ x. user x == v) xs
  select-update_where_ne p v n [] k h e ne ne' = refl
  select-update_where_ne p v n (x ∷ xs) k (a, b, c) e ne ne' = elim (Bool-cases (p x)) [
    | inl here ↦ ground (arith, update_where-none (id x) (id x) xs (omega arith) c)
    | inr other ↦
        let later : first p xs ≡ some k = ground arith in
        ground (
          arith,
          first-id-below id name p (id x) xs k c later,
          select-update_where_ne p v (id x) xs k c later ne ne',
        )
  ]

pub select-subscription_ne :
    (f : Subscription → Subscription) (p : Subscription → Bool) (v n : ℕ) (subs : List Subscription)
    (k : Subscription)
    → IsUnique n subs
    → first p subs ≡ some k
    → k.user ≢ v
    → (f k).user ≢ v
    → select (λ s. s.user == v) (update_where (has_id k.id) f subs) ≡ select (λ s. s.user == v) subs
select-subscription_ne f p v n [] k h e ne ne' = refl
select-subscription_ne f p v n (x ∷ subs) k (a, b, c) e ne ne' = elim (Bool-cases (p x)) [
  | inl here ↦ ground (arith, update_where-above f x.id x.id subs (omega arith) c)
  | inr other ↦
      let later : first p subs ≡ some k = ground arith in
      ground (
        arith,
        first-id-lt p x.id subs k c later,
        select-subscription_ne f p v x.id subs k c later ne ne',
      )
]
