-- ===== src/Prelude/Lists.antt =====
-- Tables as lists: a queryset's `filter`, `first`, `count` and `update`, and predicates on rows.
use Prim.Native.Nat.{ℕ, zero, suc, ◌≤◌}
use mathlib.Core.Path.{◌≡◌, refl, sym, ap, ◌∙◌}
use mathlib.Core.Bool.{Bool, true, false}
use mathlib.Core.Option.{Option, none, some}
use mathlib.Core.List.{List, [], ◌∷◌}
use native.Mathlib.Omega.{arith}
use saas_backend_api.Prelude.Tests.{if◌then◌else◌}

module _ {ℓ} {A : Type ℓ} where
  abbrev pub length : List A → ℕ
  length [] = 0
  length (x ∷ xs) = suc (length xs)

  -- `filter(...)`
  abbrev pub select : (A → Bool) → List A → List A
  select p [] = []
  select p (x ∷ xs) = if p x then x ∷ select p xs else select p xs

  -- `filter(...).first()`
  abbrev pub first : (A → Bool) → List A → Option A
  first p [] = none
  first p (x ∷ xs) = if p x then some x else first p xs

  -- `filter(...).exists()`
  abbrev pub exists : (A → Bool) → List A → Bool
  exists p [] = false
  exists p (x ∷ xs) = if p x then true else exists p xs

  -- `filter(...).count()`
  abbrev pub count : (A → Bool) → List A → ℕ
  count p [] = 0
  count p (x ∷ xs) = if p x then suc (count p xs) else count p xs

  -- `filter(...).update(...)`
  abbrev pub update_where : (A → Bool) → (A → A) → List A → List A
  update_where p f [] = []
  update_where p f (x ∷ xs) = (if p x then f x else x) ∷ update_where p f xs

  abbrev pub take : ℕ → List A → List A
  take zero xs = []
  take (suc n) [] = []
  take (suc n) (x ∷ xs) = x ∷ take n xs

module _ {ℓ κ} {A : Type ℓ} (P : A → Type κ) where
  abbrev pub All : List A → Type κ
  All [] = Unit
  All (x ∷ xs) = P x × All xs

module _ {ℓ} {A : Type ℓ} where
  pub first-holds : (p : A → Bool) (xs : List A) (x : A) → first p xs ≡ some x → p x ≡ true
  first-holds p [] x h = ground arith
  first-holds p (y ∷ ys) x h = ground (arith, first-holds p ys x)

  pub length-take-le : (n : ℕ) (xs : List A) → length (take n xs) ≤ n
  length-take-le zero xs = omega arith
  length-take-le (suc n) [] = omega arith
  length-take-le (suc n) (x ∷ xs) = omega (arith, length-take-le n xs)

  pub length-update_where :
      (p : A → Bool) (f : A → A) (xs : List A) → length (update_where p f xs) ≡ length xs
  length-update_where p f [] = refl
  length-update_where p f (x ∷ xs) = omega (arith, length-update_where p f xs)

  pub update_where-hit :
      (p : A → Bool) (f : A → A) (x : A) (xs : List A)
      → p x ≡ true
      → update_where p f (x ∷ xs) ≡ f x ∷ update_where p f xs
  update_where-hit p f x xs h = rw h

  pub update_where-miss :
      (p : A → Bool) (f : A → A) (x : A) (xs : List A)
      → p x ≡ false
      → update_where p f (x ∷ xs) ≡ x ∷ update_where p f xs
  update_where-miss p f x xs h = rw h

-- What a query finds after an update that keeps what the query asks for.
module _ {ℓ} {A : Type ℓ} (p q : A → Bool) (f : A → A) (keeps : (y : A) → p (f y) ≡ p y) where
  pub first-update_where_hit :
      (xs : List A) (x : A)
      → first p xs ≡ some x
      → q x ≡ true
      → first p (update_where q f xs) ≡ some (f x)
  first-update_where_hit [] x h hit = ground arith
  first-update_where_hit (y ∷ ys) x h hit = ground (arith, keeps y, first-update_where_hit ys x)

  pub first-update_where_miss :
      (xs : List A) (x : A)
      → first p xs ≡ some x
      → q x ≡ false
      → first p (update_where q f xs) ≡ some x
  first-update_where_miss [] x h miss = ground arith
  first-update_where_miss (y ∷ ys) x h miss = ground (arith, keeps y, first-update_where_miss ys x)

-- A test that implies another sees the same rows among those that pass the other.
module _ {ℓ} {A : Type ℓ} (p q : A → Bool) (within : (x : A) → p x ≡ true → q x ≡ true) where
  pub first-select : (xs : List A) → first p (select q xs) ≡ first p xs
  first-select [] = refl
  first-select (x ∷ xs) = ground (arith, within x, first-select xs)

  pub count-select : (xs : List A) → count p (select q xs) ≡ count p xs
  count-select [] = refl
  count-select (x ∷ xs) = ground (arith, within x, count-select xs)

  pub select-select : (xs : List A) → select p (select q xs) ≡ select p xs
  select-select [] = refl
  select-select (x ∷ xs) = ground (arith, within x, select-select xs)

  pub first-agrees : (xs ys : List A) → select q xs ≡ select q ys → first p xs ≡ first p ys
  first-agrees xs ys same = sym (first-select xs) ∙ ap (first p) same ∙ first-select ys

  pub count-agrees : (xs ys : List A) → select q xs ≡ select q ys → count p xs ≡ count p ys
  count-agrees xs ys same = sym (count-select xs) ∙ ap (count p) same ∙ count-select ys

  pub select-agrees : (xs ys : List A) → select q xs ≡ select q ys → select p xs ≡ select p ys
  select-agrees xs ys same = sym (select-select xs) ∙ ap (select p) same ∙ select-select ys
