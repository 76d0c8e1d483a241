-- ===== src/System/Tables.antt =====
-- Tables whose rows have an ascending key and a text that no other row has.
use saas_backend_api.Prelude.{
  inl, inr, ℕ, ◌<◌, ◌≤◌, ◌≡◌, refl, Bool, true, false, String, List, [], ◌∷◌, arith, str_eq, exists,
  update_where, count, eq_iff, ◌&&◌, first, ◌==◌, some, Bool-cases, str_eq_self,
}

module _ {A : Type 0} (id : A → ℕ) (name : A → String) where
  abbrev pub has_name : String → A → Bool
  has_name c x = str_eq (name x) c

  -- Keys fall along the list and stay below the bound; names are distinct.
  abbrev pub IsTable : ℕ → List A → Type 0
  IsTable n [] = Unit
  IsTable n (x ∷ xs) = (id x < n) × (exists (has_name (name x)) xs ≡ false) × IsTable (id x) xs

  pub IsTable-mono : (m n : ℕ) (xs : List A) → m ≤ n → IsTable m xs → IsTable n xs
  IsTable-mono m n [] le h = tt
  IsTable-mono m n (x ∷ xs) le (a, b, c) = (omega arith, b, c)

  -- An update that keeps the keys and the names.
  module _ (p : A → Bool) (f : A → A) (same_id : (x : A) → id (f x) ≡ id x)
      (same_name : (x : A) → name (f x) ≡ name x) where
    exists-update_where :
        (c : String) (xs : List A)
        → exists (has_name c) (update_where p f xs) ≡ exists (has_name c) xs
    exists-update_where c [] = refl
    exists-update_where c (x ∷ xs) = ground (arith, same_name x, exists-update_where c xs)

    pub IsTable-update_where :
        (n : ℕ) (xs : List A) → IsTable n xs → IsTable n (update_where p f xs)
    IsTable-update_where n [] h = tt
    IsTable-update_where n (x ∷ xs) (a, b, c) = ground (
      arith,
      same_id x,
      same_name x,
      exists-update_where (name x) xs,
      IsTable-update_where (id x) xs c,
    )

  count-eq-zero :
      (c : String) (xs : List A) → exists (has_name c) xs ≡ false → count (has_name c) xs ≡ 0
  count-eq-zero c [] h = refl
  count-eq-zero c (x ∷ xs) h = ground (arith, count-eq-zero c xs)

  pub IsTable-count-le :
      (c : String) (n : ℕ) (xs : List A) → IsTable n xs → count (has_name c) xs ≤ 1
  IsTable-count-le c n [] h = omega arith
  IsTable-count-le c n (x ∷ xs) (a, b, t) =
      ground (arith, eq_iff (name x) c, count-eq-zero (name x) xs b, IsTable-count-le c (id x) xs t)

  -- Rows that can be used up: a name is closed if it is there and no row that has it is live.
  module _ (live : A → Bool) where
    abbrev pub IsClosed : String → List A → Type 0
    IsClosed c xs =
        (exists (has_name c) xs ≡ true) × (exists (λ x. has_name c x && live x) xs ≡ false)

    -- A row with a name that is not there yet.
    pub IsClosed-cons :
        (c : String) (x : A) (xs : List A)
        → exists (has_name (name x)) xs ≡ false
        → IsClosed c xs
        → IsClosed c (x ∷ xs)
    IsClosed-cons c x xs new (there, dead) = ground (arith, eq_iff (name x) c)

    -- An update that keeps the names and revives no row.
    module _ (p : A → Bool) (f : A → A) (same_name : (x : A) → name (f x) ≡ name x)
        (stays_dead : (x : A) → live x ≡ false → live (f x) ≡ false) where
      some-update_where :
          (c : String) (xs : List A)
          → exists (has_name c) xs ≡ true
          → exists (has_name c) (update_where p f xs) ≡ true
      some-update_where c [] h = h
      some-update_where c (x ∷ xs) h = ground (arith, same_name x, some-update_where c xs)

      none-update_where :
          (c : String) (xs : List A)
          → exists (λ x. has_name c x && live x) xs ≡ false
          → exists (λ x. has_name c x && live x) (update_where p f xs) ≡ false
      none-update_where c [] h = h
      none-update_where c (x ∷ xs) h =
          ground (arith, same_name x, stays_dead x, none-update_where c xs)

      pub IsClosed-update_where :
          (c : String) (xs : List A) → IsClosed c xs → IsClosed c (update_where p f xs)
      IsClosed-update_where c xs (there, dead) =
          (some-update_where c xs there, none-update_where c xs dead)

    -- A closed name is found, on a row that is not live.
    pub IsClosed-first :
        (c : String) (xs : List A)
        → IsClosed c xs
        → (x : A) × (first (has_name c) xs ≡ some x) × (live x ≡ false)
    IsClosed-first c [] (there, dead) = ground arith
    IsClosed-first c (x ∷ xs) (there, dead) = elim (Bool-cases (has_name c x)) [
      | inl here ↦ (x, ground arith, ground arith)
      | inr other ↦
          let (y, found, used) = IsClosed-first c xs (ground arith, ground arith) in
          (y, ground (arith, found), used)
    ]

  first-exists :
      (p : A → Bool) (xs : List A) (k : A)
      → first p xs ≡ some k
      → exists (has_name (name k)) xs ≡ true
  first-exists p [] k h = ground arith
  first-exists p (x ∷ xs) k h = ground (arith, first-exists p xs k, str_eq_self (name k))

  pub first-id-below :
      (p : A → Bool) (n : ℕ) (xs : List A) (k : A) → IsTable n xs → first p xs ≡ some k → id k < n
  first-id-below p n [] k h e = ground arith
  first-id-below p n (x ∷ xs) k (a, b, c) e = ground (arith, first-id-below p (id x) xs k c)

  -- A write that uses up the row that was found by key closes its name.
  module _ (live : A → Bool) (f : A → A) (same_name : (x : A) → name (f x) ≡ name x)
      (dies : (x : A) → live (f x) ≡ false) where
    absent-update_where :
        (c : String) (k : ℕ) (xs : List A)
        → exists (has_name c) xs ≡ false
        → exists (λ x. has_name c x && live x) (update_where (λ x. id x == k) f xs) ≡ false
    absent-update_where c k [] h = refl
    absent-update_where c k (x ∷ xs) h = ground (arith, same_name x, absent-update_where c k xs)

    pub IsClosed-written :
        (p : A → Bool) (n : ℕ) (xs : List A) (k : A)
        → IsTable n xs
        → first p xs ≡ some k
        → IsClosed live (name k) (update_where (λ x. id x == id k) f xs)
    IsClosed-written p n [] k h e = ground arith
    IsClosed-written p n (x ∷ xs) k (a, b, c) e = elim (Bool-cases (p x)) [
      | inl here ↦ ground (
        arith,
        same_name x,
        dies x,
        str_eq_self (name x),
        absent-update_where (name x) (id x) xs b,
      )
      | inr other ↦
          let later : first p xs ≡ some k = ground arith in
          ground (
            arith,
            first-id-below p (id x) xs k c later,
            first-exists p xs k later,
            eq_iff (name x) (name k),
            IsClosed-written p (id x) xs k c later,
          )
    ]
