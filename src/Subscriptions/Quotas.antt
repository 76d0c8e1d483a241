-- ===== src/Subscriptions/Quotas.antt =====
-- The table of usage quotas: the order of its keys, and the latest quota of a period.
use saas_backend_api.Prelude.{
  ℕ, ◌<◌, ◌≤◌, ◌≡◌, refl, Bool, false, some, List, [], ◌∷◌, ◌==◌, ◌&&◌, leb, arith, exists,
  update_where, Option-cases, inl, inr, Bool-cases, ◌⊎◌, subst, ◌≢◌, ==_self, ==_ne,
  update_where-hit, update_where-miss, ap, ◌∙◌,
}
use saas_backend_api.Subscriptions.Models.{UsageQuota}
use saas_backend_api.Subscriptions.Selectors.{is_subs_current, latest_quota}
use saas_backend_api.Subscriptions.Services.{counted, max_integer}

abbrev pub AreOrdered : ℕ → List UsageQuota → Type 0
AreOrdered n [] = Unit
AreOrdered n (q ∷ qs) = (q.id < n) × (q.subscription < q.id) × AreOrdered q.id qs

pub AreOrdered-mono : (m n : ℕ) (qs : List UsageQuota) → m ≤ n → AreOrdered m qs → AreOrdered n qs
AreOrdered-mono m n [] le h = tt
AreOrdered-mono m n (q ∷ qs) le (a, b, c) = (omega arith, b, c)

-- A new subscription has no quota yet.
pub exists-fresh :
    (k start n : ℕ) (qs : List UsageQuota)
    → n ≤ k
    → AreOrdered n qs
    → exists (λ r. r.subscription == k && r.period_start == start) qs ≡ false
exists-fresh k start n [] le h = refl
exists-fresh k start n (q ∷ qs) le h = ground (arith, exists-fresh k start q.id qs)

pub AreOrdered-counted :
    (n k : ℕ) (qs : List UsageQuota)
    → AreOrdered n qs
    → AreOrdered n (update_where (λ q. q.id == k) counted qs)
AreOrdered-counted n k [] h = tt
AreOrdered-counted n k (q ∷ qs) h = ground (arith, AreOrdered-counted q.id k qs h.2)

pub latest_quota-id-lt :
    (p : UsageQuota → Bool) (n : ℕ) (qs : List UsageQuota) (q : UsageQuota)
    → AreOrdered n qs
    → latest_quota p qs ≡ some q
    → q.id < n
latest_quota-id-lt p n [] q h e = ground arith
latest_quota-id-lt p n (x ∷ qs) q h e = elim (Option-cases (latest_quota p qs)) [
  | inl nothing ↦ ground arith
  | inr (r, found) ↦ ground (arith, latest_quota-id-lt p x.id qs r h.2 found)
]

-- A write to a key that is not below the bound changes nothing.
pub counted-above :
    (k n : ℕ) (qs : List UsageQuota)
    → n ≤ k
    → AreOrdered n qs
    → update_where (λ q. q.id == k) counted qs ≡ qs
counted-above k n [] le h = refl
counted-above k n (x ∷ qs) le h = ground (arith, counted-above k x.id qs)

pub full-above :
    (k n : ℕ) (qs : List UsageQuota)
    → n ≤ k
    → AreOrdered n qs
    → exists (λ q. q.id == k && leb max_integer q.requests_used) qs ≡ false
full-above k n [] le h = refl
full-above k n (x ∷ qs) le h = ground (arith, full-above k x.id qs)

-- Only the row itself has its key.
pub full-found :
    (p : UsageQuota → Bool) (n : ℕ) (qs : List UsageQuota) (q : UsageQuota)
    → AreOrdered n qs
    → latest_quota p qs ≡ some q
    → exists (λ r. r.id == q.id && leb max_integer r.requests_used) qs
      ≡ leb max_integer q.requests_used
full-found p n [] q h e = ground arith
full-found p n (x ∷ qs) q h e = elim (Option-cases (latest_quota p qs)) [
  | inl nothing ↦ ground (arith, full-above x.id x.id qs)
  | inr (r, found) ↦ ground (
    arith,
    latest_quota-id-lt p x.id qs r h.2 found,
    full-above x.id x.id qs,
    full-found p x.id qs r h.2 found,
  )
]

pub latest_quota-cases :
    (p : UsageQuota → Bool) (x : UsageQuota) (qs : List UsageQuota) (q : UsageQuota)
    → latest_quota p (x ∷ qs) ≡ some q
    → (x ≡ q) ⊎ (latest_quota p qs ≡ some q)
latest_quota-cases p x qs q e = elim (Option-cases (latest_quota p qs)) [
  | inl nothing ↦ inl (ground arith)
  | inr (r, found) ↦ elim (Bool-cases (p x)) [
    | inl here ↦ elim (Bool-cases (leb r.period_start x.period_start)) [
      | inl later ↦ inl (ground arith)
      | inr sooner ↦ inr (ground arith)
    ]
    | inr other ↦ inr (ground arith)
  ]
]

module _ (now sub : ℕ) where
  abbrev is_wanted : UsageQuota → Bool
  is_wanted = is_subs_current now sub

  latest_quota-cons :
      (x : UsageQuota) (qs : List UsageQuota)
      → AreOrdered x.id qs
      → latest_quota is_wanted (x ∷ qs) ≡ some x
      → latest_quota is_wanted (counted x ∷ qs) ≡ some (counted x)
  latest_quota-cons x qs h e = elim (Option-cases (latest_quota is_wanted qs)) [
    | inl nothing ↦ ground arith
    | inr (r, found) ↦ ground (arith, latest_quota-id-lt is_wanted x.id qs r h found)
  ]

  latest_quota-counted_head :
      (x : UsageQuota) (qs : List UsageQuota)
      → update_where (λ r. r.id == x.id) counted qs ≡ qs
      → AreOrdered x.id qs
      → latest_quota is_wanted (x ∷ qs) ≡ some x
      → latest_quota is_wanted (update_where (λ r. r.id == x.id) counted (x ∷ qs))
        ≡ some (counted x)
  latest_quota-counted_head x qs same h e =
      ap (latest_quota is_wanted) (update_where-hit (λ r. r.id == x.id) counted x qs (==_self x.id))
      ∙ rw same (latest_quota-cons x qs h e)

  latest_quota-replace :
      (x r : UsageQuota) (qs qs' : List UsageQuota)
      → latest_quota is_wanted qs ≡ some r
      → latest_quota is_wanted (x ∷ qs) ≡ some r
      → latest_quota is_wanted qs' ≡ some (counted r)
      → x.id ≢ r.id
      → latest_quota is_wanted (x ∷ qs') ≡ some (counted r)
  latest_quota-replace x r qs qs' found e ih ne = ground arith

  latest_quota-counted_tail :
      (x r : UsageQuota) (qs : List UsageQuota)
      → x.id ≢ r.id
      → latest_quota is_wanted qs ≡ some r
      → latest_quota is_wanted (x ∷ qs) ≡ some r
      → latest_quota is_wanted (update_where (λ q. q.id == r.id) counted qs) ≡ some (counted r)
      → latest_quota is_wanted (update_where (λ q. q.id == r.id) counted (x ∷ qs))
        ≡ some (counted r)
  latest_quota-counted_tail x r qs ne found e ih =
      ap (latest_quota is_wanted)
        (update_where-miss (λ q. q.id == r.id) counted x qs (==_ne x.id r.id ne))
      ∙ latest_quota-replace x r qs _ found e ih ne

  -- Counting a request in the quota that a query finds leaves it the one that is found.
  pub latest_quota-counted :
      (n : ℕ) (qs : List UsageQuota) (q : UsageQuota)
      → AreOrdered n qs
      → latest_quota is_wanted qs ≡ some q
      → latest_quota is_wanted (update_where (λ r. r.id == q.id) counted qs) ≡ some (counted q)
  latest_quota-counted n [] q h e = ground arith
  latest_quota-counted n (x ∷ qs) q h e = elim (latest_quota-cases is_wanted x qs q e) [
    | inl here ↦
        subst
          (λ t.
            latest_quota is_wanted (update_where (λ r. r.id == t.id) counted (x ∷ qs))
            ≡ some (counted t))
          here
          (latest_quota-counted_head x qs (counted-above x.id x.id qs (omega arith) h.2) h.2 (cc))
    | inr later ↦
        let below = latest_quota-id-lt is_wanted x.id qs q h.2 later in
        latest_quota-counted_tail x q qs (omega arith) later e
          (latest_quota-counted x.id qs q h.2 later)
  ]
