-- ===== src/Subscriptions/Seed/Twice.antt =====
-- The seed command on tables that hold other plans, and its second run.
use saas_backend_api.Prelude.{
  not, ◌≡◌, refl, true, false, List, [], ◌∷◌, All, arith, exists, update_where, str_eq, Bool-cases,
  inl, inr, str_eq_self, eq_iff,
}
use saas_backend_api.Store.{State, ok}
use saas_backend_api.Subscriptions.Models.{Plan}
use saas_backend_api.Subscriptions.Seed.{
  Spec, free_spec, pro_spec, enterprise_spec, plan_row, has_plan_slug, update_or_create_plan,
  seed_loop, handle,
}

-- A plan with the slug of the spec has the fields of the spec.
abbrev pub Agrees : Spec → Plan → Type 0
Agrees spec p = has_plan_slug spec.slug p ≡ true → plan_row spec p.id ≡ p

-- There is a plan with the slug of the spec, and all such plans have its fields.
abbrev pub IsSeeded : Spec → List Plan → Type 0
IsSeeded spec plans = (exists (has_plan_slug spec.slug) plans ≡ true) × All (Agrees spec) plans

module _ (spec : Spec) where
  abbrev row_of : Plan → Plan
  row_of p = plan_row spec p.id

  exists-updated :
      (plans : List Plan)
      → exists (has_plan_slug spec.slug) plans ≡ true
      → exists (has_plan_slug spec.slug) (update_where (has_plan_slug spec.slug) row_of plans)
        ≡ true
  exists-updated [] h = h
  exists-updated (p ∷ ps) h = ground (arith, exists-updated ps, str_eq_self spec.slug)

  updated-Agrees :
      (plans : List Plan) → All (Agrees spec) (update_where (has_plan_slug spec.slug) row_of plans)
  updated-Agrees [] = tt
  updated-Agrees (p ∷ ps) = elim (Bool-cases (has_plan_slug spec.slug p)) [
    | inl hit ↦ rw hit (λ h. refl, updated-Agrees ps)
    | inr miss ↦ rw miss (λ h. ground (arith, h, miss), updated-Agrees ps)
  ]

  absent-Agrees :
      (plans : List Plan) → exists (has_plan_slug spec.slug) plans ≡ false → All (Agrees spec) plans
  absent-Agrees [] h = tt
  absent-Agrees (p ∷ ps) h = elim (Bool-cases (has_plan_slug spec.slug p)) [
    | inl hit ↦ ground (arith, h, hit)
    | inr miss ↦ (λ k. ground (arith, k, miss), absent-Agrees ps (ground (arith, h, miss)))
  ]

  update-seeded :
      (plans : List Plan)
      → All (Agrees spec) plans
      → update_where (has_plan_slug spec.slug) row_of plans ≡ plans
  update-seeded [] h = refl
  update-seeded (p ∷ ps) (h, hs) = elim (Bool-cases (has_plan_slug spec.slug p)) [
    | inl hit ↦ ground (arith, hit, h hit, update-seeded ps hs)
    | inr miss ↦ ground (arith, miss, update-seeded ps hs)
  ]

  -- After the step of a spec there are plans with its slug, and they have its fields.
  step-IsSeeded : (s : State) → IsSeeded spec (update_or_create_plan spec s).1.db.plans
  unfolding update_or_create_plan
  step-IsSeeded s = elim (Bool-cases (exists (has_plan_slug spec.slug) s.db.plans)) [
    | inl there ↦ rw there (exists-updated s.db.plans there, updated-Agrees s.db.plans)
    | inr absent ↦
        rw absent (rw (str_eq_self spec.slug) refl, (λ h. refl, absent-Agrees s.db.plans absent))
  ]

  step-again : (s : State) → IsSeeded spec s.db.plans → update_or_create_plan spec s ≡ (ok false, s)
  unfolding update_or_create_plan
  step-again s (there, agree) = ground (arith, there, update-seeded s.db.plans agree)

-- The step of one spec leaves the plans of another slug as they are.
module _ (spec made : Spec) (apart : str_eq made.slug spec.slug ≡ false) where
  exists-made :
      (plans : List Plan)
      → exists (has_plan_slug spec.slug) plans ≡ true
      → exists
          (has_plan_slug spec.slug)
          (update_where (has_plan_slug made.slug) (row_of made) plans)
        ≡ true
  exists-made [] h = h
  exists-made (p ∷ ps) h =
      ground (arith, exists-made ps, eq_iff p.slug made.slug, eq_iff p.slug spec.slug, apart, h)

  made-Agrees :
      (plans : List Plan)
      → All (Agrees spec) plans
      → All (Agrees spec) (update_where (has_plan_slug made.slug) (row_of made) plans)
  made-Agrees [] h = tt
  made-Agrees (p ∷ ps) (h, hs) = elim (Bool-cases (has_plan_slug made.slug p)) [
    | inl hit ↦ rw hit (λ k. ground (arith, apart, k), made-Agrees ps hs)
    | inr miss ↦ rw miss (h, made-Agrees ps hs)
  ]

  step-keeps :
      (s : State)
      → IsSeeded spec s.db.plans
      → IsSeeded spec (update_or_create_plan made s).1.db.plans
  unfolding update_or_create_plan
  step-keeps s (there, agree) = elim (Bool-cases (exists (has_plan_slug made.slug) s.db.plans)) [
    | inl known ↦ rw known (exists-made s.db.plans there, made-Agrees s.db.plans agree)
    | inr absent ↦ rw absent (rw apart there, (λ k. ground (arith, apart, k), agree))
  ]

-- The state after the step of a spec.
abbrev after_step : Spec → State → State
after_step spec s = (update_or_create_plan spec s).1

step-ok :
    (spec : Spec) (s : State)
    → update_or_create_plan spec s
      ≡ (ok (not (exists (has_plan_slug spec.slug) s.db.plans)), after_step spec s)
unfolding update_or_create_plan
step-ok spec s = ground arith

-- The state after the three steps.
abbrev seeded : State → State
seeded s = after_step enterprise_spec (after_step pro_spec (after_step free_spec s))

handle_state : (s : State) → (handle s).1 ≡ seeded s
unfolding handle seed_loop
handle_state s =
    let s₁ = after_step free_spec s in
    let s₂ = after_step pro_spec s₁ in
    ground (arith, step-ok free_spec s, step-ok pro_spec s₁, step-ok enterprise_spec s₂)

seeded-IsSeeded :
    (s : State)
    → IsSeeded free_spec (seeded s).db.plans
      × IsSeeded pro_spec (seeded s).db.plans
      × IsSeeded enterprise_spec (seeded s).db.plans
seeded-IsSeeded s =
    let s₁ = after_step free_spec s in
    let s₂ = after_step pro_spec s₁ in
    (
      step-keeps free_spec enterprise_spec refl s₂
          (step-keeps free_spec pro_spec refl s₁ (step-IsSeeded free_spec s)),
      step-keeps pro_spec enterprise_spec refl s₂ (step-IsSeeded pro_spec s₁),
      step-IsSeeded enterprise_spec s₂,
    )

handle_again :
    (s : State)
    → IsSeeded free_spec s.db.plans
    → IsSeeded pro_spec s.db.plans
    → IsSeeded enterprise_spec s.db.plans
    → handle s ≡ (ok (0, 3), s)
unfolding handle seed_loop
handle_again s free pro enterprise = ground (
  arith,
  step-again free_spec s free,
  step-again pro_spec s pro,
  step-again enterprise_spec s enterprise,
)

-- The seed command, on any tables, leaves for each of its specs a plan with the spec's slug, all
-- such plans having the spec's fields; run again it changes nothing and reports three updates.
pub handle-twice :
    (s : State)
    → let s' = (handle s).1 in
      (IsSeeded free_spec s'.db.plans
        × IsSeeded pro_spec s'.db.plans
        × IsSeeded enterprise_spec s'.db.plans)
      × (handle s' ≡ (ok (0, 3), s'))
handle-twice s = rw (handle_state s) (
    let (free, pro, enterprise) = seeded-IsSeeded s in
    ((free, pro, enterprise), handle_again (seeded s) free pro enterprise))
