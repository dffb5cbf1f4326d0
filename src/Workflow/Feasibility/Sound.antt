-- ===== src/Workflow/Feasibility/Sound.antt =====
-- What a plan that passes check_plan satisfies, step by step.
use agentic_fraud_decisionin.Common.{
  ℕ, ◌<◌, ◌≤◌, ◌≡◌, refl, Str, mem_str, Bool, true, false, not, Option, none, some, List, [], ◌∷◌,
  ◌++◌, map, any, All, All-append, leb, ltb, ◌==◌, length, ◌⊎◌, inl, inr, Bool-cases, Option-cases,
  arith, if◌then◌else◌,
}
use agentic_fraud_decisionin.Common.Value.{Fields, empty, entry}
use agentic_fraud_decisionin.Common.Result.{ok, err, Result-cases}
use agentic_fraud_decisionin.Workflow.Refs.{Source, trigger, step, parse_ref, int_raises}
use agentic_fraud_decisionin.Workflow.Conditions.{Numerics, Condition, parse_condition}
use agentic_fraud_decisionin.Workflow.Plan.{PlanStep, WorkflowPlan}
use agentic_fraud_decisionin.Workflow.Registry.{Registry, ToolSpec, Annotation, get}
use agentic_fraud_decisionin.Workflow.Feasibility.{
  PlanError, allowed_tool_categories, check_ref, check_args, check_guard, check_step, check_steps,
  check_schedule, check_plan, ref_of, guard_of, annotation_of, when_true, is_empty,
}
use agentic_fraud_decisionin.Workflow.Executor.{step_refs, arg_refs, referenced_steps}

-- A step number before `n` that the plan has.
abbrev pub IsBackward : ℕ → List ℕ → ℕ → Type 0
IsBackward n valid k = (k < n) × (any (λ m. m == k) valid ≡ true)

append-nil_left {ℓ} : {A : Type ℓ} (xs ys : List A) → xs ++ ys ≡ [] → xs ≡ []
append-nil_left [] ys h = refl
append-nil_left (x ∷ xs) ys h = absurd (ground arith)

append-nil_right {ℓ} : {A : Type ℓ} (xs ys : List A) → xs ++ ys ≡ [] → ys ≡ []
append-nil_right [] ys h = h
append-nil_right (x ∷ xs) ys h = absurd (ground arith)

check_ref-IsBackward :
    (value : Str) (n : ℕ) (valid : List ℕ)
    → check_ref value n valid ≡ []
    → All (IsBackward n valid) (step_refs value)
unfolding check_ref step_refs
check_ref-IsBackward value n valid h = elim (Option-cases (parse_ref value)) [
  | inl e ↦ absurd (ground arith)
  | inr (r, e) ↦ elim (Bool-cases (int_raises value)) [
    | inl long ↦ rw (e, step_refs, long) tt
    | inr short ↦ rw (e, step_refs, short) (source-IsBackward r.source (ground arith))
  ]
]
  where
    source-IsBackward :
        (x : Source)
        → (elim x [
          | trigger ↦ []
          | step k ↦
              if leb n k
              then PlanError.forward_reference n ∷ []
              else if any (λ m. m == k) valid
              then []
              else PlanError.missing_step n ∷ []
        ])
          ≡ []
        → All (IsBackward n valid) (elim x [ trigger ↦ [] | step k ↦ k ∷ [] ])
    source-IsBackward trigger h = tt
    source-IsBackward (step k) h = ((ground arith, ground arith), tt)

check_args-IsBackward :
    (n : ℕ) (valid : List ℕ) (fields : List (Str × Annotation)) (args : Fields)
    → (check_args n valid fields args).0 ≡ []
    → All (IsBackward n valid) (arg_refs args)
unfolding check_args arg_refs
check_args-IsBackward n valid fields empty h = tt
check_args-IsBackward n valid fields (entry key val rest) h =
    elim (Option-cases (annotation_of key fields)) [
      | inl e ↦ absurd (ground arith)
      | inr (a, e) ↦ elim (Option-cases (ref_of val)) [
        | inl r ↦ rw (r, arg_refs) (check_args-IsBackward n valid fields rest (ground arith))
        | inr (s, r) ↦
            let both : check_ref s n valid ++ (check_args n valid fields rest).0 ≡ [] =
              ground arith in
            rw (r, arg_refs)
              (All-append (IsBackward n valid) (step_refs s) (arg_refs rest)
                (check_ref-IsBackward s n valid (append-nil_left _ _ both))
                (check_args-IsBackward n valid fields rest (append-nil_right _ _ both)))
      ]
    ]

-- A step that a run can start with what the plan gives it: its tool is registered in a permitted
-- category, its guard parses, and everything it refers to is an earlier step of the plan.
pub record Sound (num : Numerics) (registry : Registry) (valid : List ℕ) (s : PlanStep)
    : Type 0 where
  pub spec : ToolSpec
  pub registered : get registry s.tool_name ≡ some spec
  pub permitted : mem_str spec.category allowed_tool_categories ≡ true
  pub guarded :
      (guard_of s ≡ none)
      ⊎ ((w : Str) × (c : Condition) × (guard_of s ≡ some w) × (parse_condition num w ≡ ok c))
  pub backward : All (IsBackward s.step_number valid) (referenced_steps num s)

module _ (num : Numerics) where
  -- The step numbers that a guard refers to.
  abbrev guard_refs : Option Str → List ℕ
  guard_refs none = []
  guard_refs (some w) = elim (parse_condition num w) [ err e ↦ [] | ok c ↦ step_refs c.ref ]

  check_guard-ok :
      (n : ℕ) (valid : List ℕ) (g : Option Str)
      → check_guard num n valid g ≡ []
      → ((g ≡ none) ⊎ ((w : Str) × (c : Condition) × (g ≡ some w) × (parse_condition num w ≡ ok c)))
        × All (IsBackward n valid) (guard_refs g)
  unfolding check_guard
  check_guard-ok n valid none h = (inl refl, tt)
  check_guard-ok n valid (some w) h = elim (Result-cases (parse_condition num w)) [
    | inr (e, q) ↦ absurd (ground arith)
    | inl (c, q) ↦ (
      inr (w, c, refl, q),
      rw (q, guard_refs) (check_ref-IsBackward c.ref n valid (ground arith)),
    )
  ]

  when_true-nil {ℓ} : {A : Type ℓ} (b : Bool) (a : A) → when_true b a ≡ [] → b ≡ false
  when_true-nil true a h = absurd (ground arith)
  when_true-nil false a h = refl

  not-false : (b : Bool) → not b ≡ false → b ≡ true
  not-false b h = ground arith

  check_step-Sound :
      (registry : Registry) (valid : List ℕ) (s : PlanStep)
      → (check_step num registry valid s).0 ≡ []
      → Sound num registry valid s
  unfolding check_step referenced_steps
  check_step-Sound registry valid s h = elim (Option-cases (get registry s.tool_name)) [
    | inl e ↦ absurd (ground arith)
    | inr (spec, e) ↦
        let n = s.step_number in
        let fields = spec.args_schema.model_fields in
        let category =
          when_true (not (mem_str spec.category allowed_tool_categories))
            (PlanError.forbidden_category n) in
        let args = (check_args n valid fields s.args).0 in
        let accepted : Bool =
          elim (spec.args_schema.validate (check_args n valid fields s.args).1) [
            | none ↦ false
            | some v ↦ true
          ] in
        let schema = when_true (not accepted) (PlanError.invalid_args n) in
        let none_found : category ++ args ++ schema ++ check_guard num n valid (guard_of s) ≡ [] =
          ground arith in
        let before_guard = append-nil_left _ _ none_found in
        let before_schema = append-nil_left _ _ before_guard in
        let (guarded, guard_back) =
          check_guard-ok n valid (guard_of s) (append-nil_right _ _ none_found) in
        record {
          spec = spec;
          registered = e;
          permitted = not-false _ (when_true-nil _ _ (append-nil_left _ _ before_schema));
          guarded = guarded;
          backward =
              All-append (IsBackward n valid) (arg_refs s.args) (guard_refs (guard_of s))
                (check_args-IsBackward n valid fields s.args (append-nil_right _ _ before_schema))
                guard_back;
        }
  ]

  check_steps-Sound :
      (registry : Registry) (valid : List ℕ) (ss : List PlanStep)
      → (check_steps num registry valid ss).0 ≡ []
      → All (Sound num registry valid) ss
  unfolding check_steps
  check_steps-Sound registry valid [] h = tt
  check_steps-Sound registry valid (s ∷ ss) h = (
    check_step-Sound registry valid s (append-nil_left _ _ h),
    check_steps-Sound registry valid ss (append-nil_right (check_step num registry valid s).0 _ h),
  )

  is_empty-nil : (xs : List PlanError) → is_empty num xs ≡ true → xs ≡ []
  is_empty-nil [] h = refl
  is_empty-nil (x ∷ xs) h = absurd (ground arith)

  check_plan-nil :
      (max_plan_steps : ℕ) (zone_exists : Str → Bool) (plan : WorkflowPlan) (registry : Registry)
      → (check_plan num max_plan_steps zone_exists plan registry).is_ok ≡ true
      → (check_steps num registry (map (λ (t : PlanStep). t.step_number) plan.steps) plan.steps).0
          ≡ []
        × (length plan.steps ≤ max_plan_steps)
        × (1 ≤ length plan.steps)
  unfolding check_plan
  check_plan-nil max_plan_steps zone_exists plan registry h =
      elim (Bool-cases plan.needs_clarification) [
        | inl y ↦ absurd (ground arith)
        | inr n ↦ by_steps plan.steps refl n
      ]
    where
      by_steps :
          (ss : List PlanStep)
          → plan.steps ≡ ss
          → plan.needs_clarification ≡ false
          → (check_steps num registry
                (map (λ (t : PlanStep). t.step_number) plan.steps)
                plan.steps).0
              ≡ []
            × (length plan.steps ≤ max_plan_steps)
            × (1 ≤ length plan.steps)
      by_steps [] e n = absurd (ground arith)
      by_steps (s ∷ ss) e n =
          let valid = map (λ (t : PlanStep). t.step_number) (s ∷ ss) in
          let errors = (check_steps num registry valid (s ∷ ss)).0 in
          let long = when_true (ltb max_plan_steps (length (s ∷ ss))) PlanError.too_many_steps in
          let none_found : long ++ errors ++ check_schedule num zone_exists plan.schedule ≡ [] =
            is_empty-nil _ (ground arith) in
          let steps_and_length = append-nil_left _ _ none_found in
          let short = when_true-nil _ _ (append-nil_left long errors steps_and_length) in
          rw e (append-nil_right long errors steps_and_length, ground arith, ground arith)

-- A plan that is reported as feasible has between one step and the limit. Every step names a
-- registered tool of a permitted category, has no guard or one that parses, and refers to no step but
-- earlier ones of the plan.
pub check_plan-Sound :
    (num : Numerics) (max_plan_steps : ℕ) (zone_exists : Str → Bool) (plan : WorkflowPlan)
    (registry : Registry)
    → (check_plan num max_plan_steps zone_exists plan registry).is_ok ≡ true
    → (1 ≤ length plan.steps)
      × (length plan.steps ≤ max_plan_steps)
      × All (Sound num registry (map (λ t. t.step_number) plan.steps)) plan.steps
check_plan-Sound num max_plan_steps zone_exists plan registry h =
    let (clean, short, some_step) = check_plan-nil num max_plan_steps zone_exists plan registry h in
    (some_step, short, check_steps-Sound num registry _ plan.steps clean)
