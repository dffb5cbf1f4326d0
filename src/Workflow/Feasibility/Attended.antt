-- ===== src/Workflow/Feasibility/Attended.antt =====
-- When the report of check_plan asks for an approval.
use agentic_fraud_decisionin.Common.{
  ℕ, ◌≡◌, refl, Str, Bool, true, false, none, some, List, [], ◌∷◌, any, map, inl, inr, Bool-cases,
  Option-cases, arith,
}
use agentic_fraud_decisionin.Workflow.Conditions.{Numerics}
use agentic_fraud_decisionin.Workflow.Plan.{PlanStep, WorkflowPlan}
use agentic_fraud_decisionin.Workflow.Registry.{Registry, get}
use agentic_fraud_decisionin.Workflow.Feasibility.{check_step, check_steps, check_plan}

-- The tool of the step is registered as one that needs an approval.
abbrev pub is_attended : Registry → PlanStep → Bool
is_attended registry s = elim (get registry s.tool_name) [
  | none ↦ false
  | some spec ↦ spec.requires_approval
]

module _ (num : Numerics) (registry : Registry) where
  check_step-is_attended :
      (valid : List ℕ) (s : PlanStep) → (check_step num registry valid s).1 ≡ is_attended registry s
  unfolding check_step
  check_step-is_attended valid s = elim (Option-cases (get registry s.tool_name)) [
    | inl e ↦ rw (e, check_step, is_attended) refl
    | inr (spec, e) ↦ rw (e, check_step, is_attended) refl
  ]

  check_steps-any :
      (valid : List ℕ) (ss : List PlanStep)
      → (check_steps num registry valid ss).1 ≡ any (is_attended registry) ss
  unfolding check_steps
  check_steps-any valid [] = refl
  check_steps-any valid (s ∷ ss) =
      rw (check_step-is_attended valid s, check_steps-any valid ss) refl

  pub requires_approval-any :
      (max_plan_steps : ℕ) (zone_exists : Str → Bool) (plan : WorkflowPlan)
      → (check_plan num max_plan_steps zone_exists plan registry).is_ok ≡ true
      → (check_plan num max_plan_steps zone_exists plan registry).requires_approval
        ≡ any (is_attended registry) plan.steps
  unfolding check_plan
  requires_approval-any max_plan_steps zone_exists plan h =
      elim (Bool-cases plan.needs_clarification) [
        | inl y ↦ absurd (ground arith)
        | inr n ↦ by_steps plan.steps refl n
      ]
    where
      by_steps :
          (ss : List PlanStep)
          → plan.steps ≡ ss
          → plan.needs_clarification ≡ false
          → (check_plan num max_plan_steps zone_exists plan registry).requires_approval
            ≡ any (is_attended registry) plan.steps
      by_steps [] e n = absurd (ground arith)
      by_steps (s ∷ ss) e n =
          let valid = map (λ (t : PlanStep). t.step_number) (s ∷ ss) in
          rw (n, check_plan, e) (check_steps-any valid (s ∷ ss))
