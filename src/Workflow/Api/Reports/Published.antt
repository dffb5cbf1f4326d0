-- ===== src/Workflow/Api/Reports/Published.antt =====
-- The row of a workflow that publish creates for a scheduled report.
use agentic_fraud_decisionin.Common.{
  ℕ, ◌≡◌, refl, Str, Bool, true, Option, none, some, inl, inr, Bool-cases, arith, ap, ◌∙◌, codes,
}
use agentic_fraud_decisionin.Common.Value.{Value}
use agentic_fraud_decisionin.Common.Result.{ok, Result-cases}
use agentic_fraud_decisionin.Workflow.State
use agentic_fraud_decisionin.Workflow.State.{WorkflowState}
use agentic_fraud_decisionin.Workflow.Conditions.{Numerics}
use agentic_fraud_decisionin.Workflow.Plan.{PlannedSchedule, Schedule, WorkflowPlan}
use agentic_fraud_decisionin.Workflow.Registry.{Registry}
use agentic_fraud_decisionin.Workflow.Tables.{Workflow, Store, holds}
use agentic_fraud_decisionin.Workflow.Store
use agentic_fraud_decisionin.Workflow.Store.{
  get_workflow, transition, set_plan, set_schedule, set_next_run, now,
}
use agentic_fraud_decisionin.Workflow.Store.Laws.{
  transition-ok, transition-state, transition-row, find-update_self,
}
use agentic_fraud_decisionin.Workflow.Feasibility.{check_raises, check_plan}
use agentic_fraud_decisionin.Workflow.Executor.{Texts}
use agentic_fraud_decisionin.Workflow.Api.Reports.{publish}

-- The columns that a scheduled report fills.
pub record IsPrepared (plan : WorkflowPlan) (schedule : Schedule) (dest : Value) (w : Workflow)
    : Type 0 where
  pub plan_eq : w.plan ≡ some plan
  pub trigger_eq : w.trigger_type ≡ codes "schedule"
  pub schedule_eq : w.schedule ≡ holds schedule
  pub destination_eq : w.destination ≡ some dest

-- set_schedule fills the columns of a workflow that has its plan.
set_schedule-IsPrepared :
    (plan : WorkflowPlan) (schedule : Schedule) (dest : Value) (tid : Option Str) (s : Store)
    (id : Str) (w : Workflow)
    → get_workflow s id ≡ some w
    → w.plan ≡ some plan
    → (v : Workflow) × (get_workflow (set_schedule s id schedule (some dest) tid) id ≡ some v)
      × IsPrepared plan schedule dest v
unfolding set_schedule
set_schedule-IsPrepared plan schedule dest none s id w e p =
    let e1 = find-update_self id _ s.workflows w (λ x. refl) e in
    let e2 = find-update_self id _ _ _ (λ x. refl) e1 in
    let e3 = find-update_self id _ _ _ (λ x. refl) e2 in
    (_, e3, record { plan_eq = p; trigger_eq = refl; schedule_eq = refl; destination_eq = refl })
set_schedule-IsPrepared plan schedule dest (some t) s id w e p =
    let e1 = find-update_self id _ s.workflows w (λ x. refl) e in
    let e2 = find-update_self id _ _ _ (λ x. refl) e1 in
    let e3 = find-update_self id _ _ _ (λ x. refl) e2 in
    let e4 = find-update_self id _ _ _ (λ x. refl) e3 in
    (_, e4, record { plan_eq = p; trigger_eq = refl; schedule_eq = refl; destination_eq = refl })

transition-templates :
    (s s' : Store) (id : Str) (to : WorkflowState)
    → transition s id to ≡ ok s'
    → s'.templates ≡ s.templates
transition-templates s s' id to h =
    let (_, _, _, q) = transition-ok s s' id to h in ap (λ x. x.templates) q

set_schedule-templates :
    (s : Store) (id : Str) (schedule : Schedule) (dest : Value) (tid : Option Str)
    → (set_schedule s id schedule (some dest) tid).templates ≡ s.templates
unfolding set_schedule
set_schedule-templates s id schedule dest none = refl
set_schedule-templates s id schedule dest (some t) = refl

module _ (num : Numerics) (texts : Texts) (registry : Registry) (max_plan_steps : ℕ)
    (zone_exists : Str → Bool) (next_fire : Schedule → Option ℕ)
    (printed : Schedule → PlannedSchedule) where
  pub publish-ok :
      (s : Store) (user_id : Option Str) (instruction : Str) (plan : WorkflowPlan)
      (schedule : Schedule) (dest : Value) (tid : Option Str) (id : Str)
      → let out =
          publish num texts registry max_plan_steps zone_exists next_fire printed s user_id
            instruction plan
            (λ s id. set_schedule s id schedule (some dest) tid) in
        out.0 ≡ ok id
        → ((check_plan num max_plan_steps zone_exists plan registry).is_ok ≡ true)
          × ((w : Workflow) × (get_workflow out.1 id ≡ some w)
              × (w.state ≡ State.ready)
              × IsPrepared plan schedule dest w)
          × (out.1.templates ≡ s.templates)
  unfolding publish set_plan Store.create_workflow
  publish-ok s user_id instruction plan schedule dest tid id h =
      let report = check_plan num max_plan_steps zone_exists plan registry in
      let (wid, s1) = Store.create_workflow s user_id instruction in
      elim (Bool-cases (check_raises num plan registry)) [
        | inl z ↦ absurd (ground arith)
        | inr z ↦ elim (Bool-cases report.is_ok) [
          | inr n ↦ absurd (ground arith)
          | inl y ↦ elim (Result-cases (transition s1 wid State.planned)) [
            | inr (e, t) ↦ absurd (ground arith)
            | inl (s2, t) ↦
                let (w, f, _) = transition-state s1 s2 wid State.planned t in
                let f1 = find-update_self wid _ s2.workflows w (λ x. refl) f in
                let (v, g, kept) =
                  set_schedule-IsPrepared plan schedule dest tid (set_plan s2 wid plan) wid _ f1
                    refl in
                let s3 = set_schedule (set_plan s2 wid plan) wid schedule (some dest) tid in
                elim (Result-cases (transition s3 wid State.feasible)) [
                  | inr (e, u) ↦ absurd (ground arith)
                  | inl (s4, u) ↦ elim (Result-cases (transition s4 wid State.ready)) [
                    | inr (e, q) ↦ absurd (ground arith)
                    | inl (s5, q) ↦
                        let g4 = transition-row s3 s4 wid State.feasible v u g in
                        let g5 = transition-row s4 s5 wid State.ready _ q g4 in
                        let same : wid ≡ id = ground arith in
                        (
                          y,
                          (
                            record v { state = State.ready; updated_at = now s4 },
                            rw (z, publish, y, t, u, q) (rw (← same) g5),
                            refl,
                            record {
                              plan_eq = kept.plan_eq;
                              trigger_eq = kept.trigger_eq;
                              schedule_eq = kept.schedule_eq;
                              destination_eq = kept.destination_eq;
                            },
                          ),
                          rw (z, publish, y, t, u, q)
                              (transition-templates s4 s5 wid _ q
                                ∙ transition-templates s3 s4 wid _ u
                                ∙ set_schedule-templates (set_plan s2 wid plan) wid schedule dest
                                    tid
                                ∙ transition-templates s1 s2 wid _ t),
                        )
                  ]
                ]
          ]
        ]
      ]
