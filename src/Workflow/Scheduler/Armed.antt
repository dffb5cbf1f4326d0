-- ===== src/Workflow/Scheduler/Armed.antt =====
-- The states from which a run may be started, by a request or by a fire.
use agentic_fraud_decisionin.Common.{◌≡◌, ◌≢◌, refl, ◌⊎◌, inl, inr}
use agentic_fraud_decisionin.Workflow.State
use agentic_fraud_decisionin.Workflow.State.{WorkflowState}
use agentic_fraud_decisionin.Workflow.Scheduler.{arming, stuck}

-- READY, FEASIBLE, COMPLETED or FAILED.
abbrev pub IsStartable : WorkflowState → Type 0
IsStartable s =
    (s ≡ State.ready) ⊎ ((s ≡ State.feasible) ⊎ ((s ≡ State.completed) ⊎ (s ≡ State.failed)))

pub arming-IsStartable : (s : WorkflowState) → arming s ≢ stuck → IsStartable s
arming-IsStartable State.WorkflowState.ready n = inl refl
arming-IsStartable State.WorkflowState.feasible n = inr (inl refl)
arming-IsStartable State.WorkflowState.completed n = inr (inr (inl refl))
arming-IsStartable State.WorkflowState.failed n = inr (inr (inr refl))
arming-IsStartable State.WorkflowState.submitted n = absurd (n refl)
arming-IsStartable State.WorkflowState.planned n = absurd (n refl)
arming-IsStartable State.WorkflowState.rejected n = absurd (n refl)
arming-IsStartable State.WorkflowState.awaiting_approval n = absurd (n refl)
arming-IsStartable State.WorkflowState.running n = absurd (n refl)
arming-IsStartable State.WorkflowState.paused n = absurd (n refl)
