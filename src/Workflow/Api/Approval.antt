-- ===== src/Workflow/Api/Approval.antt =====
-- The approval gate: where a new workflow lands, and that a request does not pass it.
use agentic_fraud_decisionin.Common.{
  ℕ, ◌≡◌, ◌≢◌, refl, ap, Str, Bool, true, false, Option, none, some, any, inl, inr, Bool-cases, ◌∙◌,
  arith, if◌then◌else◌,
}
use agentic_fraud_decisionin.Common.Value.{Fields}
use agentic_fraud_decisionin.Common.Result.{ok, err, Result-cases}
use agentic_fraud_decisionin.Workflow.State
use agentic_fraud_decisionin.Workflow.State.{WorkflowState}
use agentic_fraud_decisionin.Workflow.Conditions.{Numerics}
use agentic_fraud_decisionin.Workflow.Plan.{WorkflowPlan}
use agentic_fraud_decisionin.Workflow.Registry.{Registry}
use agentic_fraud_decisionin.Workflow.Tables.{Workflow, Store}
use agentic_fraud_decisionin.Workflow.Store
use agentic_fraud_decisionin.Workflow.Store.{
  StoreError, now, find_workflow, get_workflow, transition, set_plan, set_trigger,
}
use agentic_fraud_decisionin.Workflow.Store.Laws.{
  transition-state, transition-row, find-update_self,
}
use agentic_fraud_decisionin.Workflow.Feasibility.{Report, check_raises, check_plan}
use agentic_fraud_decisionin.Workflow.Feasibility.Attended.{is_attended, requires_approval-any}
use agentic_fraud_decisionin.Workflow.Executor.{Texts, RunResult}
use agentic_fraud_decisionin.Workflow.Scheduler.{arming}
use agentic_fraud_decisionin.Workflow.Api.Requests.{arm-ok, execute_starts}
use agentic_fraud_decisionin.Workflow.Api.{
  Response, HttpError, store_error, planner_failed, check_failed, after_transition, execute, review,
  place, answered, create_workflow,
}

-- REJECTED when the plan is not feasible, AWAITING_APPROVAL when it needs one, READY otherwise.
abbrev landing : Report → WorkflowState
landing r =
    if r.is_ok
    then (if r.requires_approval then State.awaiting_approval else State.ready)
    else State.rejected

-- The workflow is stored with this plan.
abbrev Holds : Option WorkflowPlan → Store → Str → Type 0
Holds plan s id = (w : Workflow) × (get_workflow s id ≡ some w) × (w.plan ≡ plan)

-- A response that reports a workflow leaves it where its report says, with this plan.
abbrev Landed : Option WorkflowPlan → Response (Str × Report) → Type 0
Landed plan r =
    (id : Str) (report : Report)
    → r.0 ≡ ok (id, report)
    → (w : Workflow) × (get_workflow r.1 id ≡ some w) × (w.state ≡ landing report) × (w.plan ≡ plan)

after_transition_cases :
    {A : Type 0} (P : Response A → Type 0) (s : Store) (id : Str) (to : WorkflowState)
    (next : Store → Response A)
    → ((e : StoreError) → P (err (store_error e), s))
    → ((s' : Store) → transition s id to ≡ ok s' → P (next s'))
    → P (after_transition s id to next)
after_transition_cases P s id to next refused accepted = elim (Result-cases (transition s id to)) [
  | inl (s', t) ↦ rw (t, after_transition) (accepted s' t)
  | inr (e, t) ↦ rw (t, after_transition) (refused e)
]

refused : (plan : Option WorkflowPlan) (s : Store) (e : HttpError) → Landed plan (err e, s)
refused plan s e id report h = absurd (ground arith)

-- A change of state keeps the plan.
transition-Holds :
    (plan : Option WorkflowPlan) (s s' : Store) (id : Str) (to : WorkflowState)
    → transition s id to ≡ ok s'
    → Holds plan s id
    → Holds plan s' id
transition-Holds plan s s' id to t (w, e, p) =
    (record w { state = to; updated_at = now s }, transition-row s s' id to w t e, p)

lands :
    (plan : Option WorkflowPlan) (s : Store) (id : Str) (to : WorkflowState) (report : Report)
    → to ≡ landing report
    → Holds plan s id
    → Landed plan (after_transition s id to (λ s'. (ok (id, report), s')))
lands plan s id to report l (v, e, p) =
    after_transition_cases (Landed plan) s id to (λ s'. (ok (id, report), s'))
      (λ x. refused plan s _)
      (λ s' t wid given h.
        let same : id ≡ wid = ground arith in
        let report_same : report ≡ given = ground arith in
        (
          record v { state = to; updated_at = now s },
          rw (← same) (transition-row s s' id to v t e),
          l ∙ ap landing report_same,
          p,
        ))

place-Landed :
    (plan : Option WorkflowPlan) (s : Store) (id : Str) (report : Report)
    (fits needs_approval : Bool)
    → Holds plan s id
    → report.is_ok ≡ fits
    → report.requires_approval ≡ needs_approval
    → Landed plan (place s id report fits needs_approval)
place-Landed plan s id report false a held f n =
    lands plan s id State.rejected report (ground arith) held
place-Landed plan s id report true a held f n =
    after_transition_cases (Landed plan) s id State.feasible
      (λ s1.
        after_transition s1 id (if a then State.awaiting_approval else State.ready)
          (λ s2. (ok (id, report), s2)))
      (λ e. refused plan s _)
      (λ s1 t.
        lands plan s1 id _ report (ground arith)
          (transition-Holds plan s s1 id State.feasible t held))

-- A place that is accepted answers with the report that it is given.
place-report :
    (s : Store) (id : Str) (report : Report) (fits needs_approval : Bool) {wid : Str}
    {given : Report}
    → (place s id report fits needs_approval).0 ≡ ok (wid, given)
    → given ≡ report
place-report s id report false a h = elim (Result-cases (transition s id State.rejected)) [
  | inl (s', t) ↦ ground arith
  | inr (e, t) ↦ absurd (ground arith)
]
place-report s id report true a h = elim (Result-cases (transition s id State.feasible)) [
  | inr (e, t) ↦ absurd (ground arith)
  | inl (s1, t) ↦
      let to = if a then State.awaiting_approval else State.ready in
      elim (Result-cases (transition s1 id to)) [
        | inl (s2, u) ↦ ground arith
        | inr (e, u) ↦ absurd (ground arith)
      ]
]

-- Where a plan belongs that is feasible or not, and whose steps need an approval or not.
abbrev pub landing_state : Bool → Bool → WorkflowState
landing_state false attended = State.rejected
landing_state true true = State.awaiting_approval
landing_state true false = State.ready

landing-check_plan :
    (num : Numerics) (registry : Registry) (max_plan_steps : ℕ) (zone_exists : Str → Bool)
    (plan : WorkflowPlan)
    → landing (check_plan num max_plan_steps zone_exists plan registry)
      ≡ landing_state
          (check_plan num max_plan_steps zone_exists plan registry).is_ok
          (any (is_attended registry) plan.steps)
landing-check_plan num registry max_plan_steps zone_exists plan =
    let r = check_plan num max_plan_steps zone_exists plan registry in
    elim (Bool-cases r.is_ok) [
      | inl y ↦
          let attended = requires_approval-any num registry max_plan_steps zone_exists plan y in
          elim (Bool-cases (any (is_attended registry) plan.steps)) [
            | inl a ↦ rw (y, attended, a) refl
            | inr a ↦ rw (y, attended, a) refl
          ]
      | inr n ↦ rw n refl
    ]

only : (v w : Workflow) (o : Option Workflow) → o ≡ some v → o ≡ some w → v ≡ w
only v w o e f = cc

module _ (num : Numerics) (texts : Texts) (registry : Registry) where
  module _ (max_plan_steps : ℕ) (zone_exists : Str → Bool) where
    answered-Landed :
        (answer : Option WorkflowPlan) (s : Store) (id : Str) (w : Workflow)
        → get_workflow s id ≡ some w
        → Landed answer (answered num texts registry max_plan_steps zone_exists answer s id)
    unfolding set_plan set_trigger
    answered-Landed none s id w e = refused none s planner_failed
    answered-Landed (some plan) s id w e =
        let s1 = set_plan s id plan in
        let s2 = set_trigger s1 id plan.trigger in
        let w1 : Workflow = record w { plan = some plan; updated_at = now s } in
        let e1 : get_workflow s1 id ≡ some w1 = find-update_self id _ s.workflows w (λ v. refl) e in
        let e2 = find-update_self id _ s1.workflows w1 (λ v. refl) e1 in
        elim (Bool-cases (check_raises num plan registry)) [
          | inl y ↦ rw y (refused (some plan) s2 check_failed)
          | inr n ↦ rw n (
              place-Landed (some plan) s2 id
                (review num texts registry max_plan_steps zone_exists plan) _ _
                (record w1 { trigger = plan.trigger; updated_at = now s1 }, e2, refl) refl refl)
        ]

    create_workflow-Landed :
        (s : Store) (user_id : Option Str) (instruction : Str) (answer : Option WorkflowPlan)
        → Landed answer (
            create_workflow num texts registry max_plan_steps zone_exists s user_id instruction
              answer)
    unfolding create_workflow
    create_workflow-Landed s user_id instruction answer =
        let (id, s1) = Store.create_workflow s user_id instruction in
        after_transition_cases (Landed answer) s1 id State.planned _
          (λ e. refused answer s1 (store_error e))
          (λ s2 t.
            let (w, f, d) = transition-state s1 s2 id State.planned t in
            answered-Landed answer s2 id w f)

    answered-report :
        (answer : Option WorkflowPlan) (s : Store) (id : Str) {wid : Str} {report : Report}
        → (answered num texts registry max_plan_steps zone_exists answer s id).0 ≡ ok (wid, report)
        → (plan : WorkflowPlan) × (answer ≡ some plan)
          × (report ≡ check_plan num max_plan_steps zone_exists plan registry)
    answered-report none s id h = absurd (ground arith)
    answered-report (some plan) s id {wid = i} {report = given} h =
        elim (Bool-cases (check_raises num plan registry)) [
          | inl y ↦ absurd (ground arith)
          | inr n ↦
              let r = review num texts registry max_plan_steps zone_exists plan in
              let s1 = set_trigger (set_plan s id plan) id plan.trigger in
              let placed : (place s1 id r r.is_ok r.requires_approval).0 ≡ ok (i, given) =
                ground arith in
              (plan, refl, place-report s1 id r r.is_ok r.requires_approval placed)
        ]

    -- The report in an accepted response is that of check_plan on the planner's answer.
    create_workflow-report :
        (s : Store) (user_id : Option Str) (instruction : Str) (answer : Option WorkflowPlan)
        {id : Str} {report : Report}
        → (create_workflow num texts registry max_plan_steps zone_exists s user_id instruction
            answer).0
          ≡ ok (id, report)
        → (plan : WorkflowPlan) × (answer ≡ some plan)
          × (report ≡ check_plan num max_plan_steps zone_exists plan registry)
    unfolding create_workflow
    create_workflow-report s user_id instruction answer {id = i} {report = given} h =
        let (id, s1) = Store.create_workflow s user_id instruction in
        elim (Result-cases (transition s1 id State.planned)) [
          | inr (e, t) ↦ absurd (ground arith)
          | inl (s2, t) ↦
              let reported : (answered num texts registry max_plan_steps zone_exists answer s2 id).0
                  ≡ ok (i, given) =
                ground arith in
              answered-report answer s2 id reported
        ]

    -- A request that creates a workflow has a plan from the planner, and stores it. The workflow is
    -- left REJECTED when check_plan does not accept that plan, in AWAITING_APPROVAL when it does and
    -- the tool of one of the steps is registered as needing approval, and in READY when it does and
    -- no step has such a tool.
    pub create_workflow-landing :
        (s : Store) (user_id : Option Str) (instruction : Str) (answer : Option WorkflowPlan)
        {id : Str} {report : Report}
        → (create_workflow num texts registry max_plan_steps zone_exists s user_id instruction
            answer).0
          ≡ ok (id, report)
        → (w : Workflow) × (plan : WorkflowPlan) × (answer ≡ some plan)
          × (get_workflow
                (create_workflow num texts registry max_plan_steps zone_exists s user_id instruction
                  answer).1
                id
              ≡ some w)
          × (w.plan ≡ some plan)
          × (w.state
              ≡ landing_state
                  (check_plan num max_plan_steps zone_exists plan registry).is_ok
                  (any (is_attended registry) plan.steps))
    create_workflow-landing s user_id instruction answer h =
        let (w, e, l, p) = create_workflow-Landed s user_id instruction answer _ _ h in
        let (plan, a, r) = create_workflow-report s user_id instruction answer h in
        (
          w,
          plan,
          a,
          e,
          p ∙ a,
          l ∙ ap landing r ∙ landing-check_plan num registry max_plan_steps zone_exists plan,
        )

    -- A request to execute a workflow, right after the one that created it with a feasible plan that
    -- needs an approval, does not run it.
    pub approval_gate :
        (s : Store) (user_id : Option Str) (instruction : Str) (answer : Option WorkflowPlan)
        (payload : Fields) {id : Str} {report : Report} (x : RunResult)
        → (create_workflow num texts registry max_plan_steps zone_exists s user_id instruction
            answer).0
          ≡ ok (id, report)
        → report.is_ok ≡ true
        → report.requires_approval ≡ true
        → (execute num texts registry
            (create_workflow num texts registry max_plan_steps zone_exists s user_id instruction
              answer).1
            id
            payload).0
          ≢ ok x
    approval_gate s user_id instruction answer payload x h y a q =
        let (w, e, l, _) = create_workflow-Landed s user_id instruction answer _ _ h in
        let (w', p, e', _, g, _) = execute_starts num texts registry _ _ payload q in
        let waiting : w.state ≡ State.awaiting_approval = l ∙ ground arith in
        arm-ok _ _ _ w' e' g (ap (λ v. arming v.state) (only w' w _ e' e) ∙ ap arming waiting)
