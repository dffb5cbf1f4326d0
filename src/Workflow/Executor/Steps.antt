-- ===== src/Workflow/Executor/Steps.antt =====
-- The ways in which one step can go, once for all proofs about a run.
use agentic_fraud_decisionin.Common.{
  ℕ, suc, ◌≡◌, refl, Str, true, false, none, some, List, [], ◌∷◌, ◌⊎◌, inl, inr, Option-cases,
  Bool-cases,
}
use agentic_fraud_decisionin.Common.Value.{Value, Fields}
use agentic_fraud_decisionin.Common.Result.{ok, err, Result-cases}
use agentic_fraud_decisionin.Workflow.Conditions.{Numerics, RunError}
use agentic_fraud_decisionin.Workflow.Plan.{PlanStep}
use agentic_fraud_decisionin.Workflow.Registry.{Registry, execute as dispatch}
use agentic_fraud_decisionin.Workflow.Feasibility.{guard_of}
use agentic_fraud_decisionin.Workflow.Executor.{
  Texts, Loop, Progress, args_raise, depends_on, guard_false, deliver, skip, fail, succeed, perform,
  guard_passes, blocked, run_step, run_steps, resolve_args,
}
use agentic_fraud_decisionin.Workflow.Tables.{Store, StepStatus}
use agentic_fraud_decisionin.Workflow.Store.{
  StoreError, not_encodable, long_number, checkpoint_step, write_outbox,
}

-- The loop after a dispatch: only the outbox and the count of dispatches have moved.
abbrev pub dispatched : Loop → List (Str × Fields) → Loop
dispatched l sent = record l { store = record (deliver l.store sent) { calls = suc l.store.calls } }

-- Nothing was dispatched, or the messages of one dispatch were delivered.
abbrev pub Touched : Loop → Loop → Type 0
Touched l m = (m ≡ l) ⊎ ((sent : List (Str × Fields)) × (m ≡ dispatched l sent))

List-cases {ℓ} : {A : Type ℓ} (xs : List A) → (xs ≡ []) ⊎ ((x : A) × (ys : List A) × (xs ≡ x ∷ ys))
List-cases [] = inl refl
List-cases (x ∷ xs) = inr (x, xs, refl)

module _ (num : Numerics) (texts : Texts) (registry : Registry) (run_id : Str) (payload : Fields)
    (P : Progress → Type 0) (l : Loop) (s : PlanStep) where
  -- Why an exception leaves the loop at this step: the number of an argument, or a result.
  abbrev pub Raising : Type 0
  Raising =
      (args_raise s.args ≡ true)
      ⊎ ((call : ℕ) × (args : Fields) × (v : Value) × ((dispatch registry call s.tool_name
              args).result
            ≡ ok v)
          × (texts.encodes v ≡ false))

  pub perform_cases :
      ((m : Loop) (e : RunError) → Touched l m → P (fail num texts registry run_id m s e))
      → ((m : Loop) (args : Fields) (v : Value)
          → Touched l m
          → P (succeed num texts registry run_id m s args v, ok none))
      → ((m : Loop) (x : StoreError) → Touched l m → Raising → P (m, err x))
      → P (perform num texts registry run_id payload l s)
  unfolding perform
  perform_cases on_fail on_ok on_raise =
      elim (Result-cases (resolve_args s.args payload l.results)) [
        | inr (e, q) ↦ rw (q, perform) (on_fail l e (inl refl))
        | inl (args, q) ↦
            let r = dispatch registry l.store.calls s.tool_name args in
            elim (Result-cases r.result) [
              | inr (e, p) ↦ rw (q, perform, p) (on_fail _ e (inr (r.sent, refl)))
              | inl (v, p) ↦ elim (Bool-cases (texts.encodes v)) [
                | inl c ↦ rw (q, perform, p, c) (on_ok _ args v (inr (r.sent, refl)))
                | inr c ↦
                    rw (q, perform, p, c)
                      (on_raise _ not_encodable (inr (r.sent, refl))
                        (inr (l.store.calls, args, v, p, c)))
              ]
            ]
      ]

  pub run_step_cases :
      ((k : ℕ) (ks : List ℕ)
        → blocked num texts registry l s ≡ k ∷ ks
        → P (skip num texts registry run_id l s (depends_on (k ∷ ks)), ok none))
      → ((w : Str)
          → blocked num texts registry l s ≡ []
          → guard_of s ≡ some w
          → P (skip num texts registry run_id l s (guard_false w), ok none))
      → ((m : Loop) (e : RunError)
          → blocked num texts registry l s ≡ []
          → Touched l m
          → P (fail num texts registry run_id m s e))
      → ((m : Loop) (args : Fields) (v : Value)
          → blocked num texts registry l s ≡ []
          → Touched l m
          → P (succeed num texts registry run_id m s args v, ok none))
      → ((m : Loop) (x : StoreError) → Touched l m → Raising → P (m, err x))
      → P (run_step num texts registry run_id payload l s)
  unfolding run_step
  run_step_cases on_blocked on_guard on_fail on_ok on_raise =
      elim (Bool-cases (args_raise s.args)) [
        | inl a ↦ rw (a, run_step) (on_raise l long_number (inl refl) (inl a))
        | inr a ↦ elim (List-cases (blocked num texts registry l s)) [
          | inr (k, ks, b) ↦ rw (a, run_step, b) (on_blocked k ks b)
          | inl b ↦
              let act = perform_cases (λ m e. on_fail m e b) (λ m a v. on_ok m a v b) on_raise in
              elim (Option-cases (guard_of s)) [
                | inl g ↦ rw (a, run_step, b, g) act
                | inr (w, g) ↦
                    elim (Result-cases (guard_passes num texts registry w payload l.results)) [
                      | inr (e, q) ↦ rw (a, run_step, b, g, q) (on_fail l e b (inl refl))
                      | inl (true, q) ↦ rw (a, run_step, b, g, q) act
                      | inl (false, q) ↦ rw (a, run_step, b, g, q) (on_guard w b g)
                    ]
              ]
        ]
      ]

-- What every statement of a run keeps, the run keeps.
module _ (num : Numerics) (texts : Texts) (registry : Registry) (run_id : Str) (payload : Fields)
    (Q : Store → Type 0)
    (keeps_checkpoint : (s : Store) (n : ℕ) (tool : Str) (args : Fields) (v : Value)
        (st : StepStatus)
      → Q s
      → Q (checkpoint_step s run_id n tool args v st))
    (keeps_outbox : (s : Store) (c : Str) (p : Fields) → Q s → Q (write_outbox s c p))
    (keeps_calls : (s : Store) (n : ℕ) → Q s → Q (record s { calls = n })) where
  deliver_keeps : (s : Store) (ms : List (Str × Fields)) → Q s → Q (deliver s ms)
  unfolding deliver
  deliver_keeps s [] q = q
  deliver_keeps s ((c, p) ∷ ms) q = deliver_keeps (write_outbox s c p) ms (keeps_outbox s c p q)

  touched_keeps : (l m : Loop) → Touched l m → Q l.store → Q m.store
  touched_keeps l m (inl e) q = rw e q
  touched_keeps l m (inr (sent, e)) q = rw e (keeps_calls _ _ (deliver_keeps l.store sent q))

  run_step_keeps :
      (l : Loop) (s : PlanStep)
      → Q l.store
      → Q (run_step num texts registry run_id payload l s).0.store
  unfolding skip fail succeed
  run_step_keeps l s q =
      run_step_cases num texts registry run_id payload (λ r. Q r.0.store) l s
        (λ k ks b. keeps_checkpoint _ _ _ _ _ _ q) (λ w b g. keeps_checkpoint _ _ _ _ _ _ q)
        (λ m e b h. keeps_checkpoint _ _ _ _ _ _ (touched_keeps l m h q))
        (λ m a v b h. keeps_checkpoint _ _ _ _ _ _ (touched_keeps l m h q))
        (λ m x h z. touched_keeps l m h q)

  pub run_steps_keeps :
      (l : Loop) (ss : List PlanStep)
      → Q l.store
      → Q (run_steps num texts registry run_id payload l ss).0.store
  unfolding run_steps
  run_steps_keeps l [] q = q
  run_steps_keeps l (s ∷ ss) q =
      let step = run_step num texts registry run_id payload l s in
      elim (Result-cases step.1) [
        | inr (x, e) ↦ rw (e, run_steps) (run_step_keeps l s q)
        | inl (none, e) ↦ rw (e, run_steps) (run_steps_keeps step.0 ss (run_step_keeps l s q))
        | inl (some f, e) ↦ rw (e, run_steps) (run_step_keeps l s q)
      ]
