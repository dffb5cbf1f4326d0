-- ===== src/Agents/Router/Grounded.antt =====
-- Every evaluation ends in one decision, after the policy agent and with no agent run twice.
use agentic_fraud_decisionin.Common.{
  ℕ, zero, suc, ◌+◌, ◌<◌, ◌≡◌, refl, ap, ◌∙◌, true, false, List, [], ◌∷◌, ◌++◌, any-append, ◌⊎◌,
  inl, inr, Bool-cases, arith, if◌then◌else◌,
}
use agentic_fraud_decisionin.Agents.Router.{
  Agent, feature_agent, risk_agent, policy_agent, decision_agent, agent_eq, mem_agent,
  specialist_agents, available, route, run_graph,
}

-- A choice that may be taken: fresh, and no decision before the policy agent has run.
abbrev pub MayRun : List Agent → Agent → Type 0
MayRun invoked c =
    (mem_agent c invoked ≡ false)
    × ((agent_eq c decision_agent ≡ false) ⊎ (mem_agent policy_agent invoked ≡ true))

route-MayRun :
    (m : ℕ) (invoked : List Agent) (pick : Agent)
    → mem_agent decision_agent invoked ≡ false
    → MayRun invoked (route m invoked pick)
unfolding route available specialist_agents agent_eq
route-MayRun m invoked feature_agent d = ground arith
route-MayRun m invoked risk_agent d = ground arith
route-MayRun m invoked policy_agent d = ground arith
route-MayRun m invoked decision_agent d = ground arith

-- The specialists other than the decision agent that have not run.
abbrev pub remaining : List Agent → ℕ
remaining invoked =
    (if mem_agent feature_agent invoked then 0 else 1)
    + (if mem_agent risk_agent invoked then 0 else 1)
    + (if mem_agent policy_agent invoked then 0 else 1)

abbrev pub Distinct : List Agent → Type 0
Distinct [] = Unit {0}
Distinct (a ∷ xs) = (mem_agent a xs ≡ false) × Distinct xs

-- The agents of one evaluation: `before` and then the decision.
pub record Decided (agents before : List Agent) : Type 0 where
  pub ends : agents ≡ before ++ decision_agent ∷ []
  pub distinct : Distinct agents
  pub policy_first : mem_agent policy_agent before ≡ true

agent_eq-sym : (a b : Agent) → agent_eq a b ≡ agent_eq b a
unfolding agent_eq
agent_eq-sym feature_agent feature_agent = refl
agent_eq-sym feature_agent risk_agent = refl
agent_eq-sym feature_agent policy_agent = refl
agent_eq-sym feature_agent decision_agent = refl
agent_eq-sym risk_agent feature_agent = refl
agent_eq-sym risk_agent risk_agent = refl
agent_eq-sym risk_agent policy_agent = refl
agent_eq-sym risk_agent decision_agent = refl
agent_eq-sym policy_agent feature_agent = refl
agent_eq-sym policy_agent risk_agent = refl
agent_eq-sym policy_agent policy_agent = refl
agent_eq-sym policy_agent decision_agent = refl
agent_eq-sym decision_agent feature_agent = refl
agent_eq-sym decision_agent risk_agent = refl
agent_eq-sym decision_agent policy_agent = refl
agent_eq-sym decision_agent decision_agent = refl

decision_is : (c : Agent) → agent_eq c decision_agent ≡ true → c ≡ decision_agent
unfolding agent_eq
decision_is feature_agent h = absurd (ground arith)
decision_is risk_agent h = absurd (ground arith)
decision_is policy_agent h = absurd (ground arith)
decision_is decision_agent h = refl

Distinct-snoc :
    (xs : List Agent) (c : Agent) → Distinct xs → mem_agent c xs ≡ false → Distinct (xs ++ c ∷ [])
Distinct-snoc [] c d n = (refl, tt)
Distinct-snoc (x ∷ xs) c d n = (
  any-append (agent_eq x) xs (c ∷ []) ∙ ground (arith, agent_eq-sym x c, d, n),
  Distinct-snoc xs c d.1 (ground (arith, n)),
)

remaining-snoc :
    (xs : List Agent) (c : Agent)
    → mem_agent c xs ≡ false
    → agent_eq c decision_agent ≡ false
    → remaining (xs ++ c ∷ []) + 1 ≡ remaining xs
unfolding agent_eq
remaining-snoc xs feature_agent n d = ground (
  arith,
  any-append (agent_eq feature_agent) xs (feature_agent ∷ []),
  any-append (agent_eq risk_agent) xs (feature_agent ∷ []),
  any-append (agent_eq policy_agent) xs (feature_agent ∷ []),
)
remaining-snoc xs risk_agent n d = ground (
  arith,
  any-append (agent_eq feature_agent) xs (risk_agent ∷ []),
  any-append (agent_eq risk_agent) xs (risk_agent ∷ []),
  any-append (agent_eq policy_agent) xs (risk_agent ∷ []),
)
remaining-snoc xs policy_agent n d = ground (
  arith,
  any-append (agent_eq feature_agent) xs (policy_agent ∷ []),
  any-append (agent_eq risk_agent) xs (policy_agent ∷ []),
  any-append (agent_eq policy_agent) xs (policy_agent ∷ []),
)
remaining-snoc xs decision_agent n d = absurd (ground arith)

no_decision-snoc :
    (xs : List Agent) (c : Agent)
    → mem_agent decision_agent xs ≡ false
    → agent_eq c decision_agent ≡ false
    → mem_agent decision_agent (xs ++ c ∷ []) ≡ false
no_decision-snoc xs c n d =
    any-append (agent_eq decision_agent) xs (c ∷ [])
    ∙ ground (arith, n, d, agent_eq-sym decision_agent c)

run_graph-Decided :
    (fuel m : ℕ) (pick : List Agent → Agent) (invoked : List Agent)
    → remaining invoked < fuel
    → mem_agent decision_agent invoked ≡ false
    → Distinct invoked
    → (before : List Agent) × Decided (run_graph fuel m pick invoked) before
unfolding run_graph
run_graph-Decided zero m pick invoked l d u = absurd (omega arith)
run_graph-Decided (suc fuel) m pick invoked l d u =
    let c = route m invoked (pick invoked) in
    let (fresh, may) = route-MayRun m invoked (pick invoked) d in
    elim (Bool-cases (agent_eq c decision_agent)) [
      | inl y ↦ (
        invoked,
        rw (y, run_graph)
            (record {
              ends = ap (λ a. invoked ++ a ∷ []) (decision_is c y);
              distinct = Distinct-snoc invoked c u fresh;
              policy_first = elim may [ inl n ↦ absurd (ground arith) | inr p ↦ p ];
            }),
      )
      | inr n ↦
          let (before, r) =
            run_graph-Decided fuel m pick (invoked ++ c ∷ [])
              (omega (arith, remaining-snoc invoked c fresh n)) (no_decision-snoc invoked c d n)
              (Distinct-snoc invoked c u fresh) in
          (before, rw (n, run_graph) r)
    ]

-- Whatever the model picks and whatever the cap on turns, four turns are enough: the evaluation ends
-- with the decision agent, no agent runs twice, and the policy agent runs before the decision.
pub evaluation-Decided :
    (m : ℕ) (pick : List Agent → Agent)
    → (before : List Agent) × Decided (run_graph 4 m pick []) before
evaluation-Decided m pick = run_graph-Decided 4 m pick [] (omega arith) refl tt
