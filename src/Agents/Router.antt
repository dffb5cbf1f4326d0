-- ===== src/Agents/Router.antt =====
-- The routing of FraudOrchestrator in fraud_platform/agents/multi_agent/orchestrator.py. The pick of
-- the language model is an argument, and the findings of the specialists are left out.
pub mod Grounded
pub mod Tests
use agentic_fraud_decisionin.Common.{
  ℕ, zero, suc, ◌-◌, Bool, true, false, not, ◌&&◌, ◌||◌, List, [], ◌∷◌, ◌++◌, any, filter, length,
  leb, if◌then◌else◌,
}

pub data Agent : Type 0 where
  feature_agent risk_agent policy_agent decision_agent : Agent

unfoldable pub agent_eq : Agent → Agent → Bool
agent_eq feature_agent feature_agent = true
agent_eq risk_agent risk_agent = true
agent_eq policy_agent policy_agent = true
agent_eq decision_agent decision_agent = true
agent_eq _ _ = false

abbrev pub mem_agent : Agent → List Agent → Bool
mem_agent a xs = any (agent_eq a) xs

-- SPECIALIST_AGENTS of fraud_platform/agents/multi_agent/config.py.
unfoldable pub specialist_agents : List Agent
specialist_agents = feature_agent ∷ risk_agent ∷ policy_agent ∷ decision_agent ∷ []

unfoldable pub available : List Agent → List Agent
available invoked = filter (λ a. not (mem_agent a invoked)) specialist_agents

-- available == ["decision_agent"]
abbrev pub only_decision : List Agent → Bool
only_decision [] = false
only_decision (a ∷ []) = agent_eq a decision_agent
only_decision (a ∷ b ∷ xs) = false

-- choice not in available, so available[0]; with none left that raises, and the choice stands here.
abbrev pub first_or : Agent → List Agent → Agent
first_or a [] = a
first_or a (x ∷ xs) = x

abbrev pub allowed : Agent → List Agent → Agent
allowed choice left = if mem_agent choice left then choice else first_or choice left

abbrev pub grounded : Agent → List Agent → Agent
grounded choice invoked =
    if agent_eq choice decision_agent && not (mem_agent policy_agent invoked)
    then policy_agent
    else choice

-- _route, given the model's pick.
unfoldable pub route : ℕ → List Agent → Agent → Agent
route max_steps invoked pick =
    let left = available invoked in
    if only_decision left || leb (max_steps - 1) (length invoked)
    then (if mem_agent policy_agent left then policy_agent else decision_agent)
    else grounded (allowed pick left) invoked

-- The graph: the router, then its choice, until the decision has run. The fuel is the number of turns
-- allowed; the theorems give enough.
unfoldable pub run_graph : ℕ → ℕ → (List Agent → Agent) → List Agent → List Agent
unfolding agent_eq
run_graph zero max_steps pick invoked = invoked
run_graph (suc fuel) max_steps pick invoked =
    let choice = route max_steps invoked (pick invoked) in
    let rest = run_graph fuel max_steps pick (invoked ++ choice ∷ []) in
    if agent_eq choice decision_agent then invoked ++ choice ∷ [] else rest
