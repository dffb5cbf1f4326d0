-- ===== src/Agents/Router/Tests.antt =====
-- An evaluation whose model always picks the decision, and the theorem at it.
use agentic_fraud_decisionin.Common.{◌≡◌, refl, List, [], ◌∷◌}
use agentic_fraud_decisionin.Agents.Router.{
  Agent, policy_agent, decision_agent, agent_eq, specialist_agents, available, route, run_graph,
}
use agentic_fraud_decisionin.Agents.Router.Grounded.{Decided, evaluation-Decided}

abbrev hasty : List Agent → Agent
hasty invoked = decision_agent

-- The policy agent is run first all the same.
hasty_run : run_graph 4 6 hasty [] ≡ policy_agent ∷ decision_agent ∷ []
unfolding run_graph route available specialist_agents agent_eq
hasty_run = refl

evaluation-Decided_example : (before : List Agent) × Decided (run_graph 4 6 hasty []) before
evaluation-Decided_example = evaluation-Decided 6 hasty
