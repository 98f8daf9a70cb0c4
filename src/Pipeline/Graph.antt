-- ===== src/Pipeline/Graph.antt =====
-- build_orchestrator_graph of backend/orchestrator/graph.py. The nodes that call a language model
-- or a database are given as functions.
use text2cypher_manufacturin.Common.{
  ℕ, zero, suc, Bool, ◌==◌, Option, none, some, List, [], ◌∷◌, lookup, if◌then◌else◌,
}
use text2cypher_manufacturin.Python.{Value, str}
use text2cypher_manufacturin.Python.Exceptions.{Exception, Call, returns, raises}
use text2cypher_manufacturin.Pipeline.State.{OrchestratorState, update, has_failure, key_error}
use text2cypher_manufacturin.Pipeline.Nodes.{guard_request}
use text2cypher_manufacturin.Pipeline.Strict.{Node, StrictEnv, strict_query}

pub data NodeName : Type 0 where
  guard_request_node classify_topic_node strict_query_node resolve_entity_node route_query_node
        plan_outputs_node execute_plan_node compose_results_node generate_answer_node :
      NodeName

pub record Env : Type 0 where
  pub is_alnum : ℕ → Bool
  pub strict : StrictEnv
  pub classify_topic : Node
  pub resolve_entity : Node
  pub route_query : Node
  pub plan_outputs : Node
  pub execute_plan : Node
  pub compose_results : Node
  pub generate_answer : Node

abbrev pub node_of : Env → NodeName → Node
node_of env guard_request_node = guard_request env.is_alnum
node_of env classify_topic_node = env.classify_topic
node_of env strict_query_node = strict_query env.strict
node_of env resolve_entity_node = env.resolve_entity
node_of env route_query_node = env.route_query
node_of env plan_outputs_node = env.plan_outputs
node_of env execute_plan_node = env.execute_plan
node_of env compose_results_node = env.compose_results
node_of env generate_answer_node = env.generate_answer

-- {"strict": "generate_answer", "pr61": "resolve_entity"}[strategy]
abbrev pub by_strategy : Option Value → Call (Option NodeName)
by_strategy none = returns (some resolve_entity_node)
by_strategy (some (str s)) =
    if s == "strict"
    then returns (some generate_answer_node)
    else if s == "pr61"
    then returns (some resolve_entity_node)
    else raises key_error
by_strategy (some v) = raises key_error

-- The edges; `none` is END.
abbrev pub next_node : NodeName → OrchestratorState → Call (Option NodeName)
next_node guard_request_node state =
    returns (some (if has_failure state then generate_answer_node else classify_topic_node))
next_node classify_topic_node state =
    returns (some (if has_failure state then generate_answer_node else strict_query_node))
next_node strict_query_node state = by_strategy (lookup "query_strategy" state)
next_node resolve_entity_node state = returns (some route_query_node)
next_node route_query_node state = returns (some plan_outputs_node)
next_node plan_outputs_node state = returns (some execute_plan_node)
next_node execute_plan_node state = returns (some compose_results_node)
next_node compose_results_node state = returns (some generate_answer_node)
next_node generate_answer_node state = returns none

-- How a run ends, with the nodes that were entered, in order.
pub data GraphRun : Type 0 where
  answered : OrchestratorState → List NodeName → GraphRun
  crashed : Exception → List NodeName → GraphRun
  out_of_steps : GraphRun

abbrev pub entered : NodeName → GraphRun → GraphRun
entered name (answered state trace) = answered state (name ∷ trace)
entered name (crashed exc trace) = crashed exc (name ∷ trace)
entered name out_of_steps = out_of_steps

abbrev pub along :
    (NodeName → OrchestratorState → GraphRun)
    → OrchestratorState
    → Call (Option NodeName)
    → GraphRun
along more state (raises exc) = crashed exc []
along more state (returns none) = answered state []
along more state (returns (some name)) = more name state

abbrev pub after_update :
    (NodeName → OrchestratorState → GraphRun)
    → NodeName
    → OrchestratorState
    → Call OrchestratorState
    → GraphRun
after_update more name state (raises exc) = crashed exc []
after_update more name state (returns changes) =
    along more (update state changes) (next_node name (update state changes))

-- The run from a node on, with a number of nodes as fuel.
unfoldable pub run_from : Env → (fuel : ℕ) → NodeName → OrchestratorState → GraphRun
run_from env zero name state = out_of_steps
run_from env (suc fuel) name state =
    entered name (after_update (run_from env fuel) name state (node_of env name state))

-- The graph has nine nodes and no cycle.
abbrev pub run_graph : Env → OrchestratorState → GraphRun
run_graph env state = run_from env 9 guard_request_node state
