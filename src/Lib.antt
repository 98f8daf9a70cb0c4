-- ===== src/Lib.antt =====
-- The query pipeline of a manufacturing assistant: a question becomes a plan of at most two
-- subqueries, one for a SQL and one for a graph database; each subquery is answered by an agent that
-- generates a query, checks it, executes it and generates again when that fails; the results are
-- composed into one and cut to what a prompt can hold. The parts, by file:
--
-- * Pipeline models the graph of backend/orchestrator/graph.py: `run_graph` follows its edges from the
--   guard to the answer, with nine nodes as fuel, since the graph has no cycle. `has_write_intent` and
--   `guard_request` are the functions of backend/orchestrator/nodes/guard_request.py, `strict_query`
--   and `rejection_reason` those of backend/orchestrator/nodes/strict_query.py, `run_nodes` the run of
--   backend/strict_query/pipeline.py. The nodes that call a language model or a database are given as
--   functions from a state to an update of it; Python.Regex is what `re` does with the patterns.
-- * Retry models backend/orchestrator/subgraphs/retry_agent.py. `RetryAgentState` and `Config` are
--   the state and the arguments of make_retry_agent_subgraph; `agent`, `tools` and `should_retry` are
--   the functions of those names, with `check_guard`, `check_contract` and `execute_and_classify`;
--   `run` is the cycle that the graph wires, with a number of turns as fuel, for which three suffice.
--   What the subgraph does to the outside is a list of effects.
-- * Plan and Bindings model the subquery of backend/orchestrator/planning.py and the function of
--   backend/orchestrator/bindings.py.
-- * Planning models the validation of routes and plans in backend/orchestrator/planning.py:
--   `validate_route_subqueries`, `parse_route_draft`, `validate_subqueries`, `derive_tool_plan`,
--   `korean_counter_quantity` and `topological_order` are the functions of those names, the last on a
--   number of rounds as fuel, for which the number of subqueries suffices. A route's subquery is a
--   plan's without outputs and rules. What json.loads reads is given as a value, and whether the
--   query names another production quantity as a function.
-- * ExecutePlan models backend/orchestrator/nodes/execute_plan.py. `execute_subquery` and
--   `execute_plan` are the functions of those names; `run_waves` is the loop, whose fuel is the number
--   of subqueries, since each wave ends at least one. The agents are parameters of `Env`; a wave runs
--   its subqueries in order, each on the outcomes before the wave.
-- * Compose models backend/orchestrator/composition.py, and from backend/orchestrator/planning.py the
--   checks of a result transform. calculate_bom_shortages is the parameter `shortages`.
--   Compose.Keys and Compose.Pairs say which rows of two sources match, apart from the groups of the
--   code.
-- * Guards models the Cypher guard of backend/orchestrator/guards/shared.py and
--   backend/orchestrator/guards/cypher_guard.py: `mask_query_text` goes through the text one character
--   at a time, its inner loops as modes; `has_write_keyword` is the search for `_FORBIDDEN_PATTERN`;
--   `extract_label_and_type_references` is the scan of that name, whose index is the text that is
--   left. Its loops have fuel, for which one more than the length of the text suffices. Which
--   characters beyond ASCII are alphanumeric is a parameter. Guards.Grammar describes the parts that a
--   query is written in, apart from the scan.
-- * Evaluation models the check of a Cypher query in backend/evaluation/safety.py, which shares the mask
--   and the keywords of the guard. What `str.upper` makes of a character beyond ASCII is a parameter.
-- * Answer models backend/orchestrator/nodes/answer_limits.py. The loop over the sections has a number
--   of rounds as fuel, for which one more than the row limit suffices; the size of a row as JSON is a
--   parameter.
-- * Failures has the failure records of backend/orchestrator/query_failures.py and
--   backend/orchestrator/state.py; Python has the values and exceptions that the parts pass around;
--   Common has shared helpers; Tests has concrete inputs.
--
-- A Python exception is a value of `Call`, a ValueError one of `Result`. A missing key of a TypedDict
-- is the default that the code reads for it. Log lines, metrics and the fields of events that carry
-- no decision are left out. Floats are not modelled: a number is an integer or a decimal. A shared
-- mutable object is not modelled, since the functions build new dictionaries.
--
-- Not modelled: the prompts and calls of the language models, the database drivers, the SQL guard
-- (it walks a tree of the sqlparse library), the arithmetic of backend/orchestrator/bom_shortage.py, the semantic catalog, the API, the dashboard and the frontend.
pub mod Common
pub mod Python
pub mod Failures
pub mod Retry
pub mod Plan
pub mod Planning
pub mod Bindings
pub mod ExecutePlan
pub mod Compose
pub mod Guards
pub mod Pipeline
pub mod Evaluation
pub mod Answer
pub mod Tests
