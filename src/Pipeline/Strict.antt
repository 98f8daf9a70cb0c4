-- ===== src/Pipeline/Strict.antt =====
-- backend/orchestrator/nodes/strict_query.py, and the run of backend/strict_query/pipeline.py.
use text2cypher_manufacturin.Common.{
  String, Bool, true, false, not, ◌&&◌, ◌||◌, Option, none, some, List, [], ◌∷◌, keep, elem, insert,
  if◌then◌else◌,
}
use text2cypher_manufacturin.Python.{
  truthy, Value, none_value, str, dict, end, field, as_row, is_none, Row,
}
use text2cypher_manufacturin.Python.Exceptions.{Exception, Call, returns, raises}
use text2cypher_manufacturin.Pipeline.State.{
  OrchestratorState, get, required, update, has_failure, attribute_error,
}

-- A node gives an update of the state, or raises.
abbrev pub Node : Type 0
Node = OrchestratorState → Call OrchestratorState

-- The state after a node, and the next nodes unless it has a failure.
abbrev pub after_node :
    (OrchestratorState → Call OrchestratorState)
    → OrchestratorState
    → Call OrchestratorState
    → Call OrchestratorState
after_node more state (raises exc) = raises exc
after_node more state (returns changes) =
    let merged = update state changes in
    let rest = more merged in if has_failure merged then returns merged else rest

-- `run` of build_strict_query.
unfoldable pub run_nodes : List Node → OrchestratorState → Call OrchestratorState
run_nodes [] state = returns state
run_nodes (node ∷ nodes) state = after_node (run_nodes nodes) state (node state)

-- section.get("rows") for one section after the other, until one has rows.
abbrev pub section_rows : Option Row → Call Bool → Call Bool
section_rows none rest = raises attribute_error
section_rows (some section) rest = if truthy (get "rows" section) then returns true else rest

abbrev pub any_rows : List (String × Value) → Call Bool
any_rows [] = returns false
any_rows ((k, section) ∷ sections) = section_rows (as_row section) (any_rows sections)

abbrev pub sections_given : Option Row → Call Bool
sections_given none = raises attribute_error
sections_given (some sections) = any_rows sections

-- `sections` is an empty dict in place of a value that counts as false.
abbrev pub has_section_rows : Value → Call Bool
has_section_rows sections =
    let given = sections_given (as_row sections) in if truthy sections then given else returns false

abbrev pub empty_unless : Call Bool → Call (Option String)
empty_unless (raises exc) = raises exc
empty_unless (returns true) = returns none
empty_unless (returns false) = returns (some "empty_result")

abbrev pub composed_reason : Option Row → Call (Option String)
composed_reason none = returns (some "composition_failure")
composed_reason (some composed) =
    if truthy (get "error" composed)
    then returns (some "composition_failure")
    else if truthy (get "truncated" composed)
    then returns (some "truncated")
    else if truthy (get "rows" composed)
    then returns none
    else empty_unless (has_section_rows (get "sections" composed))

-- `_rejection_reason`
unfoldable pub rejection_reason : OrchestratorState → Call (Option String)
rejection_reason result =
    if truthy (get "query_failure" result) || truthy (get "error" result)
    then returns (some "query_failure")
    else composed_reason (as_row (get "composed_result" result))

abbrev pub reason_value : Option String → Value
reason_value none = none_value
reason_value (some reason) = str reason

abbrev pub status : Option String → Value
status none = str "accepted"
status (some reason) = str "fallback"

abbrev pub orchestrator_keys : List String
orchestrator_keys =
    "query" ∷ "query_strategy" ∷ "strict_attempt" ∷ "entity" ∷ "confirmed_entity" ∷ "tool_plan"
    ∷ "routeDraft" ∷ "rawRouteDraft" ∷ "subqueries" ∷ "resultTransform" ∷ "sql_query"
    ∷ "cypher_query" ∷ "sql_result" ∷ "graph_result" ∷ "composed_result" ∷ "query_failure"
    ∷ "final_answer" ∷ "answer_metadata" ∷ "routeRepairCount" ∷ "outputPlanRepairCount"
    ∷ "resultInvariantRetryCount" ∷ "visualization" ∷ "error" ∷ []

abbrev pub withheld_keys : List String
withheld_keys = "query" ∷ "confirmed_entity" ∷ "final_answer" ∷ "answer_metadata" ∷ []

abbrev pub is_accepted : String × Value → Bool
is_accepted (key, value) = elem key orchestrator_keys && not (elem key withheld_keys)

-- The outcome of the strict path: its result and why it is rejected, if it is.
abbrev pub Attempt : Type 0
Attempt = OrchestratorState × Option String

-- What the node is given: the strict path, whose initialisation may have failed; what
-- asyncio.timeout makes of a run; and the time that the node took.
pub record StrictEnv : Type 0 where
  pub initial_error : Option String
  pub run_strict : OrchestratorState → Call OrchestratorState
  pub within_timeout : Call OrchestratorState → Call OrchestratorState
  pub is_timeout : Exception → Bool
  pub elapsed_ms : OrchestratorState → Value

module _ (env : StrictEnv) where
  abbrev pub failed : OrchestratorState → Exception → Attempt
  failed result exc = (result, some (if env.is_timeout exc then "timeout" else exc.type_name))

  abbrev pub judged : OrchestratorState → Call (Option String) → Attempt
  judged result (raises exc) = failed result exc
  judged result (returns reason) = (result, reason)

  abbrev pub ran : Call OrchestratorState → Attempt
  ran (raises exc) = failed [] exc
  ran (returns result) = judged result (rejection_reason result)

  abbrev pub attempted : OrchestratorState → Option String → Attempt
  attempted query_input (some reason) = ([], some reason)
  attempted query_input none = ran (env.within_timeout (env.run_strict query_input))

  abbrev pub diagnostic : OrchestratorState → Option String → Value
  diagnostic state reason = dict (
      field "status" (status reason)
        (field "reason" (reason_value reason) (field "elapsedMs" (env.elapsed_ms state) end)))

  abbrev pub concluded : OrchestratorState → Attempt → OrchestratorState
  concluded state (result, some reason) =
      ("query_strategy", str "pr61") ∷ ("strict_attempt", diagnostic state (some reason)) ∷ []
  concluded state (result, none) =
      insert "strict_attempt" (diagnostic state none)
        (insert "query_strategy" (str "strict") (keep is_accepted result))

  -- if state.get("confirmed_entity") is not None
  abbrev pub query_input : OrchestratorState → Value → OrchestratorState
  query_input state query =
      let entity = get "confirmed_entity" state in
      if is_none entity
      then ("query", query) ∷ []
      else ("query", query) ∷ ("confirmed_entity", entity) ∷ []

  abbrev pub with_input : OrchestratorState → Call Value → Call OrchestratorState
  with_input state (raises exc) = raises exc
  with_input state (returns query) =
      returns (concluded state (attempted (query_input state query) env.initial_error))

  unfoldable pub strict_query : OrchestratorState → Call OrchestratorState
  strict_query state = with_input state (required "query" state)
