-- ===== src/ExecutePlan/Subqueries.antt =====
-- `execute_subquery`: one subquery whose dependencies all have an outcome.
use text2cypher_manufacturin.Common.{
  String, Bool, true, false, not, Option, none, some, List, [], ◌∷◌, ◌==◌, map, keep, is_empty,
  Dict, lookup, Result, ok, err, if◌then◌else◌,
}
use text2cypher_manufacturin.Python.{Value}
use text2cypher_manufacturin.Python.Exceptions.{Call, returns, raises}
use text2cypher_manufacturin.Failures.{Tool}
use text2cypher_manufacturin.Plan.{Subquery}
use text2cypher_manufacturin.Bindings.{BindingError, collect_input_bindings}
use text2cypher_manufacturin.Retry.{RetryAgentState, EmptyReason, plain, query_text}
use text2cypher_manufacturin.ExecutePlan.Outcomes.{
  Summary, SummaryError, agent_error, result_summary, dependency_failure, dependency_empty,
  input_binding_failure,
}

-- The two agents, the two schema texts, and what the node reads of the state.
pub record Env : Type 0 where
  pub invoke : Tool → RetryAgentState → Call RetryAgentState
  pub schema_text : Tool → String
  pub query : String
  pub entity : Value

pub data PlanEffect : Type 0 where
  skipped : (id reason : String) → PlanEffect
  started : (id : String) → PlanEffect
  completed : (id : String) (success : Bool) → PlanEffect

-- What `execute_subquery` returns; the names of the two output fields follow from the tool.
pub record Executed : Type 0 where
  pub query_text : Option String
  pub summary : Summary
  pub effects : List PlanEffect

abbrev pub failed_with : Option SummaryError → Option (List Value) → Bool
failed_with (some _) result = true
failed_with none none = true
failed_with none (some _) = false

abbrev pub outcome_failed : Option Summary → Bool
outcome_failed none = true
outcome_failed (some s) = failed_with s.error s.result

-- error is not None or result is None. A dependency without an outcome would be a KeyError, which
-- the choice of the wave rules out.
abbrev pub is_failed : Dict Summary → String → Bool
is_failed outcomes dependency_id = outcome_failed (lookup dependency_id outcomes)

-- result == []
abbrev pub result_empty : Option (List Value) → Bool
result_empty (some []) = true
result_empty _ = false

abbrev pub outcome_empty : Option Summary → Bool
outcome_empty none = false
outcome_empty (some s) = result_empty s.result

abbrev pub is_empty_outcome : Dict Summary → String → Bool
is_empty_outcome outcomes dependency_id = outcome_empty (lookup dependency_id outcomes)

abbrev pub empty_reason_of : Dict Summary → String → Option EmptyReason
empty_reason_of outcomes dependency_id = elim (lookup dependency_id outcomes) [
  | none ↦ none
  | some s ↦ s.empty_reason
]

abbrev pub results_of : Dict Summary → Dict (Option (List Value))
results_of outcomes = map (λ (dependency_id, s). (dependency_id, s.result)) outcomes

unfoldable pub initial_state :
    Subquery
    → (original_question : String) (entity : Value) (schema_text : String)
      (input_bindings : Dict (List Value))
    → RetryAgentState
initial_state subquery original_question entity schema_text input_bindings = record {
  query = original_question;
  source_scope = if subquery.question == original_question then none else some subquery.question;
  entity = entity;
  schema = schema_text;
  messages = [];
  result = none;
  error = none;
  attempt_count = 0;
  attempts = [];
  empty_retried = false;
  retryable = false;
  empty_reason = none;
  truncated = false;
  required_outputs = subquery.required_outputs;
  input_bindings = input_bindings;
  business_rules = subquery.generator_rules;
  failure = none;
  retry_diagnostics = [];
  retry_feedback = none;
  failed_query = none;
  generated_query = none;
}

-- The truth of `summary.get("error")`: an empty text is false, and only an agent's can be empty.
abbrev pub is_error : Option SummaryError → Bool
is_error none = false
is_error (some (agent_error (plain text))) = not (text == "")
is_error (some _) = true

module _ (env : Env) (subquery : Subquery) where
  abbrev pub succeeded : Summary → Bool
  succeeded s = not (is_error s.error)

  abbrev pub invoked : Call RetryAgentState → Call Executed
  invoked (raises exc) = raises exc
  invoked (returns result) =
      let summary = result_summary result in
      returns (record {
        query_text = some (query_text result);
        summary = summary;
        effects = started subquery.id ∷ completed subquery.id (succeeded summary) ∷ [];
      })

  abbrev pub bound : Result BindingError (Dict (List Value)) → Call Executed
  bound (err _) =
      returns (record { query_text = none; summary = input_binding_failure; effects = [] })
  bound (ok input_bindings) = invoked (
      env.invoke subquery.tool (
        initial_state subquery env.query
          (if is_empty input_bindings then env.entity else Value.none_value)
          (env.schema_text subquery.tool) input_bindings))

  abbrev pub failed_dependencies : Dict Summary → List String
  failed_dependencies outcomes = keep (is_failed outcomes) subquery.depends_on

  abbrev pub empty_dependencies : Dict Summary → List String
  empty_dependencies outcomes = keep (is_empty_outcome outcomes) subquery.depends_on

  unfoldable pub execute_subquery : Dict Summary → Call Executed
  execute_subquery outcomes =
      if not (is_empty (failed_dependencies outcomes))
      then returns (record {
        query_text = none;
        summary = dependency_failure (failed_dependencies outcomes);
        effects = skipped subquery.id "DEPENDENCY_FAILED" ∷ [];
      })
      else if not (is_empty (empty_dependencies outcomes))
      then returns (record {
        query_text = none;
        summary = dependency_empty (map (empty_reason_of outcomes) (empty_dependencies outcomes));
        effects = skipped subquery.id "DEPENDENCY_EMPTY" ∷ [];
      })
      else bound (collect_input_bindings subquery.input_bindings (results_of outcomes))
