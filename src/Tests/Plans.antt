-- ===== src/Tests/Plans.antt =====
-- The plan of two sources, and the inputs of the second.
use text2cypher_manufacturin.Common.{
  ◌≡◌, refl, true, false, String, Option, none, some, List, [], ◌∷◌, Dict, lookup, has_key, All,
  some_inj, ap, ◌∙◌,
}
use text2cypher_manufacturin.Python.{Value, str, as_row, to_dict}
use text2cypher_manufacturin.Python.Exceptions.{returns, raises}
use text2cypher_manufacturin.Plan.{split_dot}
use text2cypher_manufacturin.Failures.{QueryFailure, make_query_failure, execution, infrastructure}
use text2cypher_manufacturin.Bindings.{collect_input_bindings, project_rows}
use text2cypher_manufacturin.Bindings.Projection.{IsProjected, collect_input_bindings-IsProjected}
use text2cypher_manufacturin.ExecutePlan.{
  Env, Summary, Executed, skipped, execute_subquery, execute_plan, result_summary, initial_state,
  PlanOutcome, done, run_waves, gather, record_results, record_result, dependency_failure,
  prefer_failure,
}
use text2cypher_manufacturin.ExecutePlan.Termination.{OnDone}
use text2cypher_manufacturin.ExecutePlan.Outcome.{execute_plan-completes}
use text2cypher_manufacturin.ExecutePlan.Severity.{Reports, execute_plan-Reports}
use text2cypher_manufacturin.ExecutePlan.Dependencies.{HasRows, execute_subquery-skips}
use text2cypher_manufacturin.Tests.Samples.{env, plan, sql_subquery, two_rows, fresh_state}

execute_plan-completes_example :
    OnDone env (λ p. All (λ s. has_key s.id p.outcomes ≡ true) plan) ⊥ (execute_plan env plan)
execute_plan-completes_example = execute_plan-completes env plan (refl, (refl, tt))

-- A graph database that is not reached: the SQL source fails for its dependency.
abbrev unreached : QueryFailure
unreached =
    make_query_failure "CONNECTION_FAILED" execution "CONNECTION_FAILED" infrastructure true "" ""
      none false

abbrev unreached_env : Env
unreached_env = record env { invoke = λ tool s. returns (record s { failure = some unreached }) }

abbrev failure_of : PlanOutcome → Option QueryFailure
failure_of (done p) = p.output.query_failure
failure_of _ = none

unreached_reported : failure_of (execute_plan unreached_env plan) ≡ some unreached
unfolding execute_plan run_waves gather record_results record_result execute_subquery result_summary
    dependency_failure prefer_failure initial_state collect_input_bindings
unreached_reported = refl

execute_plan-Reports_example :
    OnDone unreached_env
      (λ p. Reports p.outcomes p.output.query_failure)
      Unit
      (execute_plan unreached_env plan)
execute_plan-Reports_example = execute_plan-Reports unreached_env plan

-- A graph source without rows, and an environment whose agents raise.
abbrev empty_outcome : Summary
empty_outcome = result_summary (record fresh_state { result = some [] })

abbrev outcomes : Dict Summary
outcomes = ("q1", empty_outcome) ∷ []

abbrev raising_env : Env
raising_env = record env {
  invoke = λ tool s.
      raises (record { type_name = "RuntimeError"; sqlstate = none; text = "no connection" });
}

no_rows : ¬ All (HasRows outcomes) sql_subquery.depends_on
unfolding result_summary initial_state
no_rows (h, _) = cc (ap (λ s. s.result) (some_inj h.found) ∙ h.result)

execute_subquery-skips_example :
    (e : Executed) × (reason : String) × (execute_subquery env sql_subquery outcomes ≡ returns e)
    × (execute_subquery raising_env sql_subquery outcomes ≡ returns e)
    × (e.query_text ≡ none)
    × (e.effects ≡ skipped "q2" reason ∷ [])
execute_subquery-skips_example =
    execute_subquery-skips env raising_env sql_subquery outcomes no_rows

abbrev upstream : Dict (Option (List Value))
upstream = ("q1", some two_rows) ∷ []

abbrev ids : List Value
ids = str "C1" ∷ str "C2" ∷ []

collect_input_bindings-IsProjected_example :
    (vs : List Value) × (lookup "componentIds" (("componentIds", ids) ∷ []) ≡ some vs)
    × IsProjected upstream "q1.componentId" vs
unfolding collect_input_bindings project_rows split_dot as_row to_dict
collect_input_bindings-IsProjected_example =
    collect_input_bindings-IsProjected sql_subquery.input_bindings upstream
      (("componentIds", ids) ∷ []) "componentIds" "q1.componentId" refl refl
