-- ===== src/ExecutePlan/Waves.antt =====
-- `execute_plan`: the loop over the waves, and what it writes to the state.
use text2cypher_manufacturin.Common.{
  ℕ, zero, suc, ◌+◌, String, Bool, true, false, not, ◌&&◌, Option, none, some, List, [], ◌∷◌, ◌++◌,
  ◌==◌, map, keep, all, elem, is_empty, length, Dict, insert, has_key, if◌then◌else◌,
}
use text2cypher_manufacturin.Python.Exceptions.{Exception, Call, returns, raises}
use text2cypher_manufacturin.Failures.{Tool, sql, graph, QueryFailure}
use text2cypher_manufacturin.Plan.{Subquery}
use text2cypher_manufacturin.Retry.{Diagnostic}
use text2cypher_manufacturin.ExecutePlan.Outcomes.{Summary, prefer_failure}
use text2cypher_manufacturin.ExecutePlan.Subqueries.{Env, PlanEffect, Executed, execute_subquery}

pub record Output : Type 0 where
  pub sql_query : Option String
  pub sql_result : Option Summary
  pub cypher_query : Option String
  pub graph_result : Option Summary
  pub query_failure : Option QueryFailure
  pub result_invariant_retry_count : ℕ

abbrev pub fresh_output : Output
fresh_output = record {
  sql_query = none;
  sql_result = none;
  cypher_query = none;
  graph_result = none;
  query_failure = none;
  result_invariant_retry_count = 0;
}

-- The variables of the loop.
pub record Progress : Type 0 where
  pub outcomes : Dict Summary
  pub output : Output
  pub log : List PlanEffect

abbrev pub reported : Option QueryFailure → Option QueryFailure → Option QueryFailure
reported current none = current
reported current (some candidate) = some (prefer_failure current candidate)

abbrev pub or_else : Option String → Option String → Option String
or_else (some text) old = some text
or_else none old = old

abbrev pub invariant_retries : List Diagnostic → ℕ
invariant_retries [] = 0
invariant_retries (d ∷ ds) =
    (if d.stage == "result_invariant" && d.retry_scheduled then 1 else 0) + invariant_retries ds

-- output[query_field] = …; output[result_field] = …
abbrev pub write_result : Tool → Executed → Output → Output
write_result sql e o = record o {
  sql_query = or_else e.query_text o.sql_query;
  sql_result = some e.summary;
}
write_result graph e o = record o {
  cypher_query = or_else e.query_text o.cypher_query;
  graph_result = some e.summary;
}

abbrev pub write_failure : Executed → Output → Output
write_failure e o = record o {
  query_failure = reported o.query_failure e.summary.failure;
  result_invariant_retry_count =
      o.result_invariant_retry_count + invariant_retries e.summary.retry_diagnostics;
}

-- The body of the loop over the results of a wave.
unfoldable pub record_result : Subquery → Executed → Progress → Progress
record_result subquery e p = record {
  outcomes = insert subquery.id e.summary p.outcomes;
  output = write_failure e (write_result subquery.tool e p.output);
  log = p.log ++ e.effects;
}

abbrev pub continue : {A B : Type 0} → Call A → (A → Call B) → Call B
continue (returns a) f = f a
continue (raises exc) f = raises exc

-- asyncio.gather: every subquery of the wave sees the outcomes before it; an exception of one is
-- the exception of all.
unfoldable pub gather : Env → Dict Summary → List Subquery → Call (List (Subquery × Executed))
gather env outcomes [] = returns []
gather env outcomes (subquery ∷ ready) =
    continue (execute_subquery env subquery outcomes)
      λ e. continue (gather env outcomes ready) λ es. returns ((subquery, e) ∷ es)

unfoldable pub record_results : List (Subquery × Executed) → Progress → Progress
record_results [] p = p
record_results ((subquery, e) ∷ results) p = record_results results (record_result subquery e p)

-- all(dependency_id in outcomes for dependency_id in subquery["dependsOn"])
abbrev pub is_ready : Dict Summary → Subquery → Bool
is_ready outcomes subquery =
    all (λ dependency_id. has_key dependency_id outcomes) subquery.depends_on

abbrev pub ready_of : Dict Summary → List Subquery → List Subquery
ready_of outcomes pending = keep (is_ready outcomes) pending

-- subquery["id"] not in ready_ids
abbrev pub waits : List Subquery → Subquery → Bool
waits ready subquery = not (elem subquery.id (map (λ r. r.id) ready))

abbrev pub left_pending : Dict Summary → List Subquery → List Subquery
left_pending outcomes pending = keep (waits (ready_of outcomes pending)) pending

-- `stalled` is the ValueError of a plan with no subquery that can be run.
pub data PlanOutcome : Type 0 where
  done : Progress → PlanOutcome
  stalled : PlanOutcome
  crashed : Exception → PlanOutcome
  out_of_fuel : PlanOutcome

-- The rest of the loop, from what is still pending.
abbrev pub Rest : Type 0
Rest = List Subquery → Progress → PlanOutcome

abbrev pub after_gather :
    List Subquery → Progress → Rest → Call (List (Subquery × Executed)) → PlanOutcome
after_gather pending p rest (raises exc) = crashed exc
after_gather pending p rest (returns results) =
    rest (left_pending p.outcomes pending) (record_results results p)

abbrev pub after_ready : Env → List Subquery → Progress → Rest → (none_ready : Bool) → PlanOutcome
after_ready env pending p rest true = stalled
after_ready env pending p rest false =
    after_gather pending p rest (gather env p.outcomes (ready_of p.outcomes pending))

-- `while pending:`, one unit of fuel for each wave.
unfoldable pub run_waves : Env → (fuel : ℕ) → List Subquery → Progress → PlanOutcome
run_waves env fuel [] p = done p
run_waves env zero (subquery ∷ pending) p = out_of_fuel
run_waves env (suc fuel) (subquery ∷ pending) p =
    let all_pending = subquery ∷ pending in
    after_ready env all_pending p (run_waves env fuel) (is_empty (ready_of p.outcomes all_pending))

unfoldable pub execute_plan : Env → List Subquery → PlanOutcome
unfolding run_waves
execute_plan env subqueries =
    run_waves env (length subqueries) subqueries
      (record { outcomes = []; output = fresh_output; log = [] })
