-- ===== src/Tests/Agents.antt =====
-- The retry subgraph on a first query that the guard blocks and a second that it lets through.
use text2cypher_manufacturin.Common.{ℕ, List, ◌≡◌, refl, []}
use text2cypher_manufacturin.Retry.{
  run, max_attempts, Outcome, finished, turn, should_retry, agent, tools, check_guard,
  check_contract, failure, execute_and_classify, check_result, first_missing,
}
use text2cypher_manufacturin.ExecutePlan.{initial_state}
use text2cypher_manufacturin.Python.{as_row, to_dict}
use text2cypher_manufacturin.Retry.Verdict.{run-Verdict, IsCounted, Verdict}
use text2cypher_manufacturin.Retry.Loop.{OnFinish}
use text2cypher_manufacturin.Retry.Guarded.{run-IsGuarded, IsLogged}
use text2cypher_manufacturin.Retry.Finishes.{run-finishes}
use text2cypher_manufacturin.Retry.{RetryAgentState, Effect}
use text2cypher_manufacturin.Tests.Samples.{next_query, stock_config, fresh_state}

abbrev ended : Outcome
ended = run stock_config max_attempts fresh_state []

run-Verdict_example : OnFinish (λ s'. IsCounted s' × Verdict fresh_state.required_outputs s') ended
unfolding initial_state
run-Verdict_example = run-Verdict stock_config fresh_state refl refl

run-finishes_example :
    (s' : RetryAgentState) × (log : List Effect) × (ended ≡ finished s' log)
    × (IsCounted s' × Verdict fresh_state.required_outputs s')
unfolding initial_state
run-finishes_example =
    run-finishes stock_config fresh_state (λ s last feedback. (next_query s.attempt_count, refl)) tt
      refl refl

run-IsGuarded_example : IsLogged stock_config ended
run-IsGuarded_example = run-IsGuarded stock_config max_attempts fresh_state

-- The state after a run.
abbrev attempts_made : Outcome → ℕ
attempts_made (finished s log) = s.attempt_count
attempts_made _ = 0

two_attempts : attempts_made ended ≡ 2
unfolding run turn should_retry agent tools check_guard check_contract failure execute_and_classify
    check_result first_missing initial_state as_row to_dict
two_attempts = refl
