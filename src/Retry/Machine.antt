-- ===== src/Retry/Machine.antt =====
-- The cycle agent -> tools -> should_retry. The fuel is the number of turns that may be made.
use text2cypher_manufacturin.Common.{
  ℕ, zero, suc, String, Bool, true, false, not, Option, none, some, List, [], ◌∷◌, ◌++◌, leb,
  if◌then◌else◌,
}
use text2cypher_manufacturin.Python.Exceptions.{Exception, Call, returns, raises}
use text2cypher_manufacturin.Failures.{QueryFailure}
use text2cypher_manufacturin.Retry.State.{
  RetryAgentState, Config, Effect, repair_exhausted, Update, ErrorText, max_attempts,
}
use text2cypher_manufacturin.Retry.Agent.{agent}
use text2cypher_manufacturin.Retry.Tools.{Step, updated, left, tools}

abbrev pub issue_code : Option QueryFailure → String
issue_code none = "INTERNAL_QUERY_FAILURE"
issue_code (some f) = f.code

-- The tests behind `state["error"] is None`.
abbrev pub after_error : RetryAgentState → Bool × List Effect
after_error s =
    if not s.retryable
    then (false, [])
    else if leb max_attempts s.attempt_count
    then (false, repair_exhausted (issue_code s.failure) ∷ [])
    else (true, [])

abbrev pub retry_given : RetryAgentState → Option ErrorText → Bool × List Effect
retry_given s none = (false, [])
retry_given s (some _) = after_error s

-- Whether there is another turn, and the event of an exhausted repair.
unfoldable pub should_retry : RetryAgentState → Bool × List Effect
should_retry s = retry_given s s.error

pub data Outcome : Type 0 where
  finished : RetryAgentState → List Effect → Outcome
  crashed : Exception → List Effect → Outcome
  out_of_fuel : Outcome

-- One turn: both nodes.
abbrev pub after_agent : List Effect → Step → Step
after_agent log (updated s effects) = updated s (log ++ effects)
after_agent log (left exc effects) = left exc (log ++ effects)

abbrev pub generated_turn : Config → Call Update → Step
generated_turn c (raises exc) = left exc []
generated_turn c (returns (s, effects)) = after_agent effects (tools c s)

unfoldable pub turn : Config → RetryAgentState → Step
turn c s = generated_turn c (agent c s)

unfoldable pub run : Config → (fuel : ℕ) → RetryAgentState → List Effect → Outcome
run c zero s log = out_of_fuel
run c (suc fuel) s log = elim (turn c s) [
  | left exc effects ↦ crashed exc (log ++ effects)
  | updated s' effects ↦
      let log' = (log ++ effects) ++ (should_retry s').1 in
      let rest = run c fuel s' log' in if (should_retry s').0 then rest else finished s' log'
]
