-- ===== src/Retry/Agent.antt =====
-- The node `agent`: one generated query more.
use text2cypher_manufacturin.Common.{
  ◌+◌, String, Option, none, some, List, [], ◌∷◌, ◌++◌, if◌then◌else◌,
}
use text2cypher_manufacturin.Python.Exceptions.{Exception, Call, returns, raises}
use text2cypher_manufacturin.Retry.State.{
  RetryAgentState, Config, query_generated, ErrorText, plain, is_empty_error, Update,
}

-- messages[-1] if messages else None
abbrev pub last_message : List String → Option String
last_message [] = none
last_message (m ∷ []) = some m
last_message (m ∷ n ∷ ms) = last_message (n ∷ ms)

abbrev pub feedback_text : Config → Option ErrorText → Option ErrorText
feedback_text c none = none
feedback_text c (some e) = some (if is_empty_error e then plain c.empty_result_feedback else e)

-- state.get("retry_feedback", state.get("error"))
abbrev pub feedback_of : RetryAgentState → Option ErrorText
feedback_of s = elim s.retry_feedback [ none ↦ s.error | some feedback ↦ feedback ]

-- QueryInfrastructureError, the only exception that leaves this node.
abbrev pub infrastructure_error : Exception
infrastructure_error = record { type_name = "QueryInfrastructureError"; sqlstate = none; text = "" }

-- The state after `query_text` has been generated.
abbrev pub asked : Config → RetryAgentState → String → RetryAgentState
asked c s query_text = record s {
  messages = s.messages ++ query_text ∷ [];
  attempt_count = s.attempt_count + 1;
  generated_query = c.redact query_text;
}

abbrev pub generated : Config → RetryAgentState → Call String → Call Update
generated c s (raises exc) = raises infrastructure_error
generated c s (returns query_text) =
    returns (asked c s query_text, query_generated (s.attempt_count + 1) query_text ∷ [])

unfoldable pub agent : Config → RetryAgentState → Call Update
agent c s = generated c s (c.generate s (last_message s.messages) (feedback_text c (feedback_of s)))
