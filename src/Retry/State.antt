-- ===== src/Retry/State.antt =====
-- The state of the retry subgraph, what is injected into it, and what it does to the outside.
use text2cypher_manufacturin.Common.{
  ℕ, String, Bool, false, Option, none, some, List, ◌==◌, any, not, Dict, if◌then◌else◌,
}
use text2cypher_manufacturin.Python.{Value}
use text2cypher_manufacturin.Python.Exceptions.{Exception, Call}
use text2cypher_manufacturin.Failures.{Tool, QueryFailure}

abbrev pub max_attempts : ℕ
max_attempts = 3

-- What `error` can hold: a text, or one of the two formatted messages with what is put into them.
pub data ErrorText : Type 0 where
  plain : String → ErrorText
  blocked : (reason : Option String) → ErrorText
  missing_alias : (row_index : ℕ) (aliases : List String) → ErrorText

abbrev pub empty_result_error : ErrorText
empty_result_error = plain "EMPTY_RESULT"

-- error == EMPTY_RESULT_ERROR
abbrev pub is_empty_error : ErrorText → Bool
is_empty_error (plain s) = s == "EMPTY_RESULT"
is_empty_error _ = false

pub data EmptyReason : Type 0 where
  no_data inconclusive : EmptyReason

pub record Attempt : Type 0 where
  pub query : String
  pub error : Option ErrorText

pub record Diagnostic : Type 0 where
  pub stage : String
  pub reason_code : String
  pub error_type : Option String
  pub sqlstate : Option String
  pub recovered : Bool
  pub attempt : ℕ
  pub retry_scheduled : Bool

-- The content of a message; the role is always "assistant".
pub record RetryAgentState : Type 0 where
  pub query : String
  pub source_scope : Option String
  pub entity : Value
  pub schema : String
  pub messages : List String
  pub result : Option (List Value)
  pub error : Option ErrorText
  pub attempt_count : ℕ
  pub attempts : List Attempt
  pub empty_retried : Bool
  pub retryable : Bool
  pub empty_reason : Option EmptyReason
  pub truncated : Bool
  pub required_outputs : List String
  pub input_bindings : Dict (List Value)
  pub business_rules : List String
  pub failure : Option QueryFailure
  pub retry_diagnostics : List Diagnostic
  -- `none` while the key is absent
  pub retry_feedback : Option (Option ErrorText)
  pub failed_query : Option String
  pub generated_query : Option String

pub record GuardResult : Type 0 where
  pub allowed : Bool
  pub reason_code : Option String

-- What an executor returns: a QueryResultBatch, or the plain list (or None) of an older executor.
pub data Executed : Type 0 where
  batch : (rows : List Value) (truncated : Bool) → Executed
  legacy : Option (List Value) → Executed

-- The arguments of make_retry_agent_subgraph. `execute` takes the attempt too, since the same query
-- may meet another database. `redact` is redact_query under the environment of the process.
pub record Config : Type 0 where
  pub tool : Tool
  pub generate : RetryAgentState → Option String → Option ErrorText → Call String
  pub execute : ℕ → String → Call Executed
  pub is_connection : Exception → Bool
  pub is_retryable : Exception → Bool
  pub empty_result_feedback : String
  pub guard : Option (String → Call GuardResult)
  pub query_contract_error : Option (String → List String → Call (Option String))
  pub result_contract_error : Option (List Value → RetryAgentState → Call (Option String))
  pub redact : String → Option String

-- Calls and events that leave the subgraph, in order.
pub data Effect : Type 0 where
  query_generated : (attempt : ℕ) (query : String) → Effect
  guard_decision : (allowed : Bool) (reason : Option String) → Effect
  query_executed : (attempt : ℕ) (query : String) → Effect
  attempt_completed : (issue_code : String) (success : Bool) → Effect
  decision_made : (issue_code : String) (retry : Bool) → Effect
  repair_completed : (attempt : ℕ) → Effect
  repair_exhausted : (issue_code : String) → Effect

-- The state after a node has merged its update, and what the node did.
abbrev pub Update : Type 0
Update = RetryAgentState × List Effect

-- attempt["error"] not in (None, EMPTY_RESULT_ERROR)
abbrev pub is_real_error : Attempt → Bool
is_real_error a = elim a.error [ none ↦ false | some e ↦ not (is_empty_error e) ]

unfoldable pub classify_empty_result : List Attempt → EmptyReason
classify_empty_result prior = if any is_real_error prior then inconclusive else no_data
