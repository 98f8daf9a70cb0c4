-- ===== src/Retry/Tools.antt =====
-- The node `tools`: checks, execution, and the classification of what came back.
use text2cypher_manufacturin.Common.{
  ℕ, ◌+◌, String, Bool, true, false, ◌&&◌, ◌||◌, not, Option, none, some, List, [], ◌∷◌, ◌++◌, map,
  keep, is_empty, has_key, ltb, if◌then◌else◌,
}
use text2cypher_manufacturin.Python.{Value, as_row}
use text2cypher_manufacturin.Python.Exceptions.{Exception, Call, returns, raises, named_like}
use text2cypher_manufacturin.Failures.{
  make_query_failure, validation, execution, user_correctable, infrastructure, internal,
}
use text2cypher_manufacturin.Retry.State.{
  RetryAgentState, Config, Effect, query_executed, attempt_completed, decision_made,
  repair_completed, Executed, batch, legacy, plain, missing_alias, empty_result_error, Diagnostic,
  Update, max_attempts, classify_empty_result,
}
use text2cypher_manufacturin.Retry.Agent.{last_message}
use text2cypher_manufacturin.Retry.Checks.{
  Check, pass, stop, crash, failure, internal_validation_failure, check_guard, check_contract,
}

abbrev pub is_timeout : Exception → Bool
is_timeout exc = named_like "timeout" exc || named_like "canceled" exc

-- `except retryable_exceptions`
abbrev pub retryable_failure : Config → RetryAgentState → String → Exception → Update
retryable_failure c s q exc =
    let timeout = is_timeout exc in
    let code = if timeout then "QUERY_TIMEOUT" else "QUERY_EXECUTION_FAILED" in
    failure c s q (plain "쿼리를 실행하지 못했습니다.") true
      (make_query_failure code execution (if timeout then "TIMEOUT" else "QUERY_INVALID")
        user_correctable true
        (if timeout then "조회가 제한 시간 안에 완료되지 않았습니다." else "생성된 조회를 정상적으로 실행하지 못했습니다.")
        (if timeout then "조회 기간이나 대상 범위를 줄여 다시 질문해 주세요." else "조회 대상과 조건을 더 구체적으로 지정해 주세요.")
        (some c.tool) false)
      "execution" code (some exc) (some (plain exc.text))

-- `except connection_exceptions`
abbrev pub connection_failure : Config → RetryAgentState → String → Exception → Update
connection_failure c s q exc =
    failure c s q (plain "접속 오류가 발생했습니다.") false
      (make_query_failure "INFRASTRUCTURE_UNAVAILABLE" execution "CONNECTION_ERROR" infrastructure
        true "조회 시스템에 일시적으로 연결할 수 없습니다." "잠시 후 다시 시도해 주세요." (some c.tool) false)
      "execution" "INFRASTRUCTURE_UNAVAILABLE" (some exc) none

-- `except Exception`
abbrev pub internal_failure : Config → RetryAgentState → String → Exception → Update
internal_failure c s q exc =
    failure c s q (plain "질의 실행 중 내부 오류가 발생했습니다.") false
      (make_query_failure "INTERNAL_QUERY_FAILURE" execution "INTERNAL_QUERY_FAILURE" internal false
        "질의 실행 중 내부 오류가 발생했습니다." "잠시 후 다시 시도해 주세요." (some c.tool) false)
      "execution" "INTERNAL_QUERY_FAILURE" (some exc) none

-- The retryable classes are tried before the connection classes.
unfoldable pub execution_failed : Config → RetryAgentState → String → Exception → Update
execution_failed c s q exc =
    if c.is_retryable exc
    then retryable_failure c s q exc
    else if c.is_connection exc
    then connection_failure c s q exc
    else internal_failure c s q exc

-- `can_retry_empty`
abbrev pub can_retry_empty : RetryAgentState → Bool
can_retry_empty s = not s.empty_retried && ltb s.attempt_count max_attempts

-- What both updates for an empty result write.
abbrev pub empty_recorded :
    RetryAgentState → String → (result : Option (List Value)) (truncated : Bool) → RetryAgentState
empty_recorded s q result truncated = record s {
  result = result;
  attempts = s.attempts ++ record { query = q; error = some empty_result_error } ∷ [];
  retry_diagnostics =
      s.retry_diagnostics
      ++ record {
        stage = "result";
        reason_code = "EMPTY_RESULT";
        error_type = none;
        sqlstate = none;
        recovered = false;
        attempt = s.attempt_count;
        retry_scheduled = can_retry_empty s;
      }
        ∷ [];
  truncated = truncated;
  failure = none;
}

abbrev pub empty_again :
    RetryAgentState → String → (result : Option (List Value)) (truncated : Bool) → RetryAgentState
empty_again s q result truncated = record (empty_recorded s q result truncated) {
  error = some empty_result_error;
  retry_feedback = some (some empty_result_error);
  retryable = true;
  empty_retried = true;
}

abbrev pub empty_final :
    RetryAgentState → String → (result : Option (List Value)) (truncated : Bool) → RetryAgentState
empty_final s q result truncated = record (empty_recorded s q result truncated) {
  error = none;
  retry_feedback = some none;
  empty_reason = some (classify_empty_result s.attempts);
  retryable = false;
}

-- An empty result is tried again once, and accepted with a reason otherwise.
unfoldable pub empty_result :
    RetryAgentState → String → (result : Option (List Value)) (truncated : Bool) → Update
empty_result s q result truncated = (
  if can_retry_empty s then empty_again s q result truncated else empty_final s q result truncated,
  attempt_completed "EMPTY_RESULT" true ∷ decision_made "EMPTY_RESULT" (can_retry_empty s) ∷ [],
)

-- not isinstance(row, dict) or alias not in row
abbrev pub lacks : Value → String → Bool
lacks row alias = elim (as_row row) [ none ↦ true | some r ↦ not (has_key alias r) ]

-- The first row that lacks a required output, with what it lacks.
unfoldable pub first_missing : List String → ℕ → List Value → Option (ℕ × List String)
first_missing outputs index [] = none
first_missing outputs index (row ∷ rows) =
    let missing = keep (lacks row) outputs in
    let rest = first_missing outputs (index + 1) rows in
    if is_empty missing then rest else some (index, missing)

abbrev pub alias_failure : Config → RetryAgentState → String → ℕ → List String → Update
alias_failure c s q row_index aliases =
    failure c s q (missing_alias row_index aliases) true
      (make_query_failure "QUERY_CONTRACT_FAILED" validation "QUERY_INVALID" user_correctable true
        "질문에 필요한 항목을 조회 결과에서 확인하지 못했습니다." "필요한 결과 항목을 명확하게 지정해 다시 질문해 주세요." (some c.tool) false)
      "result_contract" "REQUIRED_ALIAS_MISSING" none none

abbrev pub invariant_failure : Config → RetryAgentState → String → String → Update
invariant_failure c s q message =
    failure c s q (plain message) true
      (make_query_failure "QUERY_CONTRACT_FAILED" validation "QUERY_INVALID" user_correctable true
        "질문에 필요한 결과 형식을 조회 결과에서 확인하지 못했습니다." "필요한 결과 항목을 명확하게 지정해 다시 질문해 주세요." (some c.tool) false)
      "result_invariant" "RESULT_INVARIANT_VIOLATION" none none

abbrev pub mark_recovered : Diagnostic → Diagnostic
mark_recovered d = record d { recovered = true }

abbrev pub accepted : RetryAgentState → String → List Value → Bool → Update
accepted s q rows truncated = (
  record s {
    result = some rows;
    error = none;
    retry_feedback = some none;
    empty_reason = none;
    attempts = s.attempts ++ record { query = q; error = none } ∷ [];
    retry_diagnostics = map mark_recovered s.retry_diagnostics;
    retryable = false;
    truncated = truncated;
    failure = none;
  },
  attempt_completed "none" true
      ∷ (if ltb 1 s.attempt_count then repair_completed s.attempt_count ∷ [] else []),
)

abbrev pub invariant_checked :
    Config → RetryAgentState → String → List Value → Bool → Call (Option String) → Update
invariant_checked c s q rows truncated (raises exc) = internal_validation_failure c s q exc
invariant_checked c s q rows truncated (returns none) = accepted s q rows truncated
invariant_checked c s q rows truncated (returns (some message)) = invariant_failure c s q message

abbrev pub invariant_given :
    Config
    → RetryAgentState
    → String
    → List Value
    → Bool
    → Option (List Value → RetryAgentState → Call (Option String))
    → Update
invariant_given c s q rows truncated none = accepted s q rows truncated
invariant_given c s q rows truncated (some contract) =
    invariant_checked c s q rows truncated (contract rows s)

abbrev pub aliases_checked :
    Config → RetryAgentState → String → List Value → Bool → Option (ℕ × List String) → Update
aliases_checked c s q rows truncated (some (row_index, aliases)) =
    alias_failure c s q row_index aliases
aliases_checked c s q rows truncated none =
    invariant_given c s q rows truncated c.result_contract_error

unfoldable pub check_result : Config → RetryAgentState → String → List Value → Bool → Update
check_result c s q rows truncated =
    aliases_checked c s q rows truncated (first_missing s.required_outputs 0 rows)

abbrev pub nonempty_or : Config → RetryAgentState → String → List Value → Bool → Update
nonempty_or c s q [] truncated = empty_result s q (some []) truncated
nonempty_or c s q (row ∷ rows) truncated = check_result c s q (row ∷ rows) truncated

abbrev pub classify : Config → RetryAgentState → String → Call Executed → Update
classify c s q (raises exc) = execution_failed c s q exc
classify c s q (returns (legacy none)) = empty_result s q none false
classify c s q (returns (legacy (some rows))) = nonempty_or c s q rows false
classify c s q (returns (batch rows truncated)) = nonempty_or c s q rows truncated

unfoldable pub execute_and_classify : Config → RetryAgentState → String → Update
execute_and_classify c s q =
    let (s', effects) = classify c s q (c.execute s.attempt_count q) in
    (s', query_executed s.attempt_count q ∷ effects)

-- state["messages"][-1]["content"]; the node `agent` has put a message there.
abbrev pub query_text : RetryAgentState → String
query_text s = elim (last_message s.messages) [ none ↦ "" | some q ↦ q ]

-- A node returns an update, or an exception leaves it after some effects.
pub data Step : Type 0 where
  updated : RetryAgentState → List Effect → Step
  left : Exception → List Effect → Step

-- The rest of `tools` behind the query contract, with what the guard has done so far.
abbrev pub after_contract : Config → RetryAgentState → String → List Effect → Check → Step
after_contract c s q audited (stop (s', effects)) = updated s' (audited ++ effects)
after_contract c s q audited (crash exc effects) = left exc (audited ++ effects)
after_contract c s q audited (pass _) =
    let (s', effects) = execute_and_classify c s q in updated s' (audited ++ effects)

abbrev pub after_guard : Config → RetryAgentState → String → Check → Step
after_guard c s q (stop (s', effects)) = updated s' effects
after_guard c s q (crash exc effects) = left exc effects
after_guard c s q (pass audited) = after_contract c s q audited (check_contract c s q)

-- `for check in (check_guard, check_contract)`, then the execution.
unfoldable pub tools : Config → RetryAgentState → Step
tools c s = let q = query_text s in after_guard c s q (check_guard c s q)
