-- ===== src/Retry/Checks.antt =====
-- What the node `tools` does before it executes a query: the guard and the query contract. A check
-- passes, stops the node with an update, or is left by an exception.
use text2cypher_manufacturin.Common.{
  String, Bool, true, false, ◌&&◌, not, Option, none, some, List, [], ◌∷◌, ◌++◌, ◌==◌, elem, ltb,
  if◌then◌else◌,
}
use text2cypher_manufacturin.Python.Exceptions.{Exception, Call, returns, raises}
use text2cypher_manufacturin.Failures.{
  QueryFailure, make_query_failure, validation, user_correctable, internal,
}
use text2cypher_manufacturin.Retry.State.{
  RetryAgentState, Config, Effect, guard_decision, attempt_completed, decision_made, GuardResult,
  ErrorText, plain, blocked, Update, max_attempts,
}

pub data Check : Type 0 where
  pass : List Effect → Check
  stop : Update → Check
  crash : Exception → List Effect → Check

abbrev pub non_retryable_guard_reasons : List String
non_retryable_guard_reasons = "UNKNOWN_TABLE" ∷ "UNKNOWN_LABEL_OR_RELATIONSHIP" ∷ []

abbrev pub error_type : Option Exception → Option String
error_type none = none
error_type (some exc) = some exc.type_name

abbrev pub sqlstate_of : Option Exception → Option String
sqlstate_of none = none
sqlstate_of (some exc) = exc.sqlstate

-- The closure `failure` of `tools`: `q` is its `query_text`.
unfoldable pub failure :
    Config
    → RetryAgentState
    → (q : String) (message : ErrorText) (retryable : Bool) (safe_failure : QueryFailure)
      (stage reason_code : String) (error : Option Exception) (feedback : Option ErrorText)
    → Update
failure c s q message retryable safe_failure stage reason_code error feedback =
    let again = retryable && ltb s.attempt_count max_attempts in
    (
      record s {
        error = some message;
        retry_feedback = some (elim feedback [ none ↦ some message | some f ↦ some f ]);
        result = none;
        attempts = s.attempts ++ record { query = q; error = some message } ∷ [];
        retry_diagnostics =
            s.retry_diagnostics
            ++ record {
              stage = stage;
              reason_code = reason_code;
              error_type = error_type error;
              sqlstate = sqlstate_of error;
              recovered = false;
              attempt = s.attempt_count;
              retry_scheduled = again;
            }
              ∷ [];
        retryable = retryable;
        failure = some safe_failure;
        failed_query = c.redact q;
      },
      attempt_completed safe_failure.code false ∷ decision_made safe_failure.code again ∷ [],
    )

abbrev pub internal_validation_failure : Config → RetryAgentState → String → Exception → Update
internal_validation_failure c s q exc =
    failure c s q (plain "쿼리 검증 중 오류가 발생했습니다.") false
      (make_query_failure "QUERY_VALIDATION_INTERNAL_ERROR" validation "INTERNAL_QUERY_FAILURE"
        internal false "질의를 검증하는 과정에서 내부 오류가 발생했습니다." "잠시 후 다시 시도해 주세요." (some c.tool) false)
      "validation" "QUERY_VALIDATION_INTERNAL_ERROR" (some exc) none

abbrev pub guard_reason : Option String → String
guard_reason none = "QUERY_POLICY_BLOCKED"
guard_reason (some r) = if r == "" then "QUERY_POLICY_BLOCKED" else r

-- reason_code not in _NON_RETRYABLE_GUARD_REASONS
abbrev pub guard_retryable : Option String → Bool
guard_retryable none = true
guard_retryable (some r) = not (elem r non_retryable_guard_reasons)

abbrev pub policy_blocked : Config → RetryAgentState → String → Option String → Update
policy_blocked c s q reason =
    failure c s q (blocked reason) (guard_retryable reason)
      (make_query_failure "QUERY_POLICY_BLOCKED" validation "POLICY_BLOCKED" user_correctable false
        "생성된 조회가 데이터 안전 정책을 통과하지 못했습니다." "데이터를 변경하지 않는 조회 요청으로 질문을 바꿔 주세요." (some c.tool) false)
      "validation" (guard_reason reason) none none

abbrev pub guarded : Config → RetryAgentState → String → Call GuardResult → Check
guarded c s q (raises exc) = stop (internal_validation_failure c s q exc)
guarded c s q (returns r) =
    if r.allowed
    then pass (guard_decision true r.reason_code ∷ [])
    else let (s', effects) = policy_blocked c s q r.reason_code in
      stop (s', guard_decision false r.reason_code ∷ effects)

abbrev pub guard_given :
    Config → RetryAgentState → String → Option (String → Call GuardResult) → Check
guard_given c s q none = pass []
guard_given c s q (some guard) = guarded c s q (guard q)

unfoldable pub check_guard : Config → RetryAgentState → String → Check
check_guard c s q = guard_given c s q c.guard

abbrev pub contract_failure : Config → RetryAgentState → String → String → Update
contract_failure c s q message =
    failure c s q (plain message) true
      (make_query_failure "QUERY_CONTRACT_FAILED" validation "QUERY_INVALID" user_correctable true
        "질문에 필요한 결과 형식을 만족하는 조회를 만들지 못했습니다." "필요한 항목과 조회 조건을 더 구체적으로 지정해 주세요." (some c.tool) false)
      "validation" "QUERY_CONTRACT_FAILED" none none

-- Unlike the guard's, an exception of the query contract is not caught here.
abbrev pub contracted : Config → RetryAgentState → String → Call (Option String) → Check
contracted c s q (raises exc) = crash exc []
contracted c s q (returns none) = pass []
contracted c s q (returns (some message)) = stop (contract_failure c s q message)

abbrev pub contract_given :
    Config → RetryAgentState → String → Option (String → List String → Call (Option String)) → Check
contract_given c s q none = pass []
contract_given c s q (some contract) = contracted c s q (contract q s.required_outputs)

unfoldable pub check_contract : Config → RetryAgentState → String → Check
check_contract c s q = contract_given c s q c.query_contract_error
