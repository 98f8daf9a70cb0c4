-- ===== src/ExecutePlan/Outcomes.antt =====
-- What a subquery leaves behind, and which of two failures is reported.
use text2cypher_manufacturin.Common.{
  ℕ, String, Bool, true, false, not, ◌&&◌, ◌||◌, Option, none, some, List, [], ◌∷◌, ltb, eqb,
  if◌then◌else◌,
}
use text2cypher_manufacturin.Python.{Value}
use text2cypher_manufacturin.Failures.{
  QueryFailure, FailureKind, make_query_failure, user_correctable, infrastructure, internal,
  dependency,
}
use text2cypher_manufacturin.Retry.{
  RetryAgentState, ErrorText, Attempt, Diagnostic, EmptyReason, no_data, inconclusive,
}

-- The texts that stand under "error": an agent's, or one of the two of this node.
pub data SummaryError : Type 0 where
  agent_error : ErrorText → SummaryError
  dependency_failed : (dependency_ids : List String) → SummaryError
  input_plan_invalid : SummaryError

pub record Summary : Type 0 where
  pub result : Option (List Value)
  pub error : Option SummaryError
  pub attempts : List Attempt
  pub empty_reason : Option EmptyReason
  pub truncated : Bool
  pub failure : Option QueryFailure
  pub retry_diagnostics : List Diagnostic
  pub failed_query : Option String
  pub generated_query : Option String

abbrev pub failure_priority : FailureKind → ℕ
failure_priority infrastructure = 3
failure_priority internal = 2
failure_priority user_correctable = 1

-- (priority, not dependent)
abbrev pub rank : QueryFailure → ℕ × Bool
rank f = (failure_priority f.kind, not f.dependent_failure)

abbrev pub bool_gt : Bool → Bool → Bool
bool_gt a b = a && not b

-- Python's `>` on such pairs.
abbrev pub rank_gt : ℕ × Bool → ℕ × Bool → Bool
rank_gt (p, a) (q, b) = ltb q p || (eqb p q && bool_gt a b)

unfoldable pub prefer_failure : Option QueryFailure → QueryFailure → QueryFailure
prefer_failure none candidate = candidate
prefer_failure (some current) candidate =
    if rank_gt (rank candidate) (rank current) then candidate else current

abbrev pub agent_error_of : Option ErrorText → Option SummaryError
agent_error_of none = none
agent_error_of (some e) = some (agent_error e)

unfoldable pub result_summary : RetryAgentState → Summary
result_summary s = record {
  result = s.result;
  error = agent_error_of s.error;
  attempts = s.attempts;
  empty_reason = s.empty_reason;
  truncated = s.truncated;
  failure = s.failure;
  retry_diagnostics = s.retry_diagnostics;
  failed_query = s.failed_query;
  generated_query = s.generated_query;
}

abbrev pub skipped_summary : Option (List Value) → Option SummaryError → Summary
skipped_summary result error = record {
  result = result;
  error = error;
  attempts = [];
  empty_reason = none;
  truncated = false;
  failure = none;
  retry_diagnostics = [];
  failed_query = none;
  generated_query = none;
}

unfoldable pub dependency_failure : List String → Summary
dependency_failure dependency_ids =
    record (skipped_summary none (some (dependency_failed dependency_ids))) {
      failure = some (
          make_query_failure "DEPENDENCY_FAILED" dependency "DEPENDENCY_FAILED" user_correctable
            false "질의의 선행 조회가 완료되지 않아 후속 조회를 진행하지 못했습니다." "조회 대상과 조건을 더 구체적으로 지정해 다시 질문해 주세요." none
            true);
    }

abbrev pub has_inconclusive : List (Option EmptyReason) → Bool
has_inconclusive [] = false
has_inconclusive (some inconclusive ∷ reasons) = true
has_inconclusive (some no_data ∷ reasons) = has_inconclusive reasons
has_inconclusive (none ∷ reasons) = has_inconclusive reasons

unfoldable pub dependency_empty : List (Option EmptyReason) → Summary
dependency_empty empty_reasons = record (skipped_summary (some []) none) {
  empty_reason = some (if has_inconclusive empty_reasons then inconclusive else no_data);
}

unfoldable pub input_binding_failure : Summary
input_binding_failure = record (skipped_summary none (some input_plan_invalid)) {
  failure = some (
      make_query_failure "INPUT_BINDING_INVALID" dependency "QUERY_INVALID" internal false
        "선행 조회 결과를 후속 조회 입력으로 전달하지 못했습니다." "잠시 후 다시 시도해 주세요." none true);
}
