-- ===== src/Pipeline/Nodes.antt =====
-- The node of backend/orchestrator/nodes/guard_request.py. Its audit log, whose exceptions it
-- swallows, is left out.
use text2cypher_manufacturin.Common.{ℕ, Bool, false, Option, none, some, [], ◌∷◌, if◌then◌else◌}
use text2cypher_manufacturin.Failures.{
  Tool, FailureKind, FailureStage, QueryFailure, make_query_failure, sql, graph, user_correctable,
  infrastructure, internal, entity_resolution, routing, planning, validation, execution, result,
  dependency,
}
use text2cypher_manufacturin.Python.{Value, none_value, bool, str, dict, end, field}
use text2cypher_manufacturin.Python.Exceptions.{Exception, Call, returns, raises, codes}
use text2cypher_manufacturin.Pipeline.State.{OrchestratorState, required}
use text2cypher_manufacturin.Pipeline.Request.{has_write_intent}

abbrev pub tool_name : Option Tool → Value
tool_name none = none_value
tool_name (some sql) = str "sql"
tool_name (some graph) = str "graph"

abbrev pub kind_name : FailureKind → Value
kind_name user_correctable = str "user_correctable"
kind_name infrastructure = str "infrastructure"
kind_name internal = str "internal"

abbrev pub stage_name : FailureStage → Value
stage_name entity_resolution = str "entity_resolution"
stage_name routing = str "routing"
stage_name planning = str "planning"
stage_name validation = str "validation"
stage_name execution = str "execution"
stage_name result = str "result"
stage_name dependency = str "dependency"

-- A failure as the dict that it is.
abbrev pub failure_value : QueryFailure → Value
failure_value f = dict (
    field "code" (str f.code) (
      field "stage" (stage_name f.stage) (
        field "category" (str f.category) (
          field "kind" (kind_name f.kind) (
            field "retryable" (bool f.retryable) (
              field "user_safe_reason" (str f.user_safe_reason) (
                field "suggested_action" (str f.suggested_action) (
                  field "failed_tool" (tool_name f.failed_tool)
                    (field "dependent_failure" (bool f.dependent_failure) end)))))))))

abbrev pub request_policy_blocked : QueryFailure
request_policy_blocked =
    make_query_failure "REQUEST_POLICY_BLOCKED" validation "POLICY_BLOCKED" user_correctable false
      "데이터를 변경하는 요청은 안전 정책상 실행할 수 없습니다." "조회하거나 확인하려는 내용으로 질문을 바꿔 주세요." none false

abbrev pub type_error : Exception
type_error = record { type_name = "TypeError"; sqlstate = none; text = "" }

module _ (is_alnum : ℕ → Bool) where
  -- The update for a query.
  abbrev pub guarded_request : Value → Call OrchestratorState
  guarded_request (str query) = returns (
      (
        "query_failure",
        if has_write_intent is_alnum (codes query)
            then failure_value request_policy_blocked
            else none_value,
      )
      ∷ [])
  guarded_request _ = raises type_error

  abbrev pub with_query : Call Value → Call OrchestratorState
  with_query (raises exc) = raises exc
  with_query (returns query) = guarded_request query

  unfoldable pub guard_request : OrchestratorState → Call OrchestratorState
  guard_request state = with_query (required "query" state)
