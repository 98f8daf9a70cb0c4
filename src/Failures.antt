-- ===== src/Failures.antt =====
-- backend/orchestrator/query_failures.py and the failure types of backend/orchestrator/state.py.
use text2cypher_manufacturin.Common.{String, Bool, Option}

pub data Tool : Type 0 where
  sql graph : Tool

pub data FailureKind : Type 0 where
  user_correctable infrastructure internal : FailureKind

pub data FailureStage : Type 0 where
  entity_resolution routing planning validation execution result dependency : FailureStage

pub record QueryFailure : Type 0 where
  pub code : String
  pub stage : FailureStage
  pub category : String
  pub kind : FailureKind
  pub retryable : Bool
  pub user_safe_reason : String
  pub suggested_action : String
  pub failed_tool : Option Tool
  pub dependent_failure : Bool

abbrev pub make_query_failure :
    (code : String) (stage : FailureStage) (category : String) (kind : FailureKind)
    (retryable : Bool) (user_safe_reason suggested_action : String) (failed_tool : Option Tool)
    (dependent_failure : Bool)
    → QueryFailure
make_query_failure code stage category kind retryable reason action tool dependent = record {
  code = code;
  stage = stage;
  category = category;
  kind = kind;
  retryable = retryable;
  user_safe_reason = reason;
  suggested_action = action;
  failed_tool = tool;
  dependent_failure = dependent;
}
