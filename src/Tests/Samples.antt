-- ===== src/Tests/Samples.antt =====
-- The inputs that the tests share: a subgraph for the shop database whose guard lets only one query
-- through, a plan with a graph source and a SQL source that needs its rows, and rows of both.
use text2cypher_manufacturin.Common.{ℕ, zero, suc, String, false, none, some, List, [], ◌∷◌, ◌==◌}
use text2cypher_manufacturin.Python.{pos, Value, int, str, dict, field, end}
use text2cypher_manufacturin.Python.Exceptions.{Call, returns}
use text2cypher_manufacturin.Failures.{sql, graph}
use text2cypher_manufacturin.Plan.{Subquery}
use text2cypher_manufacturin.Retry.{RetryAgentState, Config, GuardResult, batch}
use text2cypher_manufacturin.ExecutePlan.{Env, initial_state}

abbrev pub row_of : String → ℕ → Value
row_of id n = dict (field "componentId" (str id) (field "qty" (int (pos n)) end))

abbrev pub two_rows : List Value
two_rows = row_of "C1" 4 ∷ row_of "C2" 7 ∷ []

-- The first query writes, the second reads.
abbrev pub next_query : ℕ → String
next_query zero = "DELETE FROM stock"
next_query (suc n) = "SELECT componentId, qty FROM stock"

abbrev pub read_only : String → Call GuardResult
read_only q =
    returns (record { allowed = q == "SELECT componentId, qty FROM stock"; reason_code = none })

abbrev pub stock_config : Config
stock_config = record {
  tool = sql;
  generate = λ s last feedback. returns (next_query s.attempt_count);
  execute = λ attempt q. returns (batch two_rows false);
  is_connection = λ exc. false;
  is_retryable = λ exc. false;
  empty_result_feedback = "no rows";
  guard = some read_only;
  query_contract_error = none;
  result_contract_error = none;
  redact = λ q. some q;
}

abbrev pub graph_subquery : Subquery
graph_subquery = record {
  id = "q1";
  tool = graph;
  question = "components";
  depends_on = [];
  required_outputs = "componentId" ∷ [];
  join_keys = "componentId" ∷ [];
  input_bindings = [];
  generator_rules = [];
}

abbrev pub sql_subquery : Subquery
sql_subquery = record {
  id = "q2";
  tool = sql;
  question = "stock";
  depends_on = "q1" ∷ [];
  required_outputs = "componentId" ∷ [];
  join_keys = "componentId" ∷ [];
  input_bindings = ("componentIds", "q1.componentId") ∷ [];
  generator_rules = [];
}

abbrev pub plan : List Subquery
plan = graph_subquery ∷ sql_subquery ∷ []

abbrev pub fresh_state : RetryAgentState
fresh_state = initial_state sql_subquery "stock" Value.none_value "schema" []

-- An agent that has found the two rows.
abbrev pub env : Env
env = record {
  invoke = λ tool s. returns (record s { result = some two_rows; attempt_count = 1 });
  schema_text = λ tool. "schema";
  query = "question";
  entity = Value.none_value;
}
