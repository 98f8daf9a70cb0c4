-- ===== src/Tests/Requests.antt =====
-- Requests, and a run of the pipeline on each.
use text2cypher_manufacturin.Common.{
  ℕ, ◌++◌, ◌⊎◌, inl, ◌==◌, none, ◌≡◌, refl, String, Bool, true, false, List, [], ◌∷◌,
}
use text2cypher_manufacturin.Python.Exceptions.{codes, Call, returns}
use text2cypher_manufacturin.Python.Regex.{match_at, search_at, search_text}
use text2cypher_manufacturin.Python.{
  none_value, str, int, pos, list, cons, nil, dict, field, end, is_none, as_row, to_dict,
}
use text2cypher_manufacturin.Pipeline.{
  has_write_intent, OrchestratorState, StrictEnv, run_nodes, Env, GraphRun, answered, crashed,
  out_of_steps, NodeName, run_graph, entered, run_from, guard_request, guard_request_node,
  strict_query, rejection_reason, update, query_input,
}
use text2cypher_manufacturin.Pipeline.Fallback.{strict_query-decides, IsTakenOver, IsCleanStart}
use text2cypher_manufacturin.Pipeline.Paths.{
  path, IsDecided, run_graph-answers, run_graph-refuses, answering, refused,
}
use text2cypher_manufacturin.Pipeline.Runs.{run_nodes-stops}
use text2cypher_manufacturin.Pipeline.Keywords.{has_write_intent-keyword}

-- The syllables of Hangul are letters.
abbrev hangul : ℕ → Bool
hangul c = true

abbrev writes : String → Bool
writes q = has_write_intent hangul (codes q)

formal : writes "재고를 삭제해 주세요" ≡ true
unfolding has_write_intent search_text search_at match_at codes
formal = refl

sql_syntax : writes "그리고 UPDATE production.product  SET name" ≡ true
unfolding has_write_intent search_text search_at match_at codes
sql_syntax = refl

descriptive : writes "최근 수정된 작업 지시를 보여줘" ≡ false
unfolding has_write_intent search_text search_at match_at codes
descriptive = refl

-- A question that begins with a keyword of SQL.
question : writes "Do we have bolts?" ≡ true
unfolding has_write_intent search_text search_at match_at codes
question = refl

has_write_intent-keyword_example :
    has_write_intent hangul (codes " " ++ (codes "Do" ++ codes " we have bolts?")) ≡ true
unfolding codes
has_write_intent-keyword_example =
    has_write_intent-keyword hangul (codes " ") (codes "Do") (codes " we have bolts?") (refl, tt)
      refl refl

-- A strict path that finds one row, unless it times out.
abbrev found : OrchestratorState
found =
    ("query", str "stock of bolts")
    ∷ (
      "composed_result",
      dict (field "rows" (list (cons (dict (field "qty" (int (pos 4)) end)) nil)) end),
    )
    ∷ ("query_failure", none_value)
    ∷ []

abbrev strict_env : StrictEnv
strict_env = record {
  initial_error = none;
  run_strict = run_nodes ((λ s. returns found) ∷ []);
  within_timeout = λ r. r;
  is_timeout = λ exc. exc.type_name == "TimeoutError";
  elapsed_ms = λ s. int (pos 12);
}

-- Nodes that change nothing.
abbrev idle : OrchestratorState → Call OrchestratorState
idle s = returns []

abbrev env : Env
env = record {
  is_alnum = hangul;
  strict = strict_env;
  classify_topic = idle;
  resolve_entity = idle;
  route_query = idle;
  plan_outputs = idle;
  execute_plan = idle;
  compose_results = idle;
  generate_answer = λ s. returns (("final_answer", str "done") ∷ []);
}

abbrev asking : String → OrchestratorState
asking q = ("query", str q) ∷ []

abbrev trace_of : GraphRun → List NodeName
trace_of (answered state trace) = trace
trace_of (crashed exc trace) = trace
trace_of out_of_steps = []

accepted : trace_of (run_graph env (asking "stock of bolts")) ≡ path false false true
unfolding run_from guard_request strict_query run_nodes rejection_reason update is_none as_row
    to_dict has_write_intent search_text search_at match_at codes
accepted = refl

refused_run : trace_of (run_graph env (asking "delete the bolts")) ≡ path true true true
unfolding run_from guard_request strict_query run_nodes rejection_reason update is_none as_row
    to_dict has_write_intent search_text search_at match_at codes
refused_run = refl

strict_query-decides_example :
    (changes : OrchestratorState) × (strict_query strict_env (asking "stock of bolts")
      ≡ returns changes)
    × (((result : OrchestratorState) × (strict_env.within_timeout (
              strict_env.run_strict
                (query_input strict_env (asking "stock of bolts") (str "stock of bolts")))
            ≡ returns result)
          × IsTakenOver strict_env
              (asking "stock of bolts")
              (update (asking "stock of bolts") changes)
              result)
        ⊎ IsCleanStart strict_env
            (asking "stock of bolts")
            (update (asking "stock of bolts") changes))
strict_query-decides_example =
    strict_query-decides strict_env (asking "stock of bolts") (str "stock of bolts") refl

run_graph-answers_example :
    (off_topic : Bool) × (accepted : Bool) × (final : OrchestratorState) × IsDecided env
      (asking "stock of bolts")
      (has_write_intent hangul (codes "stock of bolts"))
      off_topic
      accepted
    × (run_graph env (asking "stock of bolts")
        ≡ answered final
            (path (has_write_intent hangul (codes "stock of bolts")) off_topic accepted))
run_graph-answers_example =
    run_graph-answers env (λ s. ([], refl)) (λ s. ([], refl)) (λ s. ([], refl)) (λ s. ([], refl))
      (λ s. ([], refl)) (λ s. ([], refl)) (λ s. (("final_answer", str "done") ∷ [], refl))
      (asking "stock of bolts") "stock of bolts" refl

run_graph-refuses_example :
    run_graph env (asking "delete the bolts")
    ≡ entered guard_request_node (
        answering
          (env.generate_answer (refused (asking "delete the bolts")))
          (refused (asking "delete the bolts")))
unfolding has_write_intent search_text search_at match_at codes
run_graph-refuses_example =
    run_graph-refuses env (asking "delete the bolts") "delete the bolts" refl refl

-- A node that fails, between others.
abbrev failing : OrchestratorState → Call OrchestratorState
failing s = returns (("query_failure", str "no plan") ∷ [])

run_nodes-stops_example :
    run_nodes ((idle ∷ []) ++ failing ∷ (λ s. returns found) ∷ []) (asking "stock of bolts")
    ≡ returns (update (asking "stock of bolts") (("query_failure", str "no plan") ∷ []))
unfolding run_nodes update is_none
run_nodes-stops_example =
    run_nodes-stops (idle ∷ []) ((λ s. returns found) ∷ []) failing (asking "stock of bolts")
      (asking "stock of bolts") (("query_failure", str "no plan") ∷ []) (str "no plan") refl
      (inl refl) refl refl
