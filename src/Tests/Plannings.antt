-- ===== src/Tests/Plannings.antt =====
-- A raw plan, its subqueries in the wrong order, and its validation.
use text2cypher_manufacturin.Common.{
  ◌*◌, ◌+◌, arith, String, some, ◌≡◌, ◌≢◌, refl, true, false, List, [], ◌∷◌, err, has_key, All,
}
use text2cypher_manufacturin.Python.{
  Value, Values, str, list, dict, nil, cons, field, end, as_row, to_dict, to_list,
}
use text2cypher_manufacturin.Python.Exceptions.{codes}
use text2cypher_manufacturin.Plan.{Subquery, split_dot}
use text2cypher_manufacturin.ExecutePlan.{execute_plan}
use text2cypher_manufacturin.ExecutePlan.Termination.{OnDone}
use text2cypher_manufacturin.Planning.{
  unfinished, validate_subqueries, validate_each, validate_subquery, check_items, check_item,
  topological_order, order_from, settle_all, korean_counter_quantity, Aliases,
  validate_route_subqueries, route_each, route_subquery, route_items, route_item, route_sources,
  compile_binding_array, compile_bindings, settle, is_safe_identifier, has_text, string_list,
}
use text2cypher_manufacturin.Planning.Sorted.{validate_subqueries-completes}
use text2cypher_manufacturin.Planning.Counting.{written, korean_counter_quantity-written}
use text2cypher_manufacturin.Planning.Routes.{IsRoute, validate_route_subqueries-IsRoute}
use text2cypher_manufacturin.Planning.Rounds.{topological_order-ends}
use text2cypher_manufacturin.Tests.Samples.{env, plan, graph_subquery, sql_subquery}

abbrev raw_graph : Value
raw_graph = dict (
    field "id" (str "q1") (
      field "tool" (str "graph") (
        field "question" (str "components") (
          field "requiredOutputs" (list (cons (str "componentId") nil))
            (field "joinKeys" (list (cons (str "componentId") nil)) end)))))

abbrev raw_sql : Value
raw_sql = dict (
    field "id" (str "q2") (
      field "tool" (str "sql") (
        field "question" (str "stock") (
          field "dependsOn" (list (cons (str "q1") nil)) (
            field "requiredOutputs" (list (cons (str "componentId") nil)) (
              field "joinKeys" (list (cons (str "componentId") nil)) (
                field "inputBindings" (dict (field "componentIds" (str "q1.componentId") end))
                  end)))))))

abbrev raw_plan : Value
raw_plan = list (cons raw_sql (cons raw_graph nil))

validate_subqueries-completes_example :
    OnDone env (λ p. All (λ s. has_key s.id p.outcomes ≡ true) plan) ⊥ (execute_plan env plan)
unfolding validate_subqueries validate_each validate_subquery check_items check_item
    topological_order order_from settle_all settle is_safe_identifier has_text string_list codes
    as_row to_dict to_list split_dot
validate_subqueries-completes_example = validate_subqueries-completes env false raw_plan plan refl

-- Two subqueries that wait for each other.
abbrev cycle : List Subquery
cycle = record graph_subquery { depends_on = "q2" ∷ [] } ∷ sql_subquery ∷ []

topological_order-ends_example : topological_order cycle ≢ err unfinished
topological_order-ends_example = topological_order-ends cycle

-- "스물셋"
korean_counter_quantity-written_example :
    korean_counter_quantity (written false false 2 3) ≡ some (2 * 10 + 3)
korean_counter_quantity-written_example =
    korean_counter_quantity-written false false 2 3 (omega arith) (omega arith) (omega arith)

abbrev raw_binding : Value
raw_binding = dict (
    field "target" (str "componentIds")
      (field "sourceSubqueryId" (str "q1") (field "sourceOutput" (str "componentId") end)))

abbrev raw_route : String → String → Values → Values → Value
raw_route id tool deps bindings = dict (
    field "id" (str id) (
      field "tool" (str tool) (
        field "question" (str "stock") (
          field "dependsOn" (list deps) (
            field "joinKeys" (list (cons (str "componentId") nil))
              (field "inputBindings" (list bindings) end))))))

-- The SQL side first, though it depends on the other.
abbrev raw_routes : Value
raw_routes = list (
    cons (raw_route "q2" "sql" (cons (str "q1") nil) (cons raw_binding nil))
      (cons (raw_route "q1" "graph" nil nil) nil))

abbrev route : List Subquery
route =
    record graph_subquery { question = "stock"; required_outputs = [] }
    ∷ record sql_subquery { question = "stock"; required_outputs = [] }
    ∷ []

abbrev aliases : Aliases
aliases = some (λ tool. "componentId" ∷ [])

validate_route_subqueries-IsRoute_example : IsRoute ("componentId" ∷ []) aliases route
unfolding validate_route_subqueries route_each route_subquery route_items route_item route_sources
    compile_binding_array compile_bindings topological_order order_from settle_all settle
    is_safe_identifier has_text string_list codes as_row to_dict to_list split_dot
validate_route_subqueries-IsRoute_example =
    validate_route_subqueries-IsRoute ("componentId" ∷ []) aliases raw_routes route refl
