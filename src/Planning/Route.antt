-- ===== src/Planning/Route.antt =====
-- `validate_route_subqueries` and `derive_tool_plan`. A RouteSubquery is a Subquery without
-- outputs and rules.
use Prim.Native.String.{◌++◌}
use text2cypher_manufacturin.Common.{
  ℕ, ◌+◌, String, Bool, true, not, ◌&&◌, Option, none, some, List, [], ◌∷◌, ◌==◌, eqb, ltb, all,
  elem, map, has_key, length, lookup, Dict, Result, ok, err, ◌>>=◌, if◌then◌else◌,
}
use text2cypher_manufacturin.Python.{Value, none_value, str, list, Row, as_row, to_list}
use text2cypher_manufacturin.Failures.{Tool}
use text2cypher_manufacturin.Plan.{Subquery, split_dot}
use text2cypher_manufacturin.Compose.{same_set}
use text2cypher_manufacturin.Planning.Texts.{
  PlanError, too_many, ids_not_unique, tools_not_unique, unknown_fields, invalid_binding,
  unknown_dependency, binding_not_dependency, dependencies_unbound, keys_not_shared,
  bindings_not_array, binding_shape, binding_values, binding_twice, binding_not_owned,
  is_safe_identifier, has_duplicates, string_list,
}
use text2cypher_manufacturin.Planning.Order.{ids, find, topological_order}
use text2cypher_manufacturin.Planning.Validate.{
  check, or_default, object_at, id_of, tool_of, question_of, max_subqueries, raw_list, tool_names,
  check_keys,
}

-- set(d) == set(keys), for distinct keys.
abbrev pub has_fields : List String → Row → Bool
has_fields keys d = eqb (length d) (length keys) && all (λ k. has_key k d) keys

abbrev pub safe_text : Option Value → Option String
safe_text (some (str s)) = if is_safe_identifier s then some s else none
safe_text _ = none

abbrev pub nonempty_text : Option Value → Option String
nonempty_text (some (str s)) = if s == "" then none else some s
nonempty_text _ = none

abbrev pub binding_parts :
    String
    → ℕ
    → (target source_id source_output : Option String) → Result PlanError (String × String)
binding_parts id index (some target) (some source_id) (some source_output) =
    ok (target, source_id ++ "." ++ source_output)
binding_parts id index _ _ _ = err (binding_values id index)

abbrev pub binding_row : String → ℕ → Option Row → Result PlanError (String × String)
binding_row id index none = err (binding_shape id index)
binding_row id index (some row) =
    if has_fields ("target" ∷ "sourceSubqueryId" ∷ "sourceOutput" ∷ []) row
    then binding_parts id index (safe_text (lookup "target" row))
        (nonempty_text (lookup "sourceSubqueryId" row)) (safe_text (lookup "sourceOutput" row))
    else err (binding_shape id index)

-- The loop of `_compile_binding_array`, with the targets that it has met.
unfoldable pub compile_bindings :
    (id : String) → ℕ → List String → List Value → Result PlanError (Dict String)
compile_bindings id index seen [] = ok []
compile_bindings id index seen (raw ∷ raws) = do
  (target, source) ← binding_row id index (as_row raw)
  _ ← check (not (elem target seen)) (binding_twice id target)
  rest ← compile_bindings id (index + 1) (target ∷ seen) raws
  ok ((target, source) ∷ rest)

unfoldable pub compile_binding_array : String → Value → Result PlanError (Dict String)
compile_binding_array id (list vs) = compile_bindings id 0 [] (to_list vs)
compile_binding_array id _ = err (bindings_not_array id)

abbrev pub route_fields : List String
route_fields = "id" ∷ "tool" ∷ "question" ∷ "dependsOn" ∷ "joinKeys" ∷ "inputBindings" ∷ []

-- The body of the loop over the raw subqueries.
unfoldable pub route_subquery : (shared : List String) → ℕ → Value → Result PlanError Subquery
route_subquery shared index raw = do
  row ← object_at index (as_row raw)
  _ ← check (has_fields route_fields row) (unknown_fields index)
  id ← id_of index (lookup "id" row)
  tool ← tool_of id (lookup "tool" row)
  question ← question_of id (lookup "question" row)
  depends_on ← string_list (or_default none_value (lookup "dependsOn" row)) "dependsOn" id
  join_keys ← string_list (or_default none_value (lookup "joinKeys" row)) "joinKeys" id
  _ ← check (all (λ k. elem k shared) join_keys) (keys_not_shared id)
  bindings ← compile_binding_array id (or_default none_value (lookup "inputBindings" row))
  ok (record {
    id = id;
    tool = tool;
    question = question;
    depends_on = depends_on;
    required_outputs = [];
    join_keys = join_keys;
    input_bindings = bindings;
    generator_rules = [];
  })

unfoldable pub route_each : List String → ℕ → List Value → Result PlanError (List Subquery)
route_each shared index [] = ok []
route_each shared index (raw ∷ raws) = do
  item ← route_subquery shared index raw
  items ← route_each shared (index + 1) raws
  ok (item ∷ items)

-- catalog.allowed_aliases, where there is a catalog.
abbrev pub Aliases : Type 0
Aliases = Option (Tool → List String)

abbrev pub owned : Tool → String → Aliases → Bool
owned tool output none = true
owned tool output (some allowed_aliases) = elem output (allowed_aliases tool)

abbrev pub check_owner :
    String → (dependency_id output : String) → Aliases → Option Subquery → Result PlanError String
check_owner id dependency_id output catalog none = err (unknown_dependency id)
check_owner id dependency_id output catalog (some producer) =
    if owned producer.tool output catalog
    then ok dependency_id
    else err (binding_not_owned id output)

-- One binding of `item`: the dependency that it refers to.
abbrev pub route_source :
    Aliases → List Subquery → Subquery → Option (String × String) → Result PlanError String
route_source catalog items item none = err (invalid_binding item.id)
route_source catalog items item (some (dependency_id, output)) =
    if elem dependency_id item.depends_on
    then check_owner item.id dependency_id output catalog (find dependency_id items)
    else err (binding_not_dependency item.id)

unfoldable pub route_sources :
    Aliases → List Subquery → Subquery → Dict String → Result PlanError (List String)
route_sources catalog items item [] = ok []
route_sources catalog items item ((target, source) ∷ bindings) = do
  dependency_id ← route_source catalog items item (split_dot source)
  rest ← route_sources catalog items item bindings
  ok (dependency_id ∷ rest)

-- The second loop: what a subquery says of the others.
unfoldable pub route_item : Aliases → List Subquery → Subquery → Result PlanError (Unit {0})
route_item catalog items item = do
  _ ←
      check (all (λ d. not (d == item.id) && elem d (ids items)) item.depends_on)
        (unknown_dependency item.id)
  binding_dependencies ← route_sources catalog items item item.input_bindings
  check (same_set item.depends_on binding_dependencies) (dependencies_unbound item.id)

unfoldable pub route_items : Aliases → List Subquery → List Subquery → Result PlanError (Unit {0})
route_items catalog items [] = ok tt
route_items catalog items (item ∷ rest) = do
  _ ← route_item catalog items item
  route_items catalog items rest

unfoldable pub validate_route_subqueries :
    (shared : List String) → Aliases → Value → Result PlanError (List Subquery)
validate_route_subqueries shared catalog subqueries = do
  raws ← raw_list subqueries
  _ ← check (not (ltb max_subqueries (length raws))) too_many
  validated ← route_each shared 0 raws
  _ ← check (not (has_duplicates (ids validated))) ids_not_unique
  _ ← check (not (has_duplicates (tool_names validated))) tools_not_unique
  _ ← route_items catalog validated validated
  ordered ← topological_order validated
  check_keys ordered

abbrev pub tools_of : List Subquery → List Tool
tools_of items = map (λ s. s.tool) items

unfoldable pub derive_tool_plan : List Subquery → Result PlanError (List Tool)
derive_tool_plan subqueries = do ordered ← topological_order subqueries; ok (tools_of ordered)
