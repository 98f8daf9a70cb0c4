-- ===== src/Planning/Validate.antt =====
-- `validate_subqueries`. A tool that cannot be hashed, which is a TypeError there, counts as
-- unsupported.
use text2cypher_manufacturin.Common.{
  ℕ, ◌+◌, String, Bool, not, ◌&&◌, ◌||◌, Option, none, some, List, [], ◌∷◌, ◌==◌, eqb, ltb, all,
  elem, is_empty, length, lookup, Dict, Result, ok, err, ◌>>=◌, if◌then◌else◌,
}
use text2cypher_manufacturin.Python.{
  truthy, Value, str, list, dict, nil, cons, end, Row, as_row, to_list, to_dict,
}
use text2cypher_manufacturin.Python.Exceptions.{codes}
use text2cypher_manufacturin.Failures.{Tool, sql, graph}
use text2cypher_manufacturin.Plan.{Subquery, split_dot}
use text2cypher_manufacturin.Compose.{same_set, strings_eq}
use text2cypher_manufacturin.Planning.Texts.{
  PlanError, not_an_array, too_many, ids_not_unique, tools_not_unique, not_an_object,
  unknown_fields, unsafe_id, unsupported_tool, empty_question, no_outputs, keys_not_outputs,
  bindings_not_object, invalid_binding, unknown_dependency, binding_not_dependency,
  binding_not_output, dependencies_unbound, keys_on_one_side, keys_differ, is_safe_identifier,
  has_text, has_duplicates, string_list,
}
use text2cypher_manufacturin.Planning.Order.{ids, find, topological_order}

abbrev pub allowed_fields : List String
allowed_fields =
    "id" ∷ "tool" ∷ "question" ∷ "dependsOn" ∷ "requiredOutputs" ∷ "joinKeys" ∷ "inputBindings"
    ∷ "generatorRules" ∷ []

abbrev pub check : Bool → PlanError → Result PlanError (Unit {0})
check b e = if b then ok tt else err e

-- raw.get(k, default)
abbrev pub or_default : Value → Option Value → Value
or_default default none = default
or_default default (some v) = v

abbrev pub object_at : ℕ → Option Row → Result PlanError Row
object_at index none = err (not_an_object index)
object_at index (some row) = ok row

abbrev pub id_of : ℕ → Option Value → Result PlanError String
id_of index (some (str s)) = if is_safe_identifier s then ok s else err (unsafe_id index)
id_of index _ = err (unsafe_id index)

abbrev pub tool_of : String → Option Value → Result PlanError Tool
tool_of id (some (str s)) =
    if s == "sql" then ok sql else if s == "graph" then ok graph else err (unsupported_tool id)
tool_of id _ = err (unsupported_tool id)

abbrev pub question_of : String → Option Value → Result PlanError String
question_of id (some (str s)) = if has_text s then ok s else err (empty_question id)
question_of id _ = err (empty_question id)

abbrev pub count_dots : List ℕ → ℕ
count_dots [] = 0
count_dots (c ∷ cs) = (if eqb c b'.' then 1 else 0) + count_dots cs

abbrev pub bindings_of : String → Row → Result PlanError (Dict String)
bindings_of id [] = ok []
bindings_of id ((target, str source) ∷ bindings) = do
  _ ← check (is_safe_identifier target && eqb (count_dots (codes source)) 1) (invalid_binding id)
  rest ← bindings_of id bindings
  ok ((target, source) ∷ rest)
bindings_of id ((target, v) ∷ bindings) = err (invalid_binding id)

abbrev pub bindings_given : String → Value → Result PlanError (Dict String)
bindings_given id (dict fs) = bindings_of id (to_dict fs)
bindings_given id _ = err (bindings_not_object id)

abbrev pub rules_given : String → Value → Result PlanError (List String)
rules_given id v = if truthy v then string_list v "generatorRules" id else ok []

-- The body of the loop over the raw subqueries.
unfoldable pub validate_subquery : Bool → ℕ → Value → Result PlanError Subquery
validate_subquery allow_empty_required_outputs index raw = do
  row ← object_at index (as_row raw)
  _ ← check (all (λ (k, v). elem k allowed_fields) row) (unknown_fields index)
  id ← id_of index (lookup "id" row)
  tool ← tool_of id (lookup "tool" row)
  question ← question_of id (lookup "question" row)
  depends_on ← string_list (or_default (list nil) (lookup "dependsOn" row)) "dependsOn" id
  outputs ← string_list (or_default (list nil) (lookup "requiredOutputs" row)) "requiredOutputs" id
  _ ← check (not (is_empty outputs) || allow_empty_required_outputs) (no_outputs id)
  join_keys ← string_list (or_default (list nil) (lookup "joinKeys" row)) "joinKeys" id
  _ ← check (all (λ k. elem k outputs) join_keys) (keys_not_outputs id)
  bindings ← bindings_given id (or_default (dict end) (lookup "inputBindings" row))
  rules ← rules_given id (or_default (list nil) (lookup "generatorRules" row))
  ok (record {
    id = id;
    tool = tool;
    question = question;
    depends_on = depends_on;
    required_outputs = outputs;
    join_keys = join_keys;
    input_bindings = bindings;
    generator_rules = rules;
  })

unfoldable pub validate_each : Bool → ℕ → List Value → Result PlanError (List Subquery)
validate_each allow_empty index [] = ok []
validate_each allow_empty index (raw ∷ raws) = do
  item ← validate_subquery allow_empty index raw
  items ← validate_each allow_empty (index + 1) raws
  ok (item ∷ items)

abbrev pub tool_name : Tool → String
tool_name sql = "sql"
tool_name graph = "graph"

abbrev pub tool_names : List Subquery → List String
tool_names [] = []
tool_names (s ∷ items) = tool_name s.tool ∷ tool_names items

abbrev pub outputs_of : Option Subquery → List String
outputs_of none = []
outputs_of (some s) = s.required_outputs

-- One binding of `item`: the dependency that it refers to.
abbrev pub check_source :
    List Subquery → Subquery → Option (String × String) → Result PlanError String
check_source items item none = err (invalid_binding item.id)
check_source items item (some (dependency_id, output_field)) =
    if not (elem dependency_id item.depends_on)
    then err (binding_not_dependency item.id)
    else if not (elem output_field (outputs_of (find dependency_id items)))
    then err (binding_not_output item.id)
    else ok dependency_id

abbrev pub check_sources : List Subquery → Subquery → Dict String → Result PlanError (List String)
check_sources items item [] = ok []
check_sources items item ((target, source) ∷ bindings) = do
  dependency_id ← check_source items item (split_dot source)
  rest ← check_sources items item bindings
  ok (dependency_id ∷ rest)

-- The second loop: what a subquery says of the others.
unfoldable pub check_item : List Subquery → Subquery → Result PlanError (Unit {0})
check_item items item = do
  _ ←
      check (all (λ d. not (d == item.id) && elem d (ids items)) item.depends_on)
        (unknown_dependency item.id)
  binding_dependencies ← check_sources items item item.input_bindings
  check (same_set item.depends_on binding_dependencies) (dependencies_unbound item.id)

unfoldable pub check_items : List Subquery → List Subquery → Result PlanError (Unit {0})
check_items items [] = ok tt
check_items items (item ∷ rest) = do _ ← check_item items item; check_items items rest

abbrev pub check_keys : List Subquery → Result PlanError (List Subquery)
check_keys (first ∷ second ∷ []) =
    if not
      (eqb (if is_empty first.join_keys then 0 else 1) (if is_empty second.join_keys then 0 else 1))
    then err keys_on_one_side
    else if not (is_empty first.join_keys) && not (strings_eq first.join_keys second.join_keys)
    then err keys_differ
    else ok (first ∷ second ∷ [])
check_keys ordered = ok ordered

abbrev pub max_subqueries : ℕ
max_subqueries = 2

abbrev pub raw_list : Value → Result PlanError (List Value)
raw_list (list (cons v vs)) = ok (v ∷ to_list vs)
raw_list _ = err not_an_array

unfoldable pub validate_subqueries : Bool → Value → Result PlanError (List Subquery)
validate_subqueries allow_empty_required_outputs subqueries = do
  raws ← raw_list subqueries
  _ ← check (not (ltb max_subqueries (length raws))) too_many
  validated ← validate_each allow_empty_required_outputs 0 raws
  _ ← check (not (has_duplicates (ids validated))) ids_not_unique
  _ ← check (not (has_duplicates (tool_names validated))) tools_not_unique
  _ ← check_items validated validated
  ordered ← topological_order validated
  check_keys ordered
