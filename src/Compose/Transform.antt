-- ===== src/Compose/Transform.antt =====
-- `_validate_transform_shape`, `_validate_bom_shortage_route` and `validate_result_transform` of
-- backend/orchestrator/planning.py. A reason is the text of its ValueError. The model has no
-- floats, so a production quantity is an integer.
use Prim.Native.String.{◌++◌}
use text2cypher_manufacturin.Common.{
  ℕ, suc, String, Bool, true, false, not, ◌&&◌, Option, none, some, List, [], ◌∷◌, ◌==◌, eqb, all,
  elem, has_key, Dict, lookup, length, Result, ok, err, ◌>>=◌, if◌then◌else◌,
}
use text2cypher_manufacturin.Python.{Value, none_value, dict, str, int, pos, Row, to_dict}
use text2cypher_manufacturin.Failures.{Tool, sql, graph}
use text2cypher_manufacturin.Plan.{Subquery}

pub record BomShortageTransform : Type 0 where
  pub production_qty : ℕ

pub record TransformSpec : Type 0 where
  pub output_scale : ℕ
  pub graph_outputs : List String
  pub sql_outputs : List String

-- The `transforms` of a semantic catalog.
abbrev pub Catalog : Type 0
Catalog = Dict TransformSpec

abbrev pub bom_type : String
bom_type = "bom_shortage_v1"

abbrev pub quantity_of : Option Value → Result String (Option BomShortageTransform)
quantity_of (some (int (pos (suc n)))) = ok (some (record { production_qty = suc n }))
quantity_of _ = err "bom_shortage_v1 productionQty must be a finite positive number"

abbrev pub is_bom_type : Option Value → Bool
is_bom_type (some (str s)) = s == bom_type
is_bom_type _ = false

-- set(raw_transform) == {"type", "productionQty"}; the keys of a dict are distinct.
abbrev pub has_shape : Row → Bool
has_shape d = eqb (length d) 2 && (has_key "type" d && has_key "productionQty" d)

unfoldable pub validate_transform_shape : Value → Result String (Option BomShortageTransform)
validate_transform_shape none_value = ok none
validate_transform_shape (dict fs) =
    let d = to_dict fs in
    if not (has_shape d)
    then err "invalid resultTransform shape"
    else if not (is_bom_type (lookup "type" d))
    then err "unsupported resultTransform"
    else quantity_of (lookup "productionQty" d)
validate_transform_shape _ = err "invalid resultTransform shape"

abbrev pub strings_eq : List String → List String → Bool
strings_eq [] [] = true
strings_eq (x ∷ xs) (y ∷ ys) = x == y && strings_eq xs ys
strings_eq _ _ = false

-- set(xs) == set(ys)
abbrev pub same_set : List String → List String → Bool
same_set xs ys = all (λ x. elem x ys) xs && all (λ y. elem y xs) ys

-- sql.get("inputBindings") == {"componentIds": f"{graph['id']}.componentId"}
abbrev pub is_component_binding : String → Dict String → Bool
is_component_binding id ((target, source) ∷ []) =
    target == "componentIds" && source == id ++ ".componentId"
is_component_binding id _ = false

abbrev pub is_tool : Tool → Tool → Bool
is_tool sql sql = true
is_tool graph graph = true
is_tool _ _ = false

-- The route behind the test of the tools: `g` is the Graph subquery and `s` the SQL subquery.
unfoldable pub validate_bom_shortage_route : Subquery → Subquery → Result String (Unit {0})
validate_bom_shortage_route g s =
    if not (strings_eq s.depends_on (g.id ∷ []))
    then err "bom_shortage_v1 SQL must depend on its Graph producer"
    else if not
        (strings_eq g.join_keys ("componentId" ∷ []) && strings_eq s.join_keys ("componentId" ∷ []))
    then err "bom_shortage_v1 join key must be componentId on both sources"
    else if not (is_component_binding g.id s.input_bindings)
    then err "bom_shortage_v1 componentIds binding is invalid"
    else ok tt

abbrev pub check_outputs :
    Subquery
    → Subquery
    → BomShortageTransform
    → Option TransformSpec
    → Result String (Option BomShortageTransform)
check_outputs g s transform none = err "unsupported transform: 'bom_shortage_v1'"
check_outputs g s transform (some spec) =
    if not (same_set g.required_outputs spec.graph_outputs)
    then err "bom_shortage_v1 Graph requiredOutputs are invalid"
    else if not (same_set s.required_outputs spec.sql_outputs)
    then err "bom_shortage_v1 SQL requiredOutputs are invalid"
    else ok (some transform)

abbrev pub with_catalog :
    Subquery
    → Subquery
    → BomShortageTransform
    → Option Catalog
    → Result String (Option BomShortageTransform)
with_catalog g s transform none = err "formal transform validation requires a semantic catalog"
with_catalog g s transform (some catalog) = check_outputs g s transform (lookup bom_type catalog)

abbrev pub validate_plan :
    BomShortageTransform
    → List Subquery
    → Option Catalog
    → Result String (Option BomShortageTransform)
validate_plan transform (g ∷ s ∷ []) catalog =
    if is_tool g.tool graph && is_tool s.tool sql
    then (validate_bom_shortage_route g s >>= λ _. with_catalog g s transform catalog)
    else err "bom_shortage_v1 requires a Graph -> SQL plan"
validate_plan transform _ catalog = err "bom_shortage_v1 requires a Graph -> SQL plan"

abbrev pub shape_given :
    List Subquery
    → Option Catalog
    → Option BomShortageTransform
    → Result String (Option BomShortageTransform)
shape_given subqueries catalog none = ok none
shape_given subqueries catalog (some transform) = validate_plan transform subqueries catalog

unfoldable pub validate_result_transform :
    Value → List Subquery → Option Catalog → Result String (Option BomShortageTransform)
validate_result_transform raw subqueries catalog =
    validate_transform_shape raw >>= shape_given subqueries catalog
