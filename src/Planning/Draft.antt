-- ===== src/Planning/Draft.antt =====
-- `parse_route_draft`, on the value that json.loads has read. Whether explicit_production_quantity
-- finds another quantity in the query, a comparison of floats, is an argument.
use text2cypher_manufacturin.Common.{
  String, Bool, Option, none, some, List, [], ◌∷◌, ◌&&◌, lookup, Result, ok, err, ◌>>=◌,
  if◌then◌else◌,
}
use text2cypher_manufacturin.Python.{Value, none_value, Row, as_row}
use text2cypher_manufacturin.Failures.{Tool, sql, graph}
use text2cypher_manufacturin.Plan.{Subquery}
use text2cypher_manufacturin.Compose.{
  BomShortageTransform, validate_transform_shape, validate_bom_shortage_route, is_tool,
}
use text2cypher_manufacturin.Planning.Texts.{
  PlanError, route_shape, transform_invalid, quantity_mismatch,
}
use text2cypher_manufacturin.Planning.Validate.{or_default}
use text2cypher_manufacturin.Planning.Route.{
  Aliases, has_fields, validate_route_subqueries, derive_tool_plan,
}

pub record RouteDraft : Type 0 where
  pub tool_plan : List Tool
  pub subqueries : List Subquery
  pub result_transform : Option BomShortageTransform

abbrev pub as_plan_error {ℓ} : {A : Type ℓ} → Result String A → Result PlanError A
as_plan_error (ok a) = ok a
as_plan_error (err e) = err transform_invalid

abbrev pub draft_row : Option Row → Result PlanError Row
draft_row none = err route_shape
draft_row (some row) =
    if has_fields ("subqueries" ∷ "resultTransform" ∷ []) row then ok row else err route_shape

-- `_validate_bom_shortage_route`, its test of the tools included.
abbrev pub bom_route : List Subquery → Result PlanError (Unit {0})
bom_route (g ∷ s ∷ []) =
    if is_tool g.tool graph && is_tool s.tool sql
    then as_plan_error (validate_bom_shortage_route g s)
    else err transform_invalid
bom_route _ = err transform_invalid

abbrev pub transform_route :
    (BomShortageTransform → Bool)
    → List Subquery
    → Option BomShortageTransform
    → Result PlanError (Unit {0})
transform_route differs subqueries none = ok tt
transform_route differs subqueries (some transform) =
    if differs transform then err quantity_mismatch else bom_route subqueries

unfoldable pub parse_route_draft :
    (shared : List String)
    → Aliases
    → (differs : BomShortageTransform → Bool) → Value
    → Result PlanError RouteDraft
parse_route_draft shared catalog differs raw = do
  row ← draft_row (as_row raw)
  subqueries ←
      validate_route_subqueries shared catalog (or_default none_value (lookup "subqueries" row))
  transform ←
      as_plan_error
        (validate_transform_shape (or_default none_value (lookup "resultTransform" row)))
  tool_plan ← derive_tool_plan subqueries
  _ ← transform_route differs subqueries transform
  ok (record { tool_plan = tool_plan; subqueries = subqueries; result_transform = transform })
