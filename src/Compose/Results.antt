-- ===== src/Compose/Results.antt =====
-- `_compose_bom_shortage` and `compose_results`.
use text2cypher_manufacturin.Common.{
  ℕ, ◌+◌, String, true, false, ◌&&◌, ◌||◌, Option, none, some, List, [], ◌∷◌, any, take, length,
  ltb, is_empty, Dict, lookup, insert, Result, ok, err, if◌then◌else◌,
}
use text2cypher_manufacturin.Python.{Value, Row, dict, str, lookup_field}
use text2cypher_manufacturin.Plan.{Subquery}
use text2cypher_manufacturin.Retry.{no_data}
use text2cypher_manufacturin.Compose.Types.{
  CompositionMode, single, joined, separate, CompositionError, no_subqueries, too_many_subqueries,
  join_keys_differ, negative_row_limit, bom_sources_truncated, catalog_missing, transform_invalid,
  bom_failed, ComposedSection, ComposedResult, failure, composed,
}
use text2cypher_manufacturin.Compose.Sources.{
  ToolResults, Source, all_source_rows, overall_empty_reason,
}
use text2cypher_manufacturin.Compose.Transform.{
  BomShortageTransform, TransformSpec, Catalog, bom_type, same_set, validate_result_transform,
}
use text2cypher_manufacturin.Compose.Join.{compose_joined, either_inconclusive}

-- calculate_bom_shortages of backend/orchestrator/bom_shortage.py: the rows, or the text of its
-- ValueError.
abbrev pub Shortages : Type 0
Shortages = List Row → List Row → BomShortageTransform → TransformSpec → Result String (List Row)

abbrev pub shortage_result : ℕ → Result String (List Row) → ComposedResult
shortage_result row_limit (err reason) = failure joined (bom_failed reason) (some bom_type) false
shortage_result row_limit (ok final_rows) =
    composed joined (some bom_type) (take row_limit final_rows)
      (if is_empty final_rows then some no_data else none) (length final_rows)
      (ltb (length (take row_limit final_rows)) (length final_rows))

unfoldable pub compose_bom_shortage :
    Shortages → Source → Source → BomShortageTransform → TransformSpec → ℕ → ComposedResult
compose_bom_shortage shortages graph_source sql_source transform spec row_limit =
    if graph_source.truncated || sql_source.truncated
    then failure joined bom_sources_truncated (some bom_type) true
    else if is_empty graph_source.rows && is_empty sql_source.rows
    then composed joined (some bom_type) [] (some (either_inconclusive graph_source sql_source)) 0
        false
    else shortage_result row_limit (shortages graph_source.rows sql_source.rows transform spec)

-- The mode of a plan, or the failure of one that has none.
abbrev pub pair_mode : List String → List String → Option CompositionMode
pair_mode [] [] = some separate
pair_mode (k ∷ ks) (l ∷ ls) = if same_set (k ∷ ks) (l ∷ ls) then some joined else none
pair_mode _ _ = none

abbrev pub transform_name : Option BomShortageTransform → Option String
transform_name none = none
transform_name (some _) = some bom_type

abbrev pub single_result : Source → ComposedResult
single_result source =
    composed single none source.rows (if is_empty source.rows then source.empty_reason else none)
      (length source.rows) source.truncated

abbrev pub section_of : Subquery → Source → ComposedSection
section_of subquery source = record {
  tool = subquery.tool;
  rows = source.rows;
  empty_reason = if is_empty source.rows then source.empty_reason else none;
}

abbrev pub sections_of : Dict ComposedSection → List Subquery → List Source → Dict ComposedSection
sections_of sections (subquery ∷ subqueries) (source ∷ sources) =
    sections_of (insert subquery.id (section_of subquery source) sections) subqueries sources
sections_of sections _ _ = sections

abbrev pub count_rows : List Source → ℕ
count_rows [] = 0
count_rows (source ∷ sources) = length source.rows + count_rows sources

abbrev pub separate_result : List Subquery → List Source → ComposedResult
separate_result subqueries sources =
    record (composed separate none [] (overall_empty_reason sources) (count_rows sources)
      (any (λ s. s.truncated) sources)) { sections = sections_of [] subqueries sources }

-- `row_limit` may be negative; `none` stands for that.
module _ (shortages : Shortages) (row_limit : Option ℕ) (catalog : Option Catalog) where
  abbrev pub bom_result : ℕ → BomShortageTransform → List Source → ComposedResult
  bom_result limit transform (g ∷ s ∷ []) = elim catalog [
    | none ↦ failure joined catalog_missing (some bom_type) false
    | some c ↦ elim (lookup bom_type c) [
      | none ↦ failure joined (transform_invalid "unsupported transform") (some bom_type) false
      | some spec ↦ compose_bom_shortage shortages g s transform spec limit
    ]
  ]
  bom_result limit transform _ = failure joined catalog_missing (some bom_type) false

  abbrev pub plain_result : CompositionMode → ℕ → List Subquery → List Source → ComposedResult
  plain_result joined limit (first ∷ second ∷ []) (left ∷ right ∷ []) =
      compose_joined first second left right limit
  plain_result single limit subqueries (source ∷ []) = single_result source
  plain_result _ limit subqueries sources = separate_result subqueries sources

  abbrev pub by_transform :
      CompositionMode
      → ℕ
      → List Subquery
      → Option BomShortageTransform
      → List Source
      → ComposedResult
  by_transform mode limit subqueries none sources = plain_result mode limit subqueries sources
  by_transform mode limit subqueries (some transform) sources = bom_result limit transform sources

  abbrev pub with_sources :
      CompositionMode
      → ℕ
      → List Subquery
      → Option BomShortageTransform
      → Result CompositionError (List Source)
      → ComposedResult
  with_sources mode limit subqueries transform (err e) =
      failure mode e (transform_name transform) false
  with_sources mode limit subqueries transform (ok sources) =
      by_transform mode limit subqueries transform sources

  abbrev pub with_transform :
      CompositionMode
      → ℕ
      → List Subquery
      → ToolResults
      → Result String (Option BomShortageTransform)
      → ComposedResult
  with_transform mode limit subqueries tool_results (err reason) =
      failure mode (transform_invalid reason) (some bom_type) false
  with_transform mode limit subqueries tool_results (ok transform) =
      with_sources mode limit subqueries transform (all_source_rows subqueries tool_results)

  -- result_transform["type"], where a transform is given. The parameter's type makes that a text;
  -- anything else is no name here.
  abbrev pub given_type : Value → Option String
  given_type (dict fs) = elim (lookup_field "type" fs) [ some (str name) ↦ some name | _ ↦ none ]
  given_type _ = none

  abbrev pub with_limit :
      CompositionMode → List Subquery → ToolResults → Value → Option ℕ → ComposedResult
  with_limit mode subqueries tool_results raw none =
      failure mode negative_row_limit (given_type raw) false
  with_limit mode subqueries tool_results raw (some limit) =
      with_transform mode limit subqueries tool_results
        (validate_result_transform raw subqueries catalog)

  abbrev pub with_mode :
      List Subquery → ToolResults → Value → Option CompositionMode → ComposedResult
  with_mode subqueries tool_results raw none = failure joined join_keys_differ none false
  with_mode subqueries tool_results raw (some mode) =
      with_limit mode subqueries tool_results raw row_limit

  unfoldable pub compose_results : List Subquery → ToolResults → Value → ComposedResult
  compose_results [] tool_results raw = failure single no_subqueries none false
  compose_results (first ∷ []) tool_results raw =
      with_mode (first ∷ []) tool_results raw (some single)
  compose_results (first ∷ second ∷ []) tool_results raw =
      with_mode (first ∷ second ∷ []) tool_results raw (pair_mode first.join_keys second.join_keys)
  compose_results _ tool_results raw = failure separate too_many_subqueries none false
