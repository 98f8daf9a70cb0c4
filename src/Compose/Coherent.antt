-- ===== src/Compose/Coherent.antt =====
-- What every result of `compose_results` is, failures included.
mod Shape
mod Joining
mod Parts
pub use Shape.*
use text2cypher_manufacturin.Common.{
  ℕ, zero, suc, ◌+◌, ◌≤◌, ◌≡◌, ◌⊎◌, inl, inr, refl, sym, subst, String, Bool, true, false, ◌&&◌,
  ◌||◌, not, Option, none, some, List, [], ◌∷◌, any, take, length, length-append, ltb, eqb,
  is_empty, lookup, Result, ok, err, ◌>>=◌, >>=-eq-ok, ok-injective, arith, if◌then◌else◌, if_ind,
  eqb_iff,
}
use native.Mathlib.Nat.{le_refl}
use text2cypher_manufacturin.Python.{Value, Row}
use text2cypher_manufacturin.Plan.{Subquery}
use text2cypher_manufacturin.Retry.{EmptyReason, no_data}
use text2cypher_manufacturin.Compose.Types.{
  CompositionMode, single, joined, separate, CompositionError, bom_sources_truncated,
  sources_truncated, ComposedResult, failure, catalog_missing, transform_invalid, bom_failed,
  join_keys_differ,
}
use text2cypher_manufacturin.Compose.Sources.{
  ToolResults, Source, all_source_rows, overall_empty_reason,
}
use text2cypher_manufacturin.Compose.Transform.{
  BomShortageTransform, Catalog, TransformSpec, bom_type, validate_result_transform,
}
use text2cypher_manufacturin.Compose.Join.{
  Keyed, Groups, Joined, add_merged, join_row, join_rows, group_of, merge_rows, joined_result,
  or_failure, join_sources, compose_joined, left_keyed, right_groups,
}
use text2cypher_manufacturin.Compose.Results.{
  Shortages, shortage_result, compose_bom_shortage, pair_mode, single_result, count_rows,
  separate_result, bom_result, plain_result, by_transform, with_sources, with_transform, with_limit,
  with_mode, compose_results,
}
use text2cypher_manufacturin.Compose.Coherent.Shape.{IsCoherent, failed}
use text2cypher_manufacturin.Compose.Coherent.Joining.{compose_joined-IsCoherent}
use text2cypher_manufacturin.Compose.Coherent.Parts.{
  compose_bom_shortage-IsCoherent, single_result-IsCoherent, separate_result-IsCoherent,
}

module _ (shortages : Shortages) (row_limit : Option ℕ) (catalog : Option Catalog) where
  plain_result-IsCoherent :
      (mode : CompositionMode) (limit : ℕ) (subqueries : List Subquery) (sources : List Source)
      → IsCoherent (plain_result shortages row_limit catalog mode limit subqueries sources)
  plain_result-IsCoherent joined limit (first ∷ second ∷ []) (left ∷ right ∷ []) =
      compose_joined-IsCoherent first second left right limit
  plain_result-IsCoherent single limit subqueries (source ∷ []) = single_result-IsCoherent source
  plain_result-IsCoherent mode limit subqueries sources =
      separate_result-IsCoherent subqueries sources

  bom_result-IsCoherent :
      (limit : ℕ) (transform : BomShortageTransform) (sources : List Source)
      → IsCoherent (bom_result shortages row_limit catalog limit transform sources)
  bom_result-IsCoherent limit transform (g ∷ s ∷ []) = by_catalog catalog
    where
      by_spec :
          (o : Option TransformSpec)
          → IsCoherent (elim o [
            | none ↦
                failure joined (transform_invalid "unsupported transform") (some bom_type) false
            | some spec ↦ compose_bom_shortage shortages g s transform spec limit
          ])
      by_spec none = failed joined (transform_invalid "unsupported transform") (some bom_type) false
      by_spec (some spec) = compose_bom_shortage-IsCoherent shortages g s transform spec limit

      by_catalog :
          (o : Option Catalog)
          → IsCoherent (elim o [
            | none ↦ failure joined catalog_missing (some bom_type) false
            | some c ↦ elim (lookup bom_type c) [
              | none ↦
                  failure joined (transform_invalid "unsupported transform") (some bom_type) false
              | some spec ↦ compose_bom_shortage shortages g s transform spec limit
            ]
          ])
      by_catalog none = failed joined catalog_missing (some bom_type) false
      by_catalog (some c) = by_spec (lookup bom_type c)
  bom_result-IsCoherent limit transform sources =
      failed joined catalog_missing (some bom_type) false

  by_transform-IsCoherent :
      (mode : CompositionMode) (limit : ℕ) (subqueries : List Subquery)
      (o : Option BomShortageTransform) (sources : List Source)
      → IsCoherent (by_transform shortages row_limit catalog mode limit subqueries o sources)
  by_transform-IsCoherent mode limit subqueries none sources =
      plain_result-IsCoherent mode limit subqueries sources
  by_transform-IsCoherent mode limit subqueries (some transform) sources =
      bom_result-IsCoherent limit transform sources

  with_sources-IsCoherent :
      (mode : CompositionMode) (limit : ℕ) (subqueries : List Subquery)
      (o : Option BomShortageTransform) (r : Result CompositionError (List Source))
      → IsCoherent (with_sources shortages row_limit catalog mode limit subqueries o r)
  with_sources-IsCoherent mode limit subqueries o (err e) = inl (_, refl, refl, refl, refl, refl)
  with_sources-IsCoherent mode limit subqueries o (ok sources) =
      by_transform-IsCoherent mode limit subqueries o sources

  with_transform-IsCoherent :
      (mode : CompositionMode) (limit : ℕ) (subqueries : List Subquery) (tool_results : ToolResults)
      (r : Result String (Option BomShortageTransform))
      → IsCoherent (with_transform shortages row_limit catalog mode limit subqueries tool_results r)
  with_transform-IsCoherent mode limit subqueries tool_results (err reason) =
      inl (_, refl, refl, refl, refl, refl)
  with_transform-IsCoherent mode limit subqueries tool_results (ok o) =
      with_sources-IsCoherent mode limit subqueries o (all_source_rows subqueries tool_results)

  with_mode-IsCoherent :
      (subqueries : List Subquery) (tool_results : ToolResults) (raw : Value)
      (o : Option CompositionMode)
      → IsCoherent (with_mode shortages row_limit catalog subqueries tool_results raw o)
  with_mode-IsCoherent subqueries tool_results raw none = failed joined join_keys_differ none false
  with_mode-IsCoherent subqueries tool_results raw (some mode) = by_limit row_limit
    where
      by_limit :
          (o : Option ℕ)
          → IsCoherent (with_limit shortages row_limit catalog mode subqueries tool_results raw o)
      by_limit none = inl (_, refl, refl, refl, refl, refl)
      by_limit (some limit) =
          with_transform-IsCoherent mode limit subqueries tool_results
            (validate_result_transform raw subqueries catalog)

  -- Every composition is coherent, whatever the sources returned. A failure has an error and neither
  -- rows nor sections nor a count. A result without an error counts at least its rows, exactly those
  -- unless it is truncated or its rows stand in sections, and gives a reason for the lack of rows
  -- only where it counts none.
  pub compose_results-IsCoherent :
      (subqueries : List Subquery) (tool_results : ToolResults) (raw : Value)
      → IsCoherent (compose_results shortages row_limit catalog subqueries tool_results raw)
  unfolding compose_results
  compose_results-IsCoherent [] tool_results raw = inl (_, refl, refl, refl, refl, refl)
  compose_results-IsCoherent (first ∷ []) tool_results raw =
      with_mode-IsCoherent (first ∷ []) tool_results raw (some single)
  compose_results-IsCoherent (first ∷ second ∷ []) tool_results raw =
      with_mode-IsCoherent (first ∷ second ∷ []) tool_results raw
        (pair_mode first.join_keys second.join_keys)
  compose_results-IsCoherent (first ∷ second ∷ third ∷ rest) tool_results raw =
      inl (_, refl, refl, refl, refl, refl)
