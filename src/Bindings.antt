-- ===== src/Bindings.antt =====
-- backend/orchestrator/bindings.py: rows of finished subqueries become inputs of a later one.
pub mod Projection
use text2cypher_manufacturin.Common.{
  ℕ, ◌+◌, String, Option, none, some, List, [], ◌∷◌, Dict, lookup, Result, ok, err, ◌>>=◌,
}
use text2cypher_manufacturin.Python.{Value, Row, as_row}
use text2cypher_manufacturin.Plan.{split_dot}

-- The ValueErrors, with what their texts name.
pub data BindingError : Type 0 where
  malformed_source : (source : String) → BindingError
  missing_dependency : (dependency_id : String) → BindingError
  result_not_list : (dependency_id : String) → BindingError
  row_not_object : (dependency_id : String) (row_index : ℕ) → BindingError
  missing_field : (dependency_id : String) (row_index : ℕ) (field : String) → BindingError

module _ (dependency_id field : String) where
  abbrev pub project_field : ℕ → Option Value → Result BindingError Value
  project_field row_index none = err (missing_field dependency_id row_index field)
  project_field row_index (some v) = ok v

  abbrev pub project_row : ℕ → Option Row → Result BindingError Value
  project_row row_index none = err (row_not_object dependency_id row_index)
  project_row row_index (some row) = project_field row_index (lookup field row)

  unfoldable pub project_rows : ℕ → List Value → Result BindingError (List Value)
  project_rows row_index [] = ok []
  project_rows row_index (row ∷ rows) = do
    v ← project_row row_index (as_row row)
    vs ← project_rows (row_index + 1) rows
    ok (v ∷ vs)

  -- `none` is a result that is None.
  abbrev pub project_result : Option (Option (List Value)) → Result BindingError (List Value)
  project_result none = err (missing_dependency dependency_id)
  project_result (some none) = err (result_not_list dependency_id)
  project_result (some (some rows)) = project_rows 0 rows

abbrev pub project_source :
    Dict (Option (List Value))
    → String
    → Option (String × String)
    → Result BindingError (List Value)
project_source upstream source none = err (malformed_source source)
project_source upstream source (some (dependency_id, field)) =
    project_result dependency_id field (lookup dependency_id upstream)

unfoldable pub collect_input_bindings :
    Dict String → Dict (Option (List Value)) → Result BindingError (Dict (List Value))
collect_input_bindings [] upstream = ok []
collect_input_bindings ((input_name, source) ∷ bindings) upstream = do
  projected ← project_source upstream source (split_dot source)
  rest ← collect_input_bindings bindings upstream
  ok ((input_name, projected) ∷ rest)
