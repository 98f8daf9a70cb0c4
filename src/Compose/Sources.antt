-- ===== src/Compose/Sources.antt =====
-- `_source_rows`: the rows of one source, after every check on what the tool returned.
use text2cypher_manufacturin.Common.{
  ℕ, ◌+◌, String, Bool, true, false, not, Option, none, some, List, [], ◌∷◌, ◌==◌, is_empty, Result,
  ok, err, ◌>>=◌, if◌then◌else◌, any,
}
use text2cypher_manufacturin.Python.{
  Value, none_value, bool, str, list, Row, as_row, is_none, to_list,
}
use text2cypher_manufacturin.Failures.{Tool}
use text2cypher_manufacturin.Plan.{Subquery}
use text2cypher_manufacturin.Retry.{EmptyReason, no_data, inconclusive}
use text2cypher_manufacturin.Compose.Types.{
  CompositionError, result_missing, result_none, result_not_list, truncated_not_bool, source_failed,
  row_not_object, empty_reason_unsupported, empty_reason_with_rows,
}

-- A tool's result, by what `.get` gives for the four keys: None for a missing one, and False for a
-- missing "truncated".
pub record ToolResult : Type 0 where
  pub error : Value
  pub result : Value
  pub truncated : Value
  pub empty_reason : Value

abbrev pub ToolResults : Type 0
ToolResults = Tool → Option ToolResult

-- (rows, empty_reason, truncated)
pub record Source : Type 0 where
  pub rows : List Row
  pub empty_reason : Option EmptyReason
  pub truncated : Bool

abbrev pub object_or : String → ℕ → Option Row → Result CompositionError Row
object_or id row_index none = err (row_not_object id row_index)
object_or id row_index (some row) = ok row

unfoldable pub objects : String → ℕ → List Value → Result CompositionError (List Row)
objects id row_index [] = ok []
objects id row_index (v ∷ vs) = do
  row ← object_or id row_index (as_row v)
  rows ← objects id (row_index + 1) vs
  ok (row ∷ rows)

abbrev pub rows_of : String → Value → Result CompositionError (List Row)
rows_of id none_value = err (result_none id)
rows_of id (list vs) = objects id 0 (to_list vs)
rows_of id _ = err (result_not_list id)

abbrev pub truncated_of : String → Value → Result CompositionError Bool
truncated_of id (bool b) = ok b
truncated_of id _ = err (truncated_not_bool id)

abbrev pub reason_of : String → Value → Result CompositionError (Option EmptyReason)
reason_of id none_value = ok none
reason_of id (str s) =
    if s == "NO_DATA"
    then ok (some no_data)
    else if s == "INCONCLUSIVE"
    then ok (some inconclusive)
    else err (empty_reason_unsupported id (str s))
reason_of id v = err (empty_reason_unsupported id v)

-- if rows and empty_reason is not None
abbrev pub consistent :
    String → List Row → Option EmptyReason → Bool → Result CompositionError Source
consistent id (row ∷ rows) (some reason) truncated = err (empty_reason_with_rows id)
consistent id rows reason truncated =
    ok (record { rows = rows; empty_reason = reason; truncated = truncated })

abbrev pub unless_failed :
    String → Value → Result CompositionError Source → Result CompositionError Source
unless_failed id error rest = if is_none error then rest else err (source_failed id error)

abbrev pub checked_source : String → Option ToolResult → Result CompositionError Source
checked_source id none = err (result_missing id)
checked_source id (some source) = unless_failed id source.error do
  rows ← rows_of id source.result
  truncated ← truncated_of id source.truncated
  reason ← reason_of id source.empty_reason
  consistent id rows reason truncated

unfoldable pub source_rows : Subquery → ToolResults → Result CompositionError Source
source_rows subquery tool_results = checked_source subquery.id (tool_results subquery.tool)

-- The loop over the subqueries, which stops at the first failure.
unfoldable pub all_source_rows : List Subquery → ToolResults → Result CompositionError (List Source)
all_source_rows [] tool_results = ok []
all_source_rows (subquery ∷ subqueries) tool_results = do
  source ← source_rows subquery tool_results
  sources ← all_source_rows subqueries tool_results
  ok (source ∷ sources)

abbrev pub is_inconclusive : Option EmptyReason → Bool
is_inconclusive (some inconclusive) = true
is_inconclusive _ = false

-- `_overall_empty_reason`
unfoldable pub overall_empty_reason : List Source → Option EmptyReason
overall_empty_reason sources =
    if any (λ s. not (is_empty s.rows)) sources
    then none
    else if any (λ s. is_inconclusive s.empty_reason) sources
    then some inconclusive
    else some no_data
