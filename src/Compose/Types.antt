-- ===== src/Compose/Types.antt =====
-- The composed result, and the ways in which a composition fails.
use text2cypher_manufacturin.Common.{ℕ, String, Bool, Option, none, some, List, [], Dict}
use text2cypher_manufacturin.Python.{Value, Row}
use text2cypher_manufacturin.Failures.{Tool}
use text2cypher_manufacturin.Retry.{EmptyReason}

pub data CompositionMode : Type 0 where
  single joined separate : CompositionMode

-- The texts under "error", with what is put into them. A label is the id and the tool of a
-- subquery.
pub data CompositionError : Type 0 where
  no_subqueries too_many_subqueries join_keys_differ negative_row_limit : CompositionError
  result_missing result_none result_not_list truncated_not_bool : (id : String) → CompositionError
  source_failed : (id : String) (error : Value) → CompositionError
  row_not_object : (id : String) (row_index : ℕ) → CompositionError
  empty_reason_unsupported : (id : String) (reason : Value) → CompositionError
  empty_reason_with_rows : (id : String) → CompositionError
  sources_truncated bom_sources_truncated catalog_missing : CompositionError
  key_missing key_none : (id : String) (row_index : ℕ) (alias : String) → CompositionError
  key_unhashable : (id : String) (row_index : ℕ) → CompositionError
  key_out_of_range : (id : String) (key : List Value) → CompositionError
  field_conflict : (field : String) (left right : Value) → CompositionError
  transform_invalid : (reason : String) → CompositionError
  bom_failed : (reason : String) → CompositionError

pub record ComposedSection : Type 0 where
  pub tool : Tool
  pub rows : List Row
  pub empty_reason : Option EmptyReason

pub record ComposedResult : Type 0 where
  pub mode : CompositionMode
  pub transform : Option String
  pub rows : List Row
  pub sections : Dict ComposedSection
  pub error : Option CompositionError
  pub empty_reason : Option EmptyReason
  pub total_count : ℕ
  pub truncated : Bool

-- `_failure`
abbrev pub failure : CompositionMode → CompositionError → Option String → Bool → ComposedResult
failure mode message transform truncated = record {
  mode = mode;
  transform = transform;
  rows = [];
  sections = [];
  error = some message;
  empty_reason = none;
  total_count = 0;
  truncated = truncated;
}

-- A result without an error.
abbrev pub composed :
    CompositionMode → Option String → List Row → Option EmptyReason → ℕ → Bool → ComposedResult
composed mode transform rows empty_reason total_count truncated = record {
  mode = mode;
  transform = transform;
  rows = rows;
  sections = [];
  error = none;
  empty_reason = empty_reason;
  total_count = total_count;
  truncated = truncated;
}
