-- ===== src/Guards/Cypher.antt =====
-- `make_cypher_guard` of backend/orchestrator/guards/cypher_guard.py.
use text2cypher_manufacturin.Common.{
  ℕ, String, Bool, true, false, Option, none, some, List, all, if◌then◌else◌,
}
use text2cypher_manufacturin.Python.Text.{elem_text}
use text2cypher_manufacturin.Retry.{GuardResult}
use text2cypher_manufacturin.Guards.Mask.{mask_query_text}
use text2cypher_manufacturin.Guards.Keywords.{has_write_keyword}
use text2cypher_manufacturin.Guards.Labels.{References, extract_label_and_type_references}

abbrev pub blocked_by : String → GuardResult
blocked_by reason = record { allowed = false; reason_code = some reason }

abbrev pub passed : GuardResult
passed = record { allowed = true; reason_code = none }

-- `allowed_names` are the labels and relationship types of the schema.
abbrev pub check_names : List (List ℕ) → References → GuardResult
check_names allowed_names refs =
    if refs.unresolved
    then blocked_by "UNRECOGNIZED_LABEL_SYNTAX"
    else if all (λ name. elem_text name allowed_names) refs.names
    then passed
    else blocked_by "UNKNOWN_LABEL_OR_RELATIONSHIP"

-- `none` is a scan that needs more rounds than its fuel.
abbrev pub check_references : List (List ℕ) → Option References → Option GuardResult
check_references allowed_names none = none
check_references allowed_names (some refs) = some (check_names allowed_names refs)

module _ (is_alnum : ℕ → Bool) (allowed_names : List (List ℕ)) where
  unfoldable pub cypher_guard : List ℕ → Option GuardResult
  cypher_guard cypher =
      if has_write_keyword is_alnum (mask_query_text cypher)
      then some (blocked_by "WRITE_KEYWORD_DETECTED")
      else check_references allowed_names (extract_label_and_type_references is_alnum cypher)
