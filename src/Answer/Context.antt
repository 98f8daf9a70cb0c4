-- ===== src/Answer/Context.antt =====
-- `build_answer_context`.
use text2cypher_manufacturin.Common.{
  ℕ, suc, ◌+◌, String, Bool, true, false, not, ◌||◌, Option, none, some, List, [], ◌∷◌, length,
  Dict, Result, ok, ◌>>=◌,
}
use text2cypher_manufacturin.Python.{ℤ, Row}
use text2cypher_manufacturin.Failures.{Tool}
use text2cypher_manufacturin.Retry.{EmptyReason}
use text2cypher_manufacturin.Compose.{
  CompositionMode, joined, separate, ComposedSection, ComposedResult,
}
use text2cypher_manufacturin.Answer.Prefix.{
  JsonSize, Settings, configured_limit, TruncatedResult, cut,
}
use text2cypher_manufacturin.Answer.Sections.{Cursor, Shares, truncate_sections}

pub record AnswerSectionContext : Type 0 where
  pub tool : Tool
  pub rows : List Row
  pub empty_reason : Option EmptyReason
  pub included_count : ℕ
  pub known_count : ℕ
  pub count_is_exact : Bool

pub record AnswerContext : Type 0 where
  pub mode : CompositionMode
  pub transform : Option String
  pub rows : List Row
  pub sections : Dict AnswerSectionContext
  pub empty_reason : Option EmptyReason
  pub included_count : ℕ
  pub total_count : ℕ
  pub total_count_is_exact : Bool
  pub source_truncated : Bool
  pub prompt_truncated : Bool

abbrev pub is_joined : CompositionMode → Bool
is_joined joined = true
is_joined _ = false

abbrev pub source_sections : Dict ComposedSection → List (String × List Row)
source_sections [] = []
source_sections ((id, section) ∷ sections) = (id, section.rows) ∷ source_sections sections

abbrev pub section_context : Bool → ComposedSection → Cursor → AnswerSectionContext
section_context source_truncated section cursor = record {
  tool = section.tool;
  rows = cursor.included;
  empty_reason = section.empty_reason;
  included_count = length cursor.included;
  known_count = length section.rows;
  count_is_exact = not source_truncated;
}

-- The sections with what is included of them; the cursors stand in the order of the sections.
abbrev pub section_contexts : Bool → Dict ComposedSection → List Cursor → Dict AnswerSectionContext
section_contexts source_truncated ((id, section) ∷ sections) (cursor ∷ cursors) =
    (id, section_context source_truncated section cursor)
    ∷ section_contexts source_truncated sections cursors
section_contexts source_truncated _ _ = []

abbrev pub context :
    ComposedResult → List Row → Dict AnswerSectionContext → ℕ → Bool → AnswerContext
context composed_result rows sections included_count prompt_truncated = record {
  mode = composed_result.mode;
  transform = composed_result.transform;
  rows = rows;
  sections = sections;
  empty_reason = composed_result.empty_reason;
  included_count = included_count;
  total_count = composed_result.total_count;
  total_count_is_exact = is_joined composed_result.mode || not composed_result.truncated;
  source_truncated = composed_result.truncated;
  prompt_truncated = prompt_truncated;
}

abbrev pub shared_context : ComposedResult → Option Shares → Option AnswerContext
shared_context composed_result none = none
shared_context composed_result (some shares) = some (
    context composed_result []
      (section_contexts composed_result.truncated composed_result.sections shares.cursors)
      shares.included_count shares.truncated)

abbrev pub cut_context : ComposedResult → TruncatedResult → AnswerContext
cut_context composed_result limited =
    context composed_result limited.rows [] (length limited.rows) limited.truncated

abbrev pub by_mode : JsonSize → ComposedResult → ℕ → ℕ → ℕ → CompositionMode → Option AnswerContext
by_mode json_size composed_result fuel row_limit char_limit separate =
    shared_context composed_result (
      truncate_sections json_size row_limit char_limit fuel
        (source_sections composed_result.sections))
by_mode json_size composed_result fuel row_limit char_limit _ =
    some (cut_context composed_result (cut json_size composed_result.rows row_limit char_limit))

-- `none` is a loop over the sections that needs more rounds than the fuel, which is a number more
-- than the row limit.
unfoldable pub build_answer_context :
    JsonSize
    → Settings
    → ComposedResult
    → Option ℤ
    → Option ℤ
    → ℕ
    → Result String (Option AnswerContext)
build_answer_context json_size settings composed_result max_rows max_chars spare = do
  row_limit ← configured_limit "ANSWER_MAX_ROWS" settings.max_rows max_rows
  char_limit ← configured_limit "ANSWER_MAX_CHARS" settings.max_chars max_chars
  ok (
      by_mode json_size composed_result (row_limit + suc spare) row_limit char_limit
        composed_result.mode)
