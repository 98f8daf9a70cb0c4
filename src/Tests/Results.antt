-- ===== src/Tests/Results.antt =====
-- What becomes of the rows.
use text2cypher_manufacturin.Common.{
  ℕ, suc, ◌+◌, ◌≤◌, ◌≡◌, refl, String, true, false, ◌⊎◌, none, some, List, [], ◌∷◌, ok, elem,
  lookup, ltb,
}
use text2cypher_manufacturin.Python.{
  pos, Value, none_value, bool, list, cons, nil, str, int, Row, val_eq,
}
use text2cypher_manufacturin.Compose.{
  Source, left_keyed, right_groups, merge_rows, compose_joined, join_row, join_rows, row_key,
  key_values, key_eq, add_row, group_of, compose_results, ToolResults,
}
use text2cypher_manufacturin.Compose.Merging.{Holds, merge_rows-preserves}
use text2cypher_manufacturin.Compose.Coherent.{IsCoherent, compose_results-IsCoherent}
use text2cypher_manufacturin.Compose.Matching.{IsJoin, compose_joined-IsJoin}
use text2cypher_manufacturin.Compose.Pairs.{matching}
use text2cypher_manufacturin.Answer.{
  JsonSize, Settings, TruncatedResult, Shares, configured_limit, fitting,
  truncate_result_for_answer, truncate_sections, source_count,
}
use text2cypher_manufacturin.Answer.Kept.{IsCut, truncate_result_for_answer-IsCut}
use text2cypher_manufacturin.Answer.Shared.{AreShares, included_rows, truncate_sections-AreShares}
use text2cypher_manufacturin.Tests.Samples.{row_of, graph_subquery, sql_subquery}

abbrev part : String → Row
part id = ("componentId", str id) ∷ ("name", str "bolt") ∷ []

abbrev stock : String → ℕ → Row
stock id n = ("componentId", str id) ∷ ("qty", int (pos n)) ∷ []

abbrev parts : Source
parts = record { rows = part "C1" ∷ part "C2" ∷ []; empty_reason = none; truncated = false }

abbrev stocks : Source
stocks = record {
  rows = stock "C2" 4 ∷ stock "C1" 7 ∷ stock "C2" 9 ∷ [];
  empty_reason = none;
  truncated = false;
}

compose_joined-IsJoin_example :
    (parts.truncated ≡ false)
    × (stocks.truncated ≡ false)
    × IsJoin
        ("componentId" ∷ [])
        2
        (matching ("componentId" ∷ []) parts.rows stocks.rows)
        (compose_joined graph_subquery sql_subquery parts stocks 2)
unfolding compose_joined left_keyed right_groups row_key key_values key_eq add_row group_of val_eq
    merge_rows join_row join_rows
compose_joined-IsJoin_example =
    compose_joined-IsJoin graph_subquery sql_subquery parts stocks 2 refl

abbrev both : Row
both = ("componentId", str "C1") ∷ ("name", str "bolt") ∷ ("qty", int (pos 7)) ∷ []

merge_rows-preserves_example :
    ((lookup "qty" (part "C1") ≡ none) ⊎ (lookup "qty" both ≡ lookup "qty" (part "C1")))
    × ((elem "qty" ("componentId" ∷ []) ≡ true)
        ⊎ ((lookup "qty" (stock "C1" 7) ≡ none)
            ⊎ ((v : Value) × (lookup "qty" (stock "C1" 7) ≡ some v) × Holds both "qty" v)))
unfolding merge_rows
merge_rows-preserves_example =
    merge_rows-preserves ("componentId" ∷ []) (part "C1") (stock "C1" 7) both "qty" refl

-- Every row counts ten characters.
abbrev ten : JsonSize
ten row = 10

abbrev settings : Settings
settings = record { max_rows = pos 200; max_chars = pos 8000 }

abbrev cut_stocks : TruncatedResult
cut_stocks = record { rows = stock "C2" 4 ∷ stock "C1" 7 ∷ []; total_count = 3; truncated = true }

truncate_result_for_answer-IsCut_example :
    (row_limit : ℕ) × (char_limit : ℕ) × (configured_limit "ANSWER_MAX_ROWS" settings.max_rows none
      ≡ ok row_limit)
    × (configured_limit "ANSWER_MAX_CHARS" settings.max_chars (some (pos 25)) ≡ ok char_limit)
    × IsCut ten row_limit char_limit stocks.rows cut_stocks
unfolding truncate_result_for_answer configured_limit fitting
truncate_result_for_answer-IsCut_example =
    truncate_result_for_answer-IsCut ten settings stocks.rows none (some (pos 25)) cut_stocks refl

abbrev sections : List (String × List Row)
sections = ("q1", parts.rows) ∷ ("q2", stocks.rows) ∷ []

truncate_sections-AreShares_example :
    (r : Shares) × (truncate_sections ten 3 25 (3 + suc 0) sections ≡ some r)
    × AreShares sections r.cursors
    × (r.included_count ≡ included_rows r.cursors)
    × (r.included_count ≤ 3)
    × (r.truncated ≡ ltb r.included_count (source_count sections))
truncate_sections-AreShares_example = truncate_sections-AreShares ten 3 25 0 sections

-- Two sources of which one was cut.
abbrev cut_results : ToolResults
cut_results tool = some (record {
  result = list (cons (row_of "C1" 4) nil);
  error = none_value;
  truncated = bool true;
  empty_reason = none_value;
})

compose_results-IsCoherent_example : IsCoherent (
    compose_results
      (λ g s t spec. ok [])
      (some 10)
      none
      (graph_subquery ∷ sql_subquery ∷ [])
      cut_results
      none_value)
compose_results-IsCoherent_example =
    compose_results-IsCoherent (λ g s t spec. ok []) (some 10) none
      (graph_subquery ∷ sql_subquery ∷ []) cut_results none_value
