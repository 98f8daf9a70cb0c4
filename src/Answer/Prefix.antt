-- ===== src/Answer/Prefix.antt =====
-- `_configured_limit` and `truncate_result_for_answer`.
use text2cypher_manufacturin.Common.{
  ℕ, ◌+◌, String, Bool, true, false, Option, none, some, List, [], ◌∷◌, take, length, ltb, Result,
  ok, err, ◌>>=◌, if◌then◌else◌,
}
use text2cypher_manufacturin.Python.{ℤ, pos, negsuc, Row}

-- The number of characters of `json.dumps`.
abbrev pub JsonSize : Type 0
JsonSize = Row → ℕ

abbrev pub not_negative : String → ℤ → Result String ℕ
not_negative name (pos n) = ok n
not_negative name (negsuc n) = err name

-- `configured` is the environment's value or the default, as an integer. The error names the
-- limit.
unfoldable pub configured_limit : String → ℤ → Option ℤ → Result String ℕ
configured_limit name configured none = not_negative name configured
configured_limit name configured (some explicit) = not_negative name explicit

-- The loop over rows[:row_limit]; `first` says that no row has been taken.
unfoldable pub fitting : JsonSize → ℕ → ℕ → Bool → List Row → List Row
fitting json_size char_limit char_count first [] = []
fitting json_size char_limit char_count first (row ∷ rows) =
    let rest = fitting json_size char_limit (char_count + json_size row) false rows in
    if ltb char_limit (char_count + json_size row)
    then (if first then row ∷ [] else [])
    else row ∷ rest

pub record TruncatedResult : Type 0 where
  pub rows : List Row
  pub total_count : ℕ
  pub truncated : Bool

abbrev pub cut : JsonSize → List Row → ℕ → ℕ → TruncatedResult
cut json_size rows row_limit char_limit =
    let kept = fitting json_size char_limit 0 true (take row_limit rows) in
    record { rows = kept; total_count = length rows; truncated = ltb (length kept) (length rows) }

-- ANSWER_MAX_ROWS and ANSWER_MAX_CHARS
pub record Settings : Type 0 where
  pub max_rows : ℤ
  pub max_chars : ℤ

unfoldable pub truncate_result_for_answer :
    JsonSize → Settings → List Row → Option ℤ → Option ℤ → Result String TruncatedResult
truncate_result_for_answer json_size settings rows max_rows max_chars = do
  row_limit ← configured_limit "ANSWER_MAX_ROWS" settings.max_rows max_rows
  char_limit ← configured_limit "ANSWER_MAX_CHARS" settings.max_chars max_chars
  ok (cut json_size rows row_limit char_limit)
