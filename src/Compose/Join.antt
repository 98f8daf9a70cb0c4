-- ===== src/Compose/Join.antt =====
-- `_row_key`, `_merge_rows` and `_compose_joined`.
use text2cypher_manufacturin.Common.{
  ℕ, ◌+◌, String, Bool, true, false, not, ◌&&◌, ◌||◌, Option, none, some, List, [], ◌∷◌, ◌++◌, elem,
  any, lookup, length, ltb, eqb, is_empty, Result, ok, err, ◌>>=◌, if◌then◌else◌,
}
use text2cypher_manufacturin.Python.{Value, none_value, list, dict, Row, val_eq}
use text2cypher_manufacturin.Plan.{Subquery}
use text2cypher_manufacturin.Retry.{EmptyReason, no_data, inconclusive}
use text2cypher_manufacturin.Compose.Types.{
  CompositionError, key_missing, key_none, key_unhashable, key_out_of_range, field_conflict,
  sources_truncated, ComposedResult, failure, composed, joined,
}
use text2cypher_manufacturin.Compose.Sources.{Source, is_inconclusive}

abbrev pub Key : Type 0
Key = List Value

-- Tuples are equal item by item.
unfoldable pub key_eq : Key → Key → Bool
key_eq [] [] = true
key_eq (v ∷ vs) (w ∷ ws) = val_eq v w && key_eq vs ws
key_eq _ _ = false

abbrev pub is_hashable : Value → Bool
is_hashable (list _) = false
is_hashable (dict _) = false
is_hashable _ = true

abbrev pub key_value : String → ℕ → String → Option Value → Result CompositionError Value
key_value id row_index alias none = err (key_missing id row_index alias)
key_value id row_index alias (some none_value) = err (key_none id row_index alias)
key_value id row_index alias (some v) = ok v

unfoldable pub key_values : String → ℕ → Row → List String → Result CompositionError Key
key_values id row_index row [] = ok []
key_values id row_index row (alias ∷ aliases) = do
  v ← key_value id row_index alias (lookup alias row)
  vs ← key_values id row_index row aliases
  ok (v ∷ vs)

abbrev pub hashed : String → ℕ → Key → Result CompositionError Key
hashed id row_index key =
    if any (λ v. not (is_hashable v)) key then err (key_unhashable id row_index) else ok key

unfoldable pub row_key : String → ℕ → List String → Row → Result CompositionError Key
row_key id row_index join_keys row = key_values id row_index row join_keys >>= hashed id row_index

abbrev pub Keyed : Type 0
Keyed = List (Key × Row)

-- The loop over the left rows.
unfoldable pub left_keyed : String → List String → ℕ → List Row → Result CompositionError Keyed
left_keyed id join_keys index [] = ok []
left_keyed id join_keys index (row ∷ rows) = do
  key ← row_key id index join_keys row
  rest ← left_keyed id join_keys (index + 1) rows
  ok ((key, row) ∷ rest)

-- key in left_domain
abbrev pub in_domain : Key → Keyed → Bool
in_domain key left = any (λ entry. key_eq entry.0 key) left

-- The rows of the right source by their key.
abbrev pub Groups : Type 0
Groups = List (Key × List Row)

-- right_by_key.setdefault(key, []).append(row)
unfoldable pub add_row : Key → Row → Groups → Groups
add_row key row [] = (key, row ∷ []) ∷ []
add_row key row ((k, rows) ∷ groups) =
    if key_eq k key then (k, rows ++ row ∷ []) ∷ groups else (k, rows) ∷ add_row key row groups

-- right_by_key.get(key, [])
unfoldable pub group_of : Key → Groups → List Row
group_of key [] = []
group_of key ((k, rows) ∷ groups) = if key_eq k key then rows else group_of key groups

abbrev pub in_left : String → Keyed → Key → Result CompositionError Key
in_left id left key = if in_domain key left then ok key else err (key_out_of_range id key)

-- The loop over the right rows.
unfoldable pub right_groups :
    String → List String → Keyed → ℕ → List Row → Groups → Result CompositionError Groups
right_groups id join_keys left index [] groups = ok groups
right_groups id join_keys left index (row ∷ rows) groups = do
  key ← row_key id index join_keys row
  key' ← in_left id left key
  right_groups id join_keys left (index + 1) rows (add_row key' row groups)

abbrev pub merge_field : String → Value → Row → Option Value → Result CompositionError Row
merge_field field value merged none = ok (merged ++ (field, value) ∷ [])
merge_field field value merged (some old) =
    if val_eq old value then ok merged else err (field_conflict field old value)

-- `_merge_rows`: the loop over the fields of the right row.
unfoldable pub merge_rows : List String → Row → Row → Result CompositionError Row
merge_rows join_keys merged [] = ok merged
merge_rows join_keys merged ((field, value) ∷ fields) = do
  merged' ←
      (if elem field join_keys
        then ok merged
        else merge_field field value merged (lookup field merged))
  merge_rows join_keys merged' fields

-- `rows` and `total_count`
pub record Joined : Type 0 where
  pub rows : List Row
  pub total_count : ℕ

abbrev pub add_merged : ℕ → Joined → Row → Joined
add_merged row_limit acc merged = record {
  rows = if ltb (length acc.rows) row_limit then acc.rows ++ merged ∷ [] else acc.rows;
  total_count = acc.total_count + 1;
}

-- for right_row in right_by_key.get(key, [])
unfoldable pub join_row : List String → ℕ → Row → List Row → Joined → Result CompositionError Joined
join_row join_keys row_limit left [] acc = ok acc
join_row join_keys row_limit left (right ∷ rights) acc = do
  merged ← merge_rows join_keys left right
  join_row join_keys row_limit left rights (add_merged row_limit acc merged)

-- for key, left_row in left_keyed
unfoldable pub join_rows :
    List String → ℕ → Keyed → Groups → Joined → Result CompositionError Joined
join_rows join_keys row_limit [] groups acc = ok acc
join_rows join_keys row_limit ((key, left) ∷ lefts) groups acc = do
  acc' ← join_row join_keys row_limit left (group_of key groups) acc
  join_rows join_keys row_limit lefts groups acc'

abbrev pub either_inconclusive : Source → Source → EmptyReason
either_inconclusive left right =
    if is_inconclusive left.empty_reason || is_inconclusive right.empty_reason
    then inconclusive
    else no_data

abbrev pub joined_result : Joined → ComposedResult
joined_result acc =
    composed joined none acc.rows (if eqb acc.total_count 0 then some no_data else none)
      acc.total_count (ltb (length acc.rows) acc.total_count)

abbrev pub or_failure : Result CompositionError ComposedResult → ComposedResult
or_failure (ok r) = r
or_failure (err e) = failure joined e none false

-- What is composed once both sources have their keys.
abbrev pub join_sources :
    Source → Source → List String → ℕ → Keyed → Groups → Result CompositionError ComposedResult
join_sources left right join_keys row_limit keyed groups =
    if is_empty left.rows || is_empty right.rows
    then ok (composed joined none [] (some (either_inconclusive left right)) 0 false)
    else (join_rows join_keys row_limit keyed groups (record { rows = []; total_count = 0 })
        >>= λ acc. ok (joined_result acc))

unfoldable pub compose_joined : Subquery → Subquery → Source → Source → ℕ → ComposedResult
compose_joined first second left right row_limit =
    if left.truncated || right.truncated
    then failure joined sources_truncated none true
    else or_failure do
      keyed ← left_keyed first.id first.join_keys 0 left.rows
      groups ← right_groups second.id first.join_keys keyed 0 right.rows []
      join_sources left right first.join_keys row_limit keyed groups
