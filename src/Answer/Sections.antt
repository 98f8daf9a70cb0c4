-- ===== src/Answer/Sections.antt =====
-- `_truncate_sections`. A section's entries in `included`, `positions` and `blocked` are the fields
-- of its cursor; the cursors stand in the order of the sections.
use text2cypher_manufacturin.Common.{
  ℕ, zero, suc, ◌+◌, String, Bool, true, false, not, ◌||◌, Option, none, some, List, [], ◌∷◌, ◌++◌,
  length, ltb, eqb, if◌then◌else◌,
}
use text2cypher_manufacturin.Python.{Row}
use text2cypher_manufacturin.Answer.Prefix.{JsonSize}

pub record Cursor : Type 0 where
  pub id : String
  pub rows : List Row
  pub included : List Row
  pub position : ℕ
  pub blocked : Bool

-- The variables that the sections share.
pub record Budget : Type 0 where
  pub included_count : ℕ
  pub char_count : ℕ
  pub progressed : Bool

-- rows[position], where there is one
abbrev pub row_at : List Row → ℕ → Option Row
row_at [] position = none
row_at (row ∷ rows) zero = some row
row_at (row ∷ rows) (suc position) = row_at rows position

abbrev pub block : Cursor → Cursor
block cursor = record cursor { blocked = true }

abbrev pub include_row : Row → Cursor → Cursor
include_row row cursor = record cursor {
  included = cursor.included ++ row ∷ [];
  position = cursor.position + 1;
}

module _ (json_size : JsonSize) (max_rows max_chars : ℕ) where
  -- The row that does not fit: taken all the same when it is the first of all.
  abbrev pub too_long : Row → Budget → Cursor → Budget × Cursor
  too_long row budget cursor =
      if eqb budget.included_count 0
      then (
        record budget { included_count = budget.included_count + 1 },
        block (include_row row cursor),
      )
      else (budget, block cursor)

  abbrev pub fits : Row → Budget → Cursor → Budget × Cursor
  fits row budget cursor = (
    record {
      included_count = budget.included_count + 1;
      char_count = budget.char_count + json_size row;
      progressed = true;
    },
    include_row row cursor,
  )

  abbrev pub offer : Budget → Cursor → Option Row → Budget × Cursor
  offer budget cursor none = (budget, block cursor)
  offer budget cursor (some row) =
      if ltb max_chars (budget.char_count + json_size row)
      then too_long row budget cursor
      else fits row budget cursor

  -- The body of the inner loop.
  abbrev pub visit : Budget → Cursor → Budget × Cursor
  visit budget cursor =
      if not (ltb budget.included_count max_rows) || cursor.blocked
      then (budget, cursor)
      else offer budget cursor (row_at cursor.rows cursor.position)

  -- for section_id, section in sections.items()
  unfoldable pub round : Budget → List Cursor → Budget × List Cursor
  round budget [] = (budget, [])
  round budget (cursor ∷ cursors) =
      let (budget', cursor') = visit budget cursor in
      let (budget'', cursors') = round budget' cursors in (budget'', cursor' ∷ cursors')

  -- The while loop; `none` is a loop that needs more rounds than the fuel.
  unfoldable pub rounds : ℕ → Budget → List Cursor → Option (Budget × List Cursor)
  rounds zero budget cursors = none
  rounds (suc fuel) budget cursors =
      let (budget', cursors') = round (record budget { progressed = false }) cursors in
      let rest = rounds fuel budget' cursors' in
      if not (ltb budget.included_count max_rows)
      then some (budget, cursors)
      else if budget'.progressed
      then rest
      else some (budget', cursors')

abbrev pub start : String × List Row → Cursor
start (id, rows) = record { id = id; rows = rows; included = []; position = 0; blocked = false }

abbrev pub starts : List (String × List Row) → List Cursor
starts [] = []
starts (section ∷ sections) = start section ∷ starts sections

abbrev pub source_count : List (String × List Row) → ℕ
source_count [] = 0
source_count ((id, rows) ∷ sections) = length rows + source_count sections

-- (included, included_count, included_count < source_count)
pub record Shares : Type 0 where
  pub cursors : List Cursor
  pub included_count : ℕ
  pub truncated : Bool

abbrev pub shares : List (String × List Row) → Option (Budget × List Cursor) → Option Shares
shares sections none = none
shares sections (some (budget, cursors)) = some (record {
  cursors = cursors;
  included_count = budget.included_count;
  truncated = ltb budget.included_count (source_count sections);
})

unfoldable pub truncate_sections : JsonSize → ℕ → ℕ → ℕ → List (String × List Row) → Option Shares
truncate_sections json_size max_rows max_chars fuel sections = shares sections (
    rounds json_size max_rows max_chars fuel
      (record { included_count = 0; char_count = 0; progressed = false }) (starts sections))
