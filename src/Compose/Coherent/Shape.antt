-- ===== src/Compose/Coherent/Shape.antt =====
-- What a composed result can be.
use text2cypher_manufacturin.Common.{
  ◌≤◌, ◌≡◌, ◌⊎◌, inl, refl, String, Bool, true, Option, none, some, [], length,
}
use text2cypher_manufacturin.Compose.Types.{
  CompositionMode, separate, CompositionError, ComposedResult, failure,
}

-- A failure carries no rows and no reason for their lack.
abbrev pub IsFailed : ComposedResult → Type 0
IsFailed r =
    (e : CompositionError) × (r.error ≡ some e)
    × (r.rows ≡ [])
    × (r.sections ≡ [])
    × (r.empty_reason ≡ none)
    × (r.total_count ≡ 0)

-- A result counts at least its rows, and exactly those unless it is truncated or has sections; a
-- reason for the lack of rows stands only where none are counted.
abbrev pub IsDone : ComposedResult → Type 0
IsDone r =
    (r.error ≡ none)
    × (length r.rows ≤ r.total_count)
    × ((r.truncated ≡ true) ⊎ ((length r.rows ≡ r.total_count) ⊎ (r.mode ≡ separate)))
    × ((r.empty_reason ≡ none) ⊎ (r.total_count ≡ 0))

abbrev pub IsCoherent : ComposedResult → Type 0
IsCoherent r = IsFailed r ⊎ IsDone r

pub failed :
    (mode : CompositionMode) (e : CompositionError) (transform : Option String) (truncated : Bool)
    → IsCoherent (failure mode e transform truncated)
failed mode e transform truncated = inl (e, refl, refl, refl, refl, refl)
