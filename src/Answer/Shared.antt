-- ===== src/Answer/Shared.antt =====
-- The sections' shares of the budget.
use text2cypher_manufacturin.Common.{
  ℕ, zero, suc, ◌+◌, ◌≤◌, ◌<◌, ◌≡◌, refl, ap, sym, ◌∙◌, String, Bool, true, false, not, ◌||◌, ◌⊎◌,
  inl, inr, Option, none, some, List, [], ◌∷◌, ◌++◌, arith, take, length, length-append, ltb, eqb,
  if◌then◌else◌, if_ind,
}
use text2cypher_manufacturin.Python.{Row}
use text2cypher_manufacturin.Answer.Prefix.{JsonSize}
use text2cypher_manufacturin.Answer.Sections.{
  Cursor, Budget, row_at, include_row, too_long, offer, visit, round, rounds, starts, source_count,
  Shares, shares, truncate_sections,
}

take-zero : (xs : List Row) → take 0 xs ≡ []
take-zero xs = refl

-- A cursor has taken the rows before its position.
abbrev pub IsPrefix : Cursor → Type 0
IsPrefix cursor =
    (cursor.included ≡ take cursor.position cursor.rows)
    × (length cursor.included ≡ cursor.position)

take-suc :
    (n : ℕ) (xs : List Row) (row : Row)
    → row_at xs n ≡ some row
    → take (suc n) xs ≡ take n xs ++ row ∷ []
take-suc n [] row h = cc
take-suc zero (x ∷ xs) row h = cc
take-suc (suc n) (x ∷ xs) row h = ap (λ l. x ∷ l) (take-suc n xs row h)

include_row-IsPrefix :
    (cursor : Cursor) (row : Row)
    → row_at cursor.rows cursor.position ≡ some row
    → IsPrefix cursor
    → IsPrefix (include_row row cursor)
include_row-IsPrefix cursor row at (prefix, count) =
    let next : suc cursor.position ≡ cursor.position + 1 = omega arith in
    (
      ap (λ xs. xs ++ row ∷ []) prefix
          ∙ (sym (take-suc cursor.position cursor.rows row at) ∙ ap (λ n. take n cursor.rows) next),
      omega (arith, length-append cursor.included (row ∷ [])),
    )

-- What a step does to the budget and to the number of rows taken, `n` before and `n'` after.
abbrev Spends : ℕ → Budget → ℕ → Budget → ℕ → Type 0
Spends max_rows budget n budget' n' =
    (n + budget'.included_count ≡ n' + budget.included_count)
    × (budget.included_count ≤ budget'.included_count)
    × ((budget'.included_count ≡ budget.included_count) ⊎ (budget'.included_count ≤ max_rows))
    × ((budget'.progressed ≡ budget.progressed) ⊎ (budget.included_count < budget'.included_count))

-- The same section, with its prefix kept.
abbrev Continues : Cursor → Cursor → Type 0
Continues cursor cursor' =
    (cursor'.id ≡ cursor.id) × (cursor'.rows ≡ cursor.rows) × (IsPrefix cursor → IsPrefix cursor')

abbrev Visited : ℕ → Budget → Cursor → Budget × Cursor → Type 0
Visited max_rows budget cursor (budget', cursor') =
    Spends max_rows budget (length cursor.included) budget' (length cursor'.included)
    × Continues cursor cursor'

module _ (json_size : JsonSize) (max_rows max_chars : ℕ) where
  include_row-Visited :
      (budget : Budget) (cursor : Cursor) (row : Row) (chars : ℕ) (progressed blocked : Bool)
      → budget.included_count < max_rows
      → row_at cursor.rows cursor.position ≡ some row
      → Visited max_rows budget cursor (
        record {
          included_count = budget.included_count + 1;
          char_count = chars;
          progressed = progressed;
        },
        record (include_row row cursor) { blocked = blocked },
      )
  include_row-Visited budget cursor row chars progressed blocked room at = (
    (
      omega (arith, length-append cursor.included (row ∷ [])),
      omega arith,
      inr (omega arith),
      inr (omega arith),
    ),
    (refl, refl, include_row-IsPrefix cursor row at),
  )

  skip-Visited :
      (budget : Budget) (cursor : Cursor) (blocked : Bool)
      → Visited max_rows budget cursor (budget, record cursor { blocked = blocked })
  skip-Visited budget cursor blocked =
      ((refl, omega arith, inl refl, inl refl), (refl, refl, λ h. h))

  too_long-Visited :
      (budget : Budget) (cursor : Cursor) (row : Row)
      → budget.included_count < max_rows
      → row_at cursor.rows cursor.position ≡ some row
      → Visited max_rows budget cursor (too_long json_size max_rows max_chars row budget cursor)
  too_long-Visited budget cursor row room at =
      if_ind (Visited max_rows budget cursor) (eqb budget.included_count 0)
        (λ _.
          include_row-Visited budget cursor row budget.char_count budget.progressed true room at)
        (λ _. skip-Visited budget cursor true)

  offer-Visited :
      (budget : Budget) (cursor : Cursor) (o : Option Row)
      → budget.included_count < max_rows
      → row_at cursor.rows cursor.position ≡ o
      → Visited max_rows budget cursor (offer json_size max_rows max_chars budget cursor o)
  offer-Visited budget cursor none room at = skip-Visited budget cursor true
  offer-Visited budget cursor (some row) room at =
      if_ind (Visited max_rows budget cursor) (ltb max_chars (budget.char_count + json_size row))
        (λ _. too_long-Visited budget cursor row room at)
        (λ _.
          include_row-Visited budget cursor row (budget.char_count + json_size row) true
            cursor.blocked room at)

  visit-Visited :
      (budget : Budget) (cursor : Cursor)
      → Visited max_rows budget cursor (visit json_size max_rows max_chars budget cursor)
  visit-Visited budget cursor = by_room (ltb budget.included_count max_rows) cursor.blocked refl
    where
      by_room :
          (b blocked : Bool)
          → ltb budget.included_count max_rows ≡ b
          → Visited max_rows budget cursor (
              if not b || blocked
              then (budget, cursor)
              else offer json_size max_rows max_chars budget cursor
                  (row_at cursor.rows cursor.position))
      by_room false _ e = skip-Visited budget cursor cursor.blocked
      by_room true true e = skip-Visited budget cursor cursor.blocked
      by_room true false e = offer-Visited budget cursor _ (ground arith) refl

-- The number of rows included.
abbrev pub included_rows : List Cursor → ℕ
included_rows [] = 0
included_rows (cursor ∷ cursors) = length cursor.included + included_rows cursors

-- The cursors of the same sections, with their prefixes kept.
data AllContinue : List Cursor → List Cursor → Type 0 where
  done : AllContinue [] []
  more :
      {cursor cursor' : Cursor} {cursors cursors' : List Cursor}
      → Continues cursor cursor'
      → AllContinue cursors cursors'
      → AllContinue (cursor ∷ cursors) (cursor' ∷ cursors')

AllContinue-refl : (cursors : List Cursor) → AllContinue cursors cursors
AllContinue-refl [] = done
AllContinue-refl (cursor ∷ cursors) = more (refl, refl, λ h. h) (AllContinue-refl cursors)

AllContinue-trans :
    {xs ys zs : List Cursor} → AllContinue xs ys → AllContinue ys zs → AllContinue xs zs
AllContinue-trans done k = k
AllContinue-trans (more (i, r, f) h) (more (j, s, g) k) =
    more (j ∙ i, s ∙ r, λ p. g (f p)) (AllContinue-trans h k)

abbrev Rounded : ℕ → Budget → List Cursor → Budget × List Cursor → Type 0
Rounded max_rows budget cursors (budget', cursors') =
    Spends max_rows budget (included_rows cursors) budget' (included_rows cursors')
    × AllContinue cursors cursors'

Spends-add :
    (max_rows : ℕ) (a b c : Budget) (m m' n n' : ℕ)
    → Spends max_rows a m b m'
    → Spends max_rows b n c n'
    → Spends max_rows a (m + n) c (m' + n')
Spends-add max_rows a b c m m' n n' (e, grows, within, up) (f, grows', within', up') = (
  omega arith,
  omega arith,
  elim within' [
    | inr w ↦ inr w
    | inl same ↦ elim within [ inl s ↦ inl (same ∙ s) | inr w ↦ inr (omega arith) ]
  ],
  elim up' [
    | inr u ↦ inr (omega arith)
    | inl same ↦ elim up [ inl s ↦ inl (same ∙ s) | inr u ↦ inr (omega arith) ]
  ],
)

module _ (json_size : JsonSize) (max_rows max_chars : ℕ) where
  round-Rounded :
      (budget : Budget) (cursors : List Cursor)
      → Rounded max_rows budget cursors (round json_size max_rows max_chars budget cursors)
  unfolding round
  round-Rounded budget [] = ((refl, omega arith, inl refl, inl refl), done)
  round-Rounded budget (cursor ∷ cursors) =
      let (budget', cursor') = visit json_size max_rows max_chars budget cursor in
      let (spent, continues) = visit-Visited json_size max_rows max_chars budget cursor in
      let (spent', all) = round-Rounded budget' cursors in
      let budget'' = (round json_size max_rows max_chars budget' cursors).0 in
      (Spends-add max_rows budget budget' budget'' _ _ _ _ spent spent', more continues all)

  -- The loop ends, within the limit, and the rows included are counted.
  abbrev Ends : Budget → List Cursor → Option (Budget × List Cursor) → Type 0
  Ends budget cursors o =
      (budget' : Budget) × (cursors' : List Cursor) × (o ≡ some (budget', cursors'))
      × (budget'.included_count ≤ max_rows)
      × (included_rows cursors + budget'.included_count
          ≡ included_rows cursors' + budget.included_count)
      × AllContinue cursors cursors'

  rounds-Ends :
      (fuel : ℕ) (budget : Budget) (cursors : List Cursor)
      → budget.included_count ≤ max_rows
      → max_rows < budget.included_count + fuel
      → Ends budget cursors (rounds json_size max_rows max_chars fuel budget cursors)
  unfolding rounds
  rounds-Ends zero budget cursors within enough = absurd (omega arith)
  rounds-Ends (suc fuel) budget cursors within enough =
      by_progress (ltb budget.included_count max_rows) budget'.progressed refl
        (rounds-Ends fuel budget' cursors')
    where
      after : Budget × List Cursor
      after = round json_size max_rows max_chars (record budget { progressed = false }) cursors

      budget' : Budget
      budget' = after.0

      cursors' : List Cursor
      cursors' = after.1

      rounded : Rounded max_rows (record budget { progressed = false }) cursors (budget', cursors')
      rounded = round-Rounded (record budget { progressed = false }) cursors

      by_progress :
          (b p : Bool)
          → budget'.progressed ≡ p
          → (budget'.included_count ≤ max_rows
              → max_rows < budget'.included_count + fuel
              → Ends budget' cursors' (rounds json_size max_rows max_chars fuel budget' cursors'))
          → Ends budget cursors (
              if not b
              then some (budget, cursors)
              else if p
              then rounds json_size max_rows max_chars fuel budget' cursors'
              else some (budget', cursors'))
      by_progress false p e ih = (budget, cursors, refl, within, refl, AllContinue-refl cursors)
      by_progress true false e ih =
          let ((spent, grows, limit, up), all) = rounded in
          (budget', cursors', refl, elim limit [ inl same ↦ omega arith | inr w ↦ w ], spent, all)
      by_progress true true e ih =
          let ((spent, grows, limit, up), all) = rounded in
          let grown : budget.included_count < budget'.included_count = elim up [
            | inl same ↦ absurd (cc)
            | inr u ↦ u
          ] in
          let in_limit : budget'.included_count ≤ max_rows = elim limit [
            | inl same ↦ omega arith
            | inr w ↦ w
          ] in
          let (b, cs, e', w, count, rest) = ih in_limit (omega arith) in
          (b, cs, e', w, omega arith, AllContinue-trans all rest)

-- Each section's share is a prefix of its rows.
abbrev pub AreShares : List (String × List Row) → List Cursor → Type 0
AreShares [] [] = Unit
AreShares ((id, rows) ∷ sections) (cursor ∷ cursors) =
    (cursor.id ≡ id)
    × (cursor.included ≡ take (length cursor.included) rows)
    × AreShares sections cursors
AreShares _ _ = ⊥

AllContinue-AreShares :
    (sections : List (String × List Row)) (cursors : List Cursor)
    → AllContinue (starts sections) cursors
    → AreShares sections cursors
AllContinue-AreShares [] [] done = tt
AllContinue-AreShares [] (cursor ∷ cursors) h = elim h [ ]
AllContinue-AreShares ((id, rows) ∷ sections) [] h = elim h [ ]
AllContinue-AreShares ((id, rows) ∷ sections) (cursor ∷ cursors) (more (i, r, f) h) =
    let (prefix, count) = f (sym (take-zero rows), refl) in
    (
      i,
      prefix ∙ (ap (λ n. take n cursor.rows) (sym count) ∙ ap (take (length cursor.included)) r),
      AllContinue-AreShares sections cursors h,
    )

included_rows-starts : (sections : List (String × List Row)) → included_rows (starts sections) ≡ 0
included_rows-starts [] = refl
included_rows-starts (section ∷ sections) = omega (arith, included_rows-starts sections)

-- The loop over the sections ends within as many rounds as the row limit and one more. Each section
-- is in the result under its id, in order, with a prefix of its rows. The included count is that of
-- the rows included, is at most the row limit, and the result is marked truncated exactly when it
-- is below the number of rows of all sections.
pub truncate_sections-AreShares :
    (json_size : JsonSize) (max_rows max_chars spare : ℕ) (sections : List (String × List Row))
    → (r : Shares) × (truncate_sections json_size max_rows max_chars (max_rows + suc spare) sections
        ≡ some r)
      × AreShares sections r.cursors
      × (r.included_count ≡ included_rows r.cursors)
      × (r.included_count ≤ max_rows)
      × (r.truncated ≡ ltb r.included_count (source_count sections))
unfolding truncate_sections
truncate_sections-AreShares json_size max_rows max_chars spare sections =
    let (budget, cursors, e, within, count, all) =
      rounds-Ends json_size max_rows max_chars (max_rows + suc spare)
        (record { included_count = 0; char_count = 0; progressed = false }) (starts sections)
        (omega arith) (omega arith) in
    (
      record {
        cursors = cursors;
        included_count = budget.included_count;
        truncated = ltb budget.included_count (source_count sections);
      },
      ap (shares sections) e,
      AllContinue-AreShares sections cursors all,
      omega (arith, included_rows-starts sections),
      within,
      refl,
    )
