-- ===== src/Answer/Kept.antt =====
-- What the cut of one list of rows keeps.
use text2cypher_manufacturin.Common.{
  ℕ, zero, suc, ◌+◌, ◌≤◌, ◌<◌, ◌≡◌, refl, ap, ◌∙◌, subst, Bool, true, false, ◌⊎◌, inl, inr, List,
  [], ◌∷◌, arith, take, length, length-take-le, ltb, if◌then◌else◌, is_empty, Option, some, ok,
  >>=-eq-ok, ok-injective,
}
use text2cypher_manufacturin.Python.{ℤ, Row}
use text2cypher_manufacturin.Answer.Prefix.{
  JsonSize, fitting, cut, TruncatedResult, Settings, configured_limit, truncate_result_for_answer,
}
use text2cypher_manufacturin.Answer.Sections.{row_at}

-- The characters of some rows.
abbrev pub total_size : JsonSize → List Row → ℕ
total_size json_size [] = 0
total_size json_size (row ∷ rows) = json_size row + total_size json_size rows

-- Nothing more fits: every row is kept, or the next one would pass the limit, or the limit is
-- passed.
abbrev pub IsFull : JsonSize → ℕ → ℕ → List Row → List Row → Type 0
IsFull json_size char_limit count rows kept =
    (length kept ≡ length rows)
    ⊎ (((row : Row) × (row_at rows (length kept) ≡ some row)
          × (char_limit < count + (total_size json_size kept + json_size row)))
        ⊎ (char_limit < count + total_size json_size kept))

-- The rows kept from a start at `count` characters, before which none was taken if `first`.
abbrev IsFitting : JsonSize → ℕ → ℕ → Bool → List Row → List Row → Type 0
IsFitting json_size char_limit count first rows kept =
    (kept ≡ take (length kept) rows)
    × (length kept ≤ length rows)
    × ((count + total_size json_size kept ≤ char_limit) ⊎ ((first ≡ true) × (length kept ≡ 1)))
    × IsFull json_size char_limit count rows kept
    × ((is_empty kept ≡ false) ⊎ ((is_empty rows ≡ true) ⊎ (first ≡ false)))

module _ (json_size : JsonSize) (char_limit : ℕ) where
  next-IsFitting :
      (count : ℕ) (first : Bool) (row : Row) (rows kept : List Row)
      → IsFitting json_size char_limit (count + json_size row) false rows kept
      → IsFitting json_size char_limit count first (row ∷ rows) (row ∷ kept)
  next-IsFitting count first row rows kept (prefix, short, bounded, at_limit, _) = (
    ap (λ l. row ∷ l) prefix,
    omega arith,
    elim bounded [ inl b ↦ inl (omega arith) | inr (e, _) ↦ absurd (cc) ],
    elim at_limit [
      | inl e ↦ inl (omega arith)
      | inr (inl (r, at, more)) ↦ inr (inl (r, at, omega arith))
      | inr (inr more) ↦ inr (inr (omega arith))
    ],
    inl refl,
  )

  fitting-IsFitting :
      (count : ℕ) (first : Bool) (rows : List Row)
      → count ≤ char_limit
      → IsFitting json_size char_limit count first rows
          (fitting json_size char_limit count first rows)
  unfolding fitting
  fitting-IsFitting count first [] h =
      (refl, omega arith, inl (omega arith), inl refl, inr (inl refl))
  fitting-IsFitting count first (row ∷ rows) h =
      by_size (ltb char_limit (count + json_size row)) first refl
        (fitting-IsFitting (count + json_size row) false rows)
    where
      by_size :
          (b f : Bool)
          → ltb char_limit (count + json_size row) ≡ b
          → (count + json_size row ≤ char_limit
              → IsFitting json_size char_limit
                  (count + json_size row)
                  false
                  rows
                  (fitting json_size char_limit (count + json_size row) false rows))
          → IsFitting json_size char_limit count f (row ∷ rows) (
              if b
              then (if f then row ∷ [] else [])
              else row ∷ fitting json_size char_limit (count + json_size row) false rows)
      by_size true true e ih =
          (refl, omega arith, inr (refl, refl), inr (inr (ground arith)), inl refl)
      by_size true false e ih = (
        refl,
        omega arith,
        inl (omega arith),
        inr (inl (row, refl, ground arith)),
        inr (inr refl),
      )
      by_size false f e ih =
          next-IsFitting count f row rows
            (fitting json_size char_limit (count + json_size row) false rows) (ih (ground arith))

take-take : (n m : ℕ) (xs : List Row) → n ≤ m → take n (take m xs) ≡ take n xs
take-take zero m xs h = refl
take-take (suc n) zero xs h = absurd (omega arith)
take-take (suc n) (suc m) [] h = refl
take-take (suc n) (suc m) (x ∷ xs) h = ap (λ l. x ∷ l) (take-take n m xs (omega arith))

row_at-take :
    (n m : ℕ) (xs : List Row) (row : Row) → row_at (take m xs) n ≡ some row → row_at xs n ≡ some row
row_at-take n zero xs row h = cc
row_at-take n (suc m) [] row h = cc
row_at-take zero (suc m) (x ∷ xs) row h = h
row_at-take (suc n) (suc m) (x ∷ xs) row h = row_at-take n m xs row h

length-take-cases :
    (m : ℕ) (xs : List Row) → (length (take m xs) ≡ m) ⊎ (length (take m xs) ≡ length xs)
length-take-cases zero xs = inl refl
length-take-cases (suc m) [] = inr refl
length-take-cases (suc m) (x ∷ xs) = elim (length-take-cases m xs) [
  | inl e ↦ inl (omega arith)
  | inr e ↦ inr (omega arith)
]

is_empty-take :
    (m : ℕ) (xs : List Row) → is_empty (take m xs) ≡ true → (is_empty xs ≡ true) ⊎ (m ≡ 0)
is_empty-take zero xs h = inr refl
is_empty-take (suc m) [] h = inl refl
is_empty-take (suc m) (x ∷ xs) h = cc

-- The rows of a cut under both limits, and what it says of them.
abbrev pub IsCut : JsonSize → ℕ → ℕ → List Row → TruncatedResult → Type 0
IsCut json_size row_limit char_limit rows r =
    (r.rows ≡ take (length r.rows) rows)
    × (length r.rows ≤ row_limit)
    × ((total_size json_size r.rows ≤ char_limit) ⊎ (length r.rows ≡ 1))
    × ((length r.rows ≡ row_limit) ⊎ IsFull json_size char_limit 0 rows r.rows)
    × ((is_empty r.rows ≡ false) ⊎ ((is_empty rows ≡ true) ⊎ (row_limit ≡ 0)))
    × (r.total_count ≡ length rows)
    × (r.truncated ≡ ltb (length r.rows) (length rows))

cut-IsCut :
    (json_size : JsonSize) (rows : List Row) (row_limit char_limit : ℕ)
    → IsCut json_size row_limit char_limit rows (cut json_size rows row_limit char_limit)
cut-IsCut json_size rows row_limit char_limit =
    let (prefix, short, bounded, at_limit, kept) =
      fitting-IsFitting json_size char_limit 0 true (take row_limit rows) (omega arith) in
    let within = length-take-le row_limit rows in
    (
      prefix ∙ take-take _ row_limit rows (omega arith),
      omega arith,
      elim bounded [ inl b ↦ inl (omega arith) | inr (_, e) ↦ inr e ],
      elim at_limit [
        | inl e ↦ elim (length-take-cases row_limit rows) [
          | inl f ↦ inl (e ∙ f)
          | inr f ↦ inr (inl (e ∙ f))
        ]
        | inr (inl (r, at, more)) ↦ inr (inr (inl (r, row_at-take _ row_limit rows r at, more)))
        | inr (inr more) ↦ inr (inr (inr more))
      ],
      elim kept [
        | inl e ↦ inl e
        | inr (inl e) ↦ inr (is_empty-take row_limit rows e)
        | inr (inr e) ↦ absurd (cc)
      ],
      refl,
      refl,
    )

-- A cut that is not refused for a negative limit keeps a prefix of the rows, at most as many as the
-- row limit. The characters of the kept rows are within the character limit, or a single row is
-- kept. The cut keeps as much as it can: as many rows as the row limit, or all of them, or so many
-- that the next one would pass the character limit, or the kept row passes it itself. Some row is
-- kept unless there is none or the row limit is 0. The total count is that of all rows, and the
-- result is marked truncated exactly when rows are missing.
pub truncate_result_for_answer-IsCut :
    (json_size : JsonSize) (settings : Settings) (rows : List Row) (max_rows max_chars : Option ℤ)
    (r : TruncatedResult)
    → truncate_result_for_answer json_size settings rows max_rows max_chars ≡ ok r
    → (row_limit : ℕ) × (char_limit : ℕ) × (configured_limit "ANSWER_MAX_ROWS" settings.max_rows
          max_rows
        ≡ ok row_limit)
      × (configured_limit "ANSWER_MAX_CHARS" settings.max_chars max_chars ≡ ok char_limit)
      × IsCut json_size row_limit char_limit rows r
unfolding truncate_result_for_answer
truncate_result_for_answer-IsCut json_size settings rows max_rows max_chars r h =
    let (row_limit, e, more) =
      >>=-eq-ok (configured_limit "ANSWER_MAX_ROWS" settings.max_rows max_rows) _ h in
    let (char_limit, f, last) =
      >>=-eq-ok (configured_limit "ANSWER_MAX_CHARS" settings.max_chars max_chars) _ more in
    (
      row_limit,
      char_limit,
      e,
      f,
      subst (IsCut json_size row_limit char_limit rows) (ok-injective last)
          (cut-IsCut json_size rows row_limit char_limit),
    )
