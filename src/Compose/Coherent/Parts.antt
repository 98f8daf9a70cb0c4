-- ===== src/Compose/Coherent/Parts.antt =====
-- The results of one source, of separate sources and of the BOM shortages.
use text2cypher_manufacturin.Common.{
  ℕ, zero, suc, ◌≤◌, ◌≡◌, ◌⊎◌, inl, inr, refl, sym, String, Bool, true, false, ◌&&◌, ◌||◌, not,
  Option, none, some, List, [], ◌∷◌, any, take, length, is_empty, Result, ok, err, arith,
  if◌then◌else◌, if_ind,
}
use native.Mathlib.Nat.{le_refl}
use text2cypher_manufacturin.Python.{Row}
use text2cypher_manufacturin.Plan.{Subquery}
use text2cypher_manufacturin.Retry.{EmptyReason, no_data}
use text2cypher_manufacturin.Compose.Types.{joined, bom_sources_truncated, bom_failed}
use text2cypher_manufacturin.Compose.Sources.{Source, overall_empty_reason}
use text2cypher_manufacturin.Compose.Transform.{BomShortageTransform, TransformSpec, bom_type}
use text2cypher_manufacturin.Compose.Results.{
  Shortages, shortage_result, compose_bom_shortage, single_result, count_rows, separate_result,
}
use text2cypher_manufacturin.Compose.Coherent.Shape.{IsCoherent, failed}
use text2cypher_manufacturin.Compose.Coherent.Joining.{cut-IsDone}

-- What a source is said to lack.
reason-IsDone :
    (rows : List Row) (reason : Option EmptyReason) (total : ℕ)
    → length rows ≡ total
    → ((if is_empty rows then reason else none) ≡ none) ⊎ (total ≡ 0)
reason-IsDone [] reason total h = inr (sym h)
reason-IsDone (row ∷ rows) reason total h = inl refl

is_empty-length : (rows : List Row) → not (is_empty rows) ≡ false → length rows ≡ 0
is_empty-length [] h = refl
is_empty-length (row ∷ rows) h = cc

count_rows-none :
    (sources : List Source)
    → any (λ s. not (is_empty s.rows)) sources ≡ false
    → count_rows sources ≡ 0
count_rows-none [] h = refl
count_rows-none (s ∷ sources) h =
    omega (
      arith,
      is_empty-length s.rows (ground (arith, h)),
      count_rows-none sources (ground (arith, h)),
    )

length-take : (n : ℕ) (rows : List Row) → length (take n rows) ≤ length rows
length-take zero rows = omega arith
length-take (suc n) [] = omega arith
length-take (suc n) (row ∷ rows) = omega (arith, length-take n rows)

overall_empty_reason-IsDone :
    (sources : List Source) → (overall_empty_reason sources ≡ none) ⊎ (count_rows sources ≡ 0)
unfolding overall_empty_reason
overall_empty_reason-IsDone sources = by_rows (any (λ s. not (is_empty s.rows)) sources) refl
  where
    by_rows :
        (b : Bool)
        → any (λ s. not (is_empty s.rows)) sources ≡ b
        → (overall_empty_reason sources ≡ none) ⊎ (count_rows sources ≡ 0)
    by_rows true h = inl (rw h)
    by_rows false h = inr (count_rows-none sources h)

shortage_result-IsCoherent :
    (limit : ℕ) (r : Result String (List Row)) → IsCoherent (shortage_result limit r)
shortage_result-IsCoherent limit (err reason) =
    failed joined (bom_failed reason) (some bom_type) false
shortage_result-IsCoherent limit (ok rows) = inr (
  refl,
  fits,
  cut-IsDone (length (take limit rows)) (length rows) fits,
  reason-IsDone rows (some no_data) (length rows) refl,
)
  where
    fits : length (take limit rows) ≤ length rows
    fits = length-take limit rows

pub compose_bom_shortage-IsCoherent :
    (shortages : Shortages) (g s : Source) (transform : BomShortageTransform) (spec : TransformSpec)
    (limit : ℕ)
    → IsCoherent (compose_bom_shortage shortages g s transform spec limit)
unfolding compose_bom_shortage
compose_bom_shortage-IsCoherent shortages g s transform spec limit =
    if_ind IsCoherent (g.truncated || s.truncated)
      (λ _. failed joined bom_sources_truncated (some bom_type) true)
      (λ _.
        if_ind IsCoherent (is_empty g.rows && is_empty s.rows)
          (λ _. inr (refl, le_refl 0, inr (inl refl), inr refl))
          (λ _. shortage_result-IsCoherent limit (shortages g.rows s.rows transform spec)))

pub single_result-IsCoherent : (source : Source) → IsCoherent (single_result source)
single_result-IsCoherent source =
    inr (refl, le_refl _, inr (inl refl), reason-IsDone source.rows source.empty_reason _ refl)

pub separate_result-IsCoherent :
    (subqueries : List Subquery) (sources : List Source)
    → IsCoherent (separate_result subqueries sources)
separate_result-IsCoherent subqueries sources =
    inr (refl, omega arith, inr (inr refl), overall_empty_reason-IsDone sources)
