-- ===== src/Compose/Coherent/Joining.antt =====
-- The rows and the count of `compose_joined`.
use text2cypher_manufacturin.Common.{
  ℕ, ◌+◌, ◌≤◌, ◌≡◌, ◌⊎◌, inl, inr, refl, subst, String, Bool, true, false, ◌||◌, none, some, List,
  [], ◌∷◌, length, length-append, ltb, eqb, is_empty, Result, ok, err, ◌>>=◌, >>=-eq-ok,
  ok-injective, arith, if◌then◌else◌, if_ind, eqb_iff,
}
use native.Mathlib.Nat.{le_refl}
use text2cypher_manufacturin.Python.{Row}
use text2cypher_manufacturin.Plan.{Subquery}
use text2cypher_manufacturin.Retry.{no_data}
use text2cypher_manufacturin.Compose.Types.{
  joined, separate, CompositionError, sources_truncated, ComposedResult,
}
use text2cypher_manufacturin.Compose.Sources.{Source}
use text2cypher_manufacturin.Compose.Join.{
  Keyed, Groups, Joined, add_merged, join_row, join_rows, group_of, merge_rows, joined_result,
  or_failure, join_sources, compose_joined, left_keyed, right_groups,
}
use text2cypher_manufacturin.Compose.Coherent.Shape.{IsCoherent, failed}

-- The rows of a join are counted.
abbrev Counted : Joined → Type 0
Counted acc = length acc.rows ≤ acc.total_count

add_merged-Counted :
    (limit : ℕ) (acc : Joined) (row : Row) → Counted acc → Counted (add_merged limit acc row)
add_merged-Counted limit acc row h =
    if_ind (λ rows. length rows ≤ acc.total_count + 1) (ltb (length acc.rows) limit)
      (λ _. omega (arith, h, length-append acc.rows (row ∷ []))) (λ _. omega (arith, h))

join_row-Counted :
    (keys : List String) (limit : ℕ) (left : Row) (rights : List Row) (acc acc' : Joined)
    → Counted acc
    → join_row keys limit left rights acc ≡ ok acc'
    → Counted acc'
unfolding join_row
join_row-Counted keys limit left [] acc acc' h e = subst Counted (ok-injective e) h
join_row-Counted keys limit left (right ∷ rights) acc acc' h e =
    let (merged, _, e1) = >>=-eq-ok (merge_rows keys left right) _ e in
    join_row-Counted keys limit left rights (add_merged limit acc merged) acc'
      (add_merged-Counted limit acc merged h) e1

join_rows-Counted :
    (keys : List String) (limit : ℕ) (lefts : Keyed) (groups : Groups) (acc acc' : Joined)
    → Counted acc
    → join_rows keys limit lefts groups acc ≡ ok acc'
    → Counted acc'
unfolding join_rows
join_rows-Counted keys limit [] groups acc acc' h e = subst Counted (ok-injective e) h
join_rows-Counted keys limit ((key, left) ∷ lefts) groups acc acc' h e =
    let (next, e1, e2) = >>=-eq-ok (join_row keys limit left (group_of key groups) acc) _ e in
    join_rows-Counted keys limit lefts groups next acc'
      (join_row-Counted keys limit left (group_of key groups) acc next h e1) e2

-- What is counted and cut.
pub cut-IsDone :
    (n total : ℕ) → n ≤ total → (ltb n total ≡ true) ⊎ ((n ≡ total) ⊎ (joined ≡ separate))
cut-IsDone n total h = ground arith

joined_result-IsCoherent : (acc : Joined) → Counted acc → IsCoherent (joined_result acc)
joined_result-IsCoherent acc h =
    inr (
      refl,
      h,
      cut-IsDone (length acc.rows) acc.total_count h,
      by_count (eqb acc.total_count 0) refl,
    )
  where
    by_count :
        (b : Bool)
        → eqb acc.total_count 0 ≡ b
        → ((if b then some no_data else none) ≡ none) ⊎ (acc.total_count ≡ 0)
    by_count true e = inr ((eqb_iff acc.total_count 0).0 e)
    by_count false e = inl refl

or_failure-IsCoherent :
    (r : Result CompositionError ComposedResult)
    → ((c : ComposedResult) → r ≡ ok c → IsCoherent c)
    → IsCoherent (or_failure r)
or_failure-IsCoherent (ok c) h = h c refl
or_failure-IsCoherent (err e) h = failed joined e none false

join_sources-IsCoherent :
    (left right : Source) (keys : List String) (limit : ℕ) (keyed : Keyed) (groups : Groups)
    (c : ComposedResult)
    → join_sources left right keys limit keyed groups ≡ ok c
    → IsCoherent c
join_sources-IsCoherent left right keys limit keyed groups c h =
    if_ind (λ (r : Result CompositionError ComposedResult). r ≡ ok c → IsCoherent c)
      (is_empty left.rows || is_empty right.rows)
      (λ _ e. subst IsCoherent (ok-injective e) (inr (refl, le_refl 0, inr (inl refl), inr refl)))
      (λ _ e.
        let (acc, e1, e2) =
          >>=-eq-ok (join_rows keys limit keyed groups (record { rows = []; total_count = 0 })) _
            e in
        subst IsCoherent (ok-injective e2) (
          joined_result-IsCoherent acc (
            join_rows-Counted keys limit keyed groups (record { rows = []; total_count = 0 }) acc
              (le_refl 0) e1)))
      h

pub compose_joined-IsCoherent :
    (first second : Subquery) (left right : Source) (limit : ℕ)
    → IsCoherent (compose_joined first second left right limit)
unfolding compose_joined
compose_joined-IsCoherent first second left right limit =
    if_ind IsCoherent (left.truncated || right.truncated)
      (λ _. failed joined sources_truncated none true) (λ _. or_failure-IsCoherent chain by_chain)
  where
    chain : Result CompositionError ComposedResult
    chain = do
      keyed ← left_keyed first.id first.join_keys 0 left.rows
      groups ← right_groups second.id first.join_keys keyed 0 right.rows []
      join_sources left right first.join_keys limit keyed groups

    by_chain : (c : ComposedResult) → chain ≡ ok c → IsCoherent c
    by_chain c e =
        let (keyed, _, e1) = >>=-eq-ok (left_keyed first.id first.join_keys 0 left.rows) _ e in
        let (groups, _, e2) =
          >>=-eq-ok (right_groups second.id first.join_keys keyed 0 right.rows []) _ e1 in
        join_sources-IsCoherent left right first.join_keys limit keyed groups c e2
