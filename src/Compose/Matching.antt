-- ===== src/Compose/Matching.antt =====
-- The join against its specification: which rows are merged, in which order, and how many.
use text2cypher_manufacturin.Common.{
  ℕ, zero, suc, ◌+◌, ◌-◌, ◌≡◌, refl, Bool, true, false, ◌||◌, none, some, String, List, [], ◌∷◌,
  ◌++◌, arith, append-nil, append_assoc, ap, sym, ◌∙◌, subst, map, take, length, length-append, ltb,
  Result, ok, err, >>=-eq-ok, ok-injective, ◌>>=◌, if◌then◌else◌, is_empty,
}
use text2cypher_manufacturin.Python.{Row}
use text2cypher_manufacturin.Compose.Types.{
  CompositionError, sources_truncated, ComposedResult, composed, joined, failure,
}
use text2cypher_manufacturin.Compose.Sources.{Source}
use text2cypher_manufacturin.Plan.{Subquery}
use text2cypher_manufacturin.Compose.Pairs.{matching, pairs_of, pairs_of-matching}
use text2cypher_manufacturin.Compose.Join.{
  Keyed, Groups, group_of, left_keyed, right_groups, merge_rows, Joined, add_merged, join_row,
  join_rows, join_sources, joined_result, or_failure, either_inconclusive, compose_joined,
}

-- Each pair of rows merges, in order.
pub data IsMerged (join_keys : List String) : List (Row × Row) → List Row → Type 0 where
  no_pairs : IsMerged join_keys [] []
  merge :
      {left right merged : Row} {pairs : List (Row × Row)} {rows : List Row}
      → merge_rows join_keys left right ≡ ok merged
      → IsMerged join_keys pairs rows
      → IsMerged join_keys ((left, right) ∷ pairs) (merged ∷ rows)

IsMerged-append :
    {join_keys : List String} {ps qs : List (Row × Row)} {xs ys : List Row}
    → IsMerged join_keys ps xs
    → IsMerged join_keys qs ys
    → IsMerged join_keys (ps ++ qs) (xs ++ ys)
IsMerged-append no_pairs k = k
IsMerged-append (merge e h) k = merge e (IsMerged-append h k)

-- The rows so far with as many more as the limit leaves room for.
abbrev extended : ℕ → Joined → List Row → Joined
extended row_limit acc merged = record {
  rows = acc.rows ++ take (row_limit - length acc.rows) merged;
  total_count = acc.total_count + length merged;
}

-- Adding the rows one by one is adding them at once.
add_all : ℕ → Joined → List Row → Joined
add_all row_limit acc [] = acc
add_all row_limit acc (m ∷ ms) = add_all row_limit (add_merged row_limit acc m) ms

add_all-append :
    (row_limit : ℕ) (acc : Joined) (xs ys : List Row)
    → add_all row_limit acc (xs ++ ys) ≡ add_all row_limit (add_all row_limit acc xs) ys
unfolding add_all
add_all-append row_limit acc [] ys = refl
add_all-append row_limit acc (x ∷ xs) ys =
    add_all-append row_limit (add_merged row_limit acc x) xs ys

add_all-total :
    (row_limit : ℕ) (acc : Joined) (ms : List Row)
    → (add_all row_limit acc ms).total_count ≡ acc.total_count + length ms
unfolding add_all
add_all-total row_limit acc [] = omega arith
add_all-total row_limit acc (m ∷ ms) =
    omega (arith, add_all-total row_limit (add_merged row_limit acc m) ms)

add_merged-full :
    (row_limit : ℕ) (acc : Joined) (m : Row)
    → length acc.rows + 0 ≡ row_limit
    → (add_merged row_limit acc m).rows ≡ acc.rows
add_merged-full row_limit acc m h = ground arith

add_merged-room :
    (row_limit room : ℕ) (acc : Joined) (m : Row)
    → length acc.rows + suc room ≡ row_limit
    → (add_merged row_limit acc m).rows ≡ acc.rows ++ m ∷ []
add_merged-room row_limit room acc m h = ground arith

add_all-rows :
    (row_limit room : ℕ) (acc : Joined) (ms : List Row)
    → length acc.rows + room ≡ row_limit
    → (add_all row_limit acc ms).rows ≡ acc.rows ++ take room ms
unfolding add_all
add_all-rows row_limit zero acc [] h = sym (append-nil acc.rows)
add_all-rows row_limit (suc room) acc [] h = sym (append-nil acc.rows)
add_all-rows row_limit zero acc (m ∷ ms) h =
    let full = add_merged-full row_limit acc m h in
    add_all-rows row_limit zero (add_merged row_limit acc m) ms
      (subst (λ xs. length xs + 0 ≡ row_limit) (sym full) h)
    ∙ ap (λ xs. xs ++ []) full
add_all-rows row_limit (suc room) acc (m ∷ ms) h =
    let more = add_merged-room row_limit room acc m h in
    let count : length (acc.rows ++ m ∷ []) + room ≡ row_limit =
      omega (arith, length-append acc.rows (m ∷ [])) in
    add_all-rows row_limit room (add_merged row_limit acc m) ms
      (subst (λ xs. length xs + room ≡ row_limit) (sym more) count)
    ∙ (ap (λ xs. xs ++ take room ms) more ∙ append_assoc acc.rows (m ∷ []) (take room ms))

module _ (join_keys : List String) (row_limit : ℕ) where
  join_row-IsMerged :
      (left : Row) (rights : List Row) (acc acc' : Joined)
      → join_row join_keys row_limit left rights acc ≡ ok acc'
      → (ms : List Row) × IsMerged join_keys (map (λ right. (left, right)) rights) ms
        × (acc' ≡ add_all row_limit acc ms)
  unfolding join_row add_all
  join_row-IsMerged left [] acc acc' h = ([], no_pairs, sym (ok-injective h))
  join_row-IsMerged left (right ∷ rights) acc acc' h =
      let (m, first, more) = >>=-eq-ok (merge_rows join_keys left right) _ h in
      let (ms, rest, e) = join_row-IsMerged left rights (add_merged row_limit acc m) acc' more in
      (m ∷ ms, merge first rest, e)

  join_rows-IsMerged :
      (lefts : Keyed) (groups : Groups) (acc acc' : Joined)
      → join_rows join_keys row_limit lefts groups acc ≡ ok acc'
      → (ms : List Row) × IsMerged join_keys (pairs_of lefts groups) ms
        × (acc' ≡ add_all row_limit acc ms)
  unfolding join_rows pairs_of add_all
  join_rows-IsMerged [] groups acc acc' h = ([], no_pairs, sym (ok-injective h))
  join_rows-IsMerged ((key, left) ∷ lefts) groups acc acc' h =
      let (mid, first, more) =
        >>=-eq-ok (join_row join_keys row_limit left (group_of key groups) acc) _ h in
      let (ms, here, e) = join_row-IsMerged left (group_of key groups) acc mid first in
      let (ns, there, f) = join_rows-IsMerged lefts groups mid acc' more in
      (
        ms ++ ns,
        IsMerged-append here there,
        f ∙ (ap (λ a. add_all row_limit a ns) e ∙ sym (add_all-append row_limit acc ms ns)),
      )

-- An empty source gives no pairs.
left_keyed-empty :
    (id : String) (join_keys : List String) (index : ℕ) (rows : List Row) (keyed : Keyed)
    → is_empty rows ≡ true
    → left_keyed id join_keys index rows ≡ ok keyed
    → keyed ≡ []
unfolding left_keyed
left_keyed-empty id join_keys index [] keyed h e = sym (ok-injective e)
left_keyed-empty id join_keys index (row ∷ rows) keyed h e = cc

right_groups-empty :
    (id : String) (join_keys : List String) (left : Keyed) (index : ℕ) (rows : List Row)
    (groups : Groups)
    → is_empty rows ≡ true
    → right_groups id join_keys left index rows [] ≡ ok groups
    → groups ≡ []
unfolding right_groups
right_groups-empty id join_keys left index [] groups h e = sym (ok-injective e)
right_groups-empty id join_keys left index (row ∷ rows) groups h e = cc

pairs_of-no_groups : (lefts : Keyed) → pairs_of lefts [] ≡ []
unfolding pairs_of group_of
pairs_of-no_groups [] = refl
pairs_of-no_groups ((key, left) ∷ lefts) = pairs_of-no_groups lefts

take-[] : (n : ℕ) → ◌≡◌ {A = List Row} (take n []) []
take-[] zero = refl
take-[] (suc n) = refl

abbrev no_rows : Joined
no_rows = record { rows = []; total_count = 0 }

-- The result of a join is the merged rows of the pairs, cut at the limit.
abbrev pub IsJoin : List String → ℕ → List (Row × Row) → ComposedResult → Type 0
IsJoin join_keys row_limit pairs r =
    (ms : List Row) × IsMerged join_keys pairs ms
    × (r.rows ≡ take row_limit ms)
    × (r.total_count ≡ length ms)
    × (r.truncated ≡ ltb (length (take row_limit ms)) (length ms))

join_sources-IsJoin :
    (left right : Source) (join_keys : List String) (row_limit : ℕ) (keyed : Keyed)
    (groups : Groups) (r : ComposedResult)
    → (is_empty left.rows ≡ true → keyed ≡ [])
    → (is_empty right.rows ≡ true → groups ≡ [])
    → join_sources left right join_keys row_limit keyed groups ≡ ok r
    → IsJoin join_keys row_limit (pairs_of keyed groups) r
unfolding pairs_of
join_sources-IsJoin left right join_keys row_limit keyed groups r no_left no_right =
    by_empty (is_empty left.rows) (is_empty right.rows) no_left no_right
  where
    nothing : (ps : List (Row × Row)) → ps ≡ [] → IsMerged join_keys ps []
    nothing ps e = subst (λ qs. IsMerged join_keys qs []) (sym e) no_pairs

    none_joined :
        pairs_of keyed groups ≡ []
        → ◌≡◌ {A = Result CompositionError ComposedResult}
            (ok (composed joined none [] (some (either_inconclusive left right)) 0 false))
            (ok r)
        → IsJoin join_keys row_limit (pairs_of keyed groups) r
    none_joined e h = subst (IsJoin join_keys row_limit (pairs_of keyed groups)) (ok-injective h) (
      [],
      nothing (pairs_of keyed groups) e,
      sym (take-[] row_limit),
      refl,
      ap (λ xs. ltb (length xs) 0) (sym (take-[] row_limit)),
    )

    by_empty :
        (l m : Bool)
        → (l ≡ true → keyed ≡ [])
        → (m ≡ true → groups ≡ [])
        → (if l || m
            then ok (composed joined none [] (some (either_inconclusive left right)) 0 false)
            else (join_rows join_keys row_limit keyed groups (record { rows = []; total_count = 0 })
                >>= λ acc. ok (joined_result acc)))
          ≡ ok r
        → IsJoin join_keys row_limit (pairs_of keyed groups) r
    by_empty true m a b h = none_joined (ap (λ k. pairs_of k groups) (a refl)) h
    by_empty false true a b h =
        none_joined (ap (λ g. pairs_of keyed g) (b refl) ∙ pairs_of-no_groups keyed) h
    by_empty false false a b h =
        let (acc, first, last) =
          >>=-eq-ok (join_rows join_keys row_limit keyed groups no_rows) _ h in
        let (ms, merged, e) =
          join_rows-IsMerged join_keys row_limit keyed groups no_rows acc first in
        let total : acc.total_count ≡ length ms =
          ap (λ a. a.total_count) e ∙ (add_all-total row_limit no_rows ms ∙ omega arith) in
        let rows : acc.rows ≡ take row_limit ms =
          ap (λ a. a.rows) e ∙ add_all-rows row_limit row_limit no_rows ms (omega arith) in
        subst (IsJoin join_keys row_limit (pairs_of keyed groups)) (ok-injective last) (
          ms,
          merged,
          rows,
          total,
          ap (λ n. ltb (length acc.rows) n) total ∙ ap (λ xs. ltb (length xs) (length ms)) rows,
        )

or_failure-ok :
    (m : Result CompositionError ComposedResult)
    → (or_failure m).error ≡ none
    → m ≡ ok (or_failure m)
or_failure-ok (ok r) h = refl
or_failure-ok (err e) h = cc

untruncated :
    (l m : Bool) (r : ComposedResult)
    → (if l || m then failure joined sources_truncated none true else r).error ≡ none
    → (l ≡ false)
      × (m ≡ false)
      × ((if l || m then failure joined sources_truncated none true else r) ≡ r)
untruncated true m r h = cc
untruncated false true r h = cc
untruncated false false r h = (refl, refl, refl)

-- A join that reports no error had complete sources. Its rows are the merged rows of the pairs of a
-- left and a right row that have equal values under every join key, in the order of the left rows
-- and then of the right rows, cut at the row limit; the total count is that of all merged rows, and
-- the result is marked truncated exactly when rows were cut off.
pub compose_joined-IsJoin :
    (first second : Subquery) (left right : Source) (row_limit : ℕ)
    → (compose_joined first second left right row_limit).error ≡ none
    → (left.truncated ≡ false)
      × (right.truncated ≡ false)
      × IsJoin first.join_keys row_limit
          (matching first.join_keys left.rows right.rows)
          (compose_joined first second left right row_limit)
unfolding compose_joined
compose_joined-IsJoin first second left right row_limit no_error =
    let (l, m, same) = untruncated left.truncated right.truncated (or_failure joining) no_error in
    let here = or_failure-ok joining (subst (λ r. r.error ≡ none) same no_error) in
    let (keyed, k, more) = >>=-eq-ok (left_keyed first.id first.join_keys 0 left.rows) _ here in
    let (groups, g, last) =
      >>=-eq-ok (right_groups second.id first.join_keys keyed 0 right.rows []) _ more in
    let joins : IsJoin first.join_keys row_limit (pairs_of keyed groups) (or_failure joining) =
      join_sources-IsJoin left right first.join_keys row_limit keyed groups (or_failure joining)
        (λ e. left_keyed-empty first.id first.join_keys 0 left.rows keyed e k)
        (λ e. right_groups-empty second.id first.join_keys keyed 0 right.rows groups e g) last in
    (
      l,
      m,
      subst
          (λ ps. IsJoin first.join_keys row_limit ps (
            if left.truncated || right.truncated
            then failure joined sources_truncated none true
            else or_failure joining))
          (pairs_of-matching first.id second.id first.join_keys keyed left.rows right.rows groups k
            g)
          (subst (IsJoin first.join_keys row_limit (pairs_of keyed groups)) (sym same) joins),
    )
  where
    joining : Result CompositionError ComposedResult
    joining = do
      keyed ← left_keyed first.id first.join_keys 0 left.rows
      groups ← right_groups second.id first.join_keys keyed 0 right.rows []
      join_sources left right first.join_keys row_limit keyed groups
