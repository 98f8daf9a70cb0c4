-- ===== src/Compose/Pairs.antt =====
-- Which pairs of rows a join visits: those that agree under every join key.
use text2cypher_manufacturin.Common.{
  ℕ, ◌+◌, ◌≡◌, refl, ap, sym, ◌∙◌, subst, String, Bool, true, false, List, [], ◌∷◌, ◌++◌,
  append-nil, append_assoc, All, map, keep, Result, ok, err, >>=-eq-ok, ok-injective, if◌then◌else◌,
}
use text2cypher_manufacturin.Python.{Row}
use text2cypher_manufacturin.Compose.Types.{CompositionError, key_out_of_range}
use text2cypher_manufacturin.Compose.Join.{
  Key, key_eq, row_key, Keyed, left_keyed, Groups, add_row, group_of, in_domain, in_left,
  right_groups,
}
use text2cypher_manufacturin.Compose.Keys.{
  matches, IsScalar, HasKey, row_key-HasKey, key_eq-matches, key_eq_sym, key_eq_trans,
}

-- For each left row in order, its pairs with the right rows that match it, in order.
abbrev pub matching : List String → (lefts rights : List Row) → List (Row × Row)
matching join_keys [] rights = []
matching join_keys (left ∷ lefts) rights =
    map (λ right. (left, right)) (keep (matches join_keys left) rights)
    ++ matching join_keys lefts rights

-- Every group has a key of values that a set can hold.
abbrev AreScalar : Groups → Type 0
AreScalar groups = All (λ group. All IsScalar group.0) groups

add_row-AreScalar :
    (k : Key) (row : Row) (groups : Groups)
    → All IsScalar k
    → AreScalar groups
    → AreScalar (add_row k row groups)
unfolding add_row
add_row-AreScalar k row [] s h = (s, tt)
add_row-AreScalar k row ((g, rows) ∷ groups) s (first, h) =
    by_test (key_eq g k) (add_row-AreScalar k row groups s h)
  where
    by_test :
        (b : Bool)
        → AreScalar (add_row k row groups)
        → AreScalar (if b then (g, rows ++ row ∷ []) ∷ groups else (g, rows) ∷ add_row k row groups)
    by_test true ih = (first, h)
    by_test false ih = (first, ih)

-- A row is added at the end of what stands under its key, and nowhere else.
group_of-add_row :
    (key k : Key) (row : Row) (groups : Groups)
    → All IsScalar key
    → All IsScalar k
    → AreScalar groups
    → group_of key (add_row k row groups)
      ≡ group_of key groups ++ (if key_eq k key then row ∷ [] else [])
unfolding add_row group_of
group_of-add_row key k row [] sk s h = refl
group_of-add_row key k row ((g, rows) ∷ groups) sk s (sg, h) =
    by_tests (key_eq g k) refl (key_eq g key) refl (key_eq k key) refl
      (group_of-add_row key k row groups sk s h)
  where
    by_tests :
        (a : Bool)
        → key_eq g k ≡ a
        → (b : Bool) → key_eq g key ≡ b
        → (c : Bool) → key_eq k key ≡ c
        → group_of key (add_row k row groups)
          ≡ group_of key groups ++ (if key_eq k key then row ∷ [] else [])
        → group_of key
            (if a then (g, rows ++ row ∷ []) ∷ groups else (g, rows) ∷ add_row k row groups)
          ≡ (if b then rows else group_of key groups) ++ (if c then row ∷ [] else [])
    by_tests true e true f true i ih = rw f
    by_tests true e true f false i ih = cc (key_eq_trans k g key s sg (key_eq_sym g k sg s e) f, i)
    by_tests true e false f true i ih = cc (key_eq_trans g k key sg s e i, f)
    by_tests true e false f false i ih = rw f (sym (append-nil (group_of key groups)))
    by_tests false e true f true i ih =
        cc (key_eq_trans g key k sg sk f (key_eq_sym k key s sk i), e)
    by_tests false e true f false i ih = rw f (sym (append-nil rows))
    by_tests false e false f c i ih =
        rw f (ih ∙ ap (λ b. group_of key groups ++ (if b then row ∷ [] else [])) i)

in_left-same : (id : String) (keyed : Keyed) (k k' : Key) → in_left id keyed k ≡ ok k' → k ≡ k'
in_left-same id keyed k k' = by_test (in_domain k keyed)
  where
    by_test :
        (b : Bool)
        → ◌≡◌ {A = Result CompositionError Key}
            (if b then ok k else err (key_out_of_range id k))
            (ok k')
        → k ≡ k'
    by_test true h = ok-injective h
    by_test false h = cc

-- The rows of a group are those that match, in order, behind what stands there already.
group_of-right_groups :
    (id : String) (ks : List String) (keyed : Keyed) (index : ℕ) (rows : List Row)
    (groups groups' : Groups) (left : Row) (key : Key)
    → HasKey ks left key
    → AreScalar groups
    → right_groups id ks keyed index rows groups ≡ ok groups'
    → group_of key groups' ≡ group_of key groups ++ keep (matches ks left) rows
unfolding right_groups
group_of-right_groups id ks keyed index [] groups groups' left key h s e =
    ap (group_of key) (sym (ok-injective e)) ∙ sym (append-nil (group_of key groups))
group_of-right_groups id ks keyed index (row ∷ rows) groups groups' left key h s e =
    let (k, first, more) = >>=-eq-ok (row_key id index ks row) _ e in
    let (k', known, last) = >>=-eq-ok (in_left id keyed k) _ more in
    let has : HasKey ks row k' =
      subst (HasKey ks row) (in_left-same id keyed k k' known)
        (row_key-HasKey id index ks row k first) in
    group_of-right_groups id ks keyed (index + 1) rows (add_row k' row groups) groups' left key h
      (add_row-AreScalar k' row groups has.1 s) last
    ∙ ap (λ g. g ++ keep (matches ks left) rows)
        (group_of-add_row key k' row groups h.1 has.1 s
          ∙ ap (λ b. group_of key groups ++ (if b then row ∷ [] else []))
              (key_eq-matches ks left row key k' h.0 has.0))
    ∙ by_test (matches ks left row)
  where
    by_test :
        (b : Bool)
        → group_of key groups ++ (if b then row ∷ [] else []) ++ keep (matches ks left) rows
          ≡ group_of key groups
            ++ (let rest = keep (matches ks left) rows in if b then row ∷ rest else rest)
    by_test true = append_assoc (group_of key groups) (row ∷ []) (keep (matches ks left) rows)
    by_test false = ap (λ g. g ++ keep (matches ks left) rows) (append-nil (group_of key groups))

-- Each left row stands with its key.
abbrev AreKeyed : List String → Keyed → List Row → Type 0
AreKeyed ks [] [] = Unit
AreKeyed ks [] (row ∷ rows) = ⊥
AreKeyed ks ((key, left) ∷ keyed) [] = ⊥
AreKeyed ks ((key, left) ∷ keyed) (row ∷ rows) =
    (left ≡ row) × HasKey ks row key × AreKeyed ks keyed rows

left_keyed-AreKeyed :
    (id : String) (ks : List String) (index : ℕ) (rows : List Row) (keyed : Keyed)
    → left_keyed id ks index rows ≡ ok keyed
    → AreKeyed ks keyed rows
unfolding left_keyed
left_keyed-AreKeyed id ks index [] keyed h = subst (λ k. AreKeyed ks k []) (ok-injective h) tt
left_keyed-AreKeyed id ks index (row ∷ rows) keyed h =
    let (key, first, more) = >>=-eq-ok (row_key id index ks row) _ h in
    let (rest, others, last) = >>=-eq-ok (left_keyed id ks (index + 1) rows) _ more in
    subst (λ k. AreKeyed ks k (row ∷ rows)) (ok-injective last)
      (
        refl,
        row_key-HasKey id index ks row key first,
        left_keyed-AreKeyed id ks (index + 1) rows rest others,
      )

-- The pairs that the loop visits.
unfoldable pub pairs_of : Keyed → Groups → List (Row × Row)
pairs_of [] groups = []
pairs_of ((key, left) ∷ lefts) groups =
    map (λ right. (left, right)) (group_of key groups) ++ pairs_of lefts groups

pairs_of-AreKeyed :
    (id : String) (ks : List String) (all_keyed keyed : Keyed) (lefts rights : List Row)
    (groups : Groups)
    → AreKeyed ks keyed lefts
    → right_groups id ks all_keyed 0 rights [] ≡ ok groups
    → pairs_of keyed groups ≡ matching ks lefts rights
unfolding pairs_of group_of
pairs_of-AreKeyed id ks all_keyed [] [] rights groups k g = refl
pairs_of-AreKeyed id ks all_keyed [] (row ∷ rows) rights groups k g = absurd k
pairs_of-AreKeyed id ks all_keyed ((key, left) ∷ keyed) [] rights groups k g = absurd k
pairs_of-AreKeyed id ks all_keyed ((key, left) ∷ keyed) (row ∷ rows) rights groups (same, h, k) g =
    ap (λ ps. ps ++ pairs_of keyed groups)
      (ap (λ l. map (λ right. (l, right)) (group_of key groups)) same
        ∙ ap (map (λ right. (row, right)))
            (group_of-right_groups id ks all_keyed 0 rights [] groups row key h tt g))
    ∙ ap (λ ps. map (λ right. (row, right)) (keep (matches ks row) rights) ++ ps)
        (pairs_of-AreKeyed id ks all_keyed keyed rows rights groups k g)

-- The loop visits exactly the pairs of rows that match.
pub pairs_of-matching :
    (first second : String) (ks : List String) (keyed : Keyed) (lefts rights : List Row)
    (groups : Groups)
    → left_keyed first ks 0 lefts ≡ ok keyed
    → right_groups second ks keyed 0 rights [] ≡ ok groups
    → pairs_of keyed groups ≡ matching ks lefts rights
pairs_of-matching first second ks keyed lefts rights groups k g =
    pairs_of-AreKeyed second ks keyed keyed lefts rights groups
      (left_keyed-AreKeyed first ks 0 lefts keyed k) g
