-- ===== src/Compose/Keys.antt =====
-- The keys of rows in a join: equal keys are equal values under every join key.
use text2cypher_manufacturin.Common.{
  ℕ, ◌≡◌, refl, ap, subst, String, Bool, true, false, not, Option, none, some, List, [], ◌∷◌, arith,
  all, any, All, lookup, Result, ok, err, >>=-eq-ok, ok-injective, if◌then◌else◌,
}
use text2cypher_manufacturin.Python.{Value, none_value, Row, val_eq}
use text2cypher_manufacturin.Compose.Types.{CompositionError, key_unhashable}
use text2cypher_manufacturin.Compose.Join.{
  Key, key_eq, is_hashable, key_value, key_values, hashed, row_key,
}
use text2cypher_manufacturin.Compose.Scalars.{val_eq_sym, val_eq_trans}

-- Both rows have a value under the name, and the values are equal.
abbrev pub same_value : Option Value → Option Value → Bool
same_value (some v) (some w) = val_eq v w
same_value _ _ = false

abbrev pub matches : List String → (left right : Row) → Bool
matches join_keys left right = all (λ k. same_value (lookup k right) (lookup k left)) join_keys

-- The values of the row under the join keys, in their order.
abbrev IsKey : List String → Row → Key → Type 0
IsKey [] row [] = Unit
IsKey [] row (v ∷ vs) = ⊥
IsKey (k ∷ ks) row [] = ⊥
IsKey (k ∷ ks) row (v ∷ vs) = (lookup k row ≡ some v) × IsKey ks row vs

abbrev pub IsScalar : Value → Type 0
IsScalar v = is_hashable v ≡ true

key_value-lookup :
    (id k : String) (index : ℕ) (o : Option Value) (v : Value)
    → key_value id index k o ≡ ok v
    → o ≡ some v
key_value-lookup id k index none v h = cc
key_value-lookup id k index (some w) v h = by_value w h
  where
    by_value : (w : Value) → key_value id index k (some w) ≡ ok v → some w ≡ some v
    by_value none_value h = cc
    by_value (Value.bool b) h = ap some (ok-injective h)
    by_value (Value.int n) h = ap some (ok-injective h)
    by_value (Value.dec n j) h = ap some (ok-injective h)
    by_value (Value.str s) h = ap some (ok-injective h)
    by_value (Value.list vs) h = ap some (ok-injective h)
    by_value (Value.dict fs) h = ap some (ok-injective h)

key_values-IsKey :
    (id : String) (index : ℕ) (row : Row) (ks : List String) (key : Key)
    → key_values id index row ks ≡ ok key
    → IsKey ks row key
unfolding key_values
key_values-IsKey id index row [] key h = subst (IsKey [] row) (ok-injective h) tt
key_values-IsKey id index row (k ∷ ks) key h =
    let (v, first, more) = >>=-eq-ok (key_value id index k (lookup k row)) _ h in
    let (vs, rest, last) = >>=-eq-ok (key_values id index row ks) _ more in
    subst (IsKey (k ∷ ks) row) (ok-injective last)
      (key_value-lookup id k index _ v first, key_values-IsKey id index row ks vs rest)

hashable-All : (key : Key) → any (λ v. not (is_hashable v)) key ≡ false → All IsScalar key
hashable-All [] h = tt
hashable-All (v ∷ vs) h = (ground (arith, h), hashable-All vs (ground (arith, h)))

hashed-All :
    (id : String) (index : ℕ) (key key' : Key)
    → hashed id index key ≡ ok key'
    → (key ≡ key') × All IsScalar key
hashed-All id index key key' = by_test (any (λ v. not (is_hashable v)) key) refl
  where
    by_test :
        (b : Bool)
        → any (λ v. not (is_hashable v)) key ≡ b
        → ◌≡◌ {A = Result CompositionError Key}
            (if b then err (key_unhashable id index) else ok key)
            (ok key')
        → (key ≡ key') × All IsScalar key
    by_test true e h = cc
    by_test false e h = (ok-injective h, hashable-All key e)

-- The key of a row: values that a set can hold.
abbrev pub HasKey : List String → Row → Key → Type 0
HasKey ks row key = IsKey ks row key × All IsScalar key

pub row_key-HasKey :
    (id : String) (index : ℕ) (ks : List String) (row : Row) (key : Key)
    → row_key id index ks row ≡ ok key
    → HasKey ks row key
unfolding row_key
row_key-HasKey id index ks row key h =
    let (key', first, more) = >>=-eq-ok (key_values id index row ks) _ h in
    let (same, scalar) = hashed-All id index key' key more in
    subst (HasKey ks row) same (key_values-IsKey id index row ks key' first, scalar)

-- Equal keys are equal values under every join key.
pub key_eq-matches :
    (ks : List String) (left right : Row) (key key' : Key)
    → IsKey ks left key
    → IsKey ks right key'
    → key_eq key' key ≡ matches ks left right
unfolding key_eq
key_eq-matches [] left right [] [] h g = refl
key_eq-matches [] left right (v ∷ vs) key' h g = absurd h
key_eq-matches [] left right [] (w ∷ ws) h g = absurd g
key_eq-matches (k ∷ ks) left right [] key' h g = absurd h
key_eq-matches (k ∷ ks) left right (v ∷ vs) [] h g = absurd g
key_eq-matches (k ∷ ks) left right (v ∷ vs) (w ∷ ws) h g =
    rw (h.0, g.0, key_eq-matches ks left right vs ws h.1 g.1)

pub key_eq_sym :
    (x y : Key) → All IsScalar x → All IsScalar y → key_eq x y ≡ true → key_eq y x ≡ true
unfolding key_eq
key_eq_sym [] [] h g e = refl
key_eq_sym [] (w ∷ ws) h g e = cc
key_eq_sym (v ∷ vs) [] h g e = cc
key_eq_sym (v ∷ vs) (w ∷ ws) h g e =
    let first : val_eq w v ≡ true = val_eq_sym v w h.0 g.0 (ground (arith, e)) in
    let rest : key_eq ws vs ≡ true = key_eq_sym vs ws h.1 g.1 (ground (arith, e)) in
    rw (first, rest)

pub key_eq_trans :
    (x y z : Key)
    → All IsScalar x
    → All IsScalar y
    → key_eq x y ≡ true
    → key_eq y z ≡ true
    → key_eq x z ≡ true
unfolding key_eq
key_eq_trans [] [] z h g e f = f
key_eq_trans [] (v ∷ vs) z h g e f = cc
key_eq_trans (v ∷ vs) [] z h g e f = cc
key_eq_trans (v ∷ vs) (w ∷ ws) [] h g e f = cc
key_eq_trans (v ∷ vs) (w ∷ ws) (u ∷ us) h g e f =
    let first : val_eq v u ≡ true =
      val_eq_trans v w u h.0 g.0 (ground (arith, e)) (ground (arith, f)) in
    let rest : key_eq vs us ≡ true =
      key_eq_trans vs ws us h.1 g.1 (ground (arith, e)) (ground (arith, f)) in
    rw (first, rest)
