-- ===== src/Compose/Merging.antt =====
-- What merging two joined rows keeps.
use text2cypher_manufacturin.Common.{
  ◌≡◌, refl, String, Bool, true, false, Option, none, some, List, [], ◌∷◌, ◌++◌, arith, ◌==◌,
  eq_iff, eq_refl, elem, lookup, Dict, Result, ok, >>=-eq-ok, ok-injective, some_inj, guarded-eq-ok,
  subst, Bool-cases, Option-cases, sym, ◌∙◌, ◌⊎◌, inl, inr, if◌then◌else◌,
}
use text2cypher_manufacturin.Python.{Value, Row, val_eq}
use text2cypher_manufacturin.Compose.Types.{CompositionError}
use text2cypher_manufacturin.Compose.Join.{merge_field, merge_rows}

lookup-append :
    {V : Type 0} (k : String) (d e : Dict V) (v : V)
    → lookup k d ≡ some v
    → lookup k (d ++ e) ≡ some v
lookup-append k [] e v h = cc
lookup-append k ((j, w) ∷ d) e v h = ground (arith, lookup-append k d e v)

lookup-append_new :
    {V : Type 0} (k : String) (d : Dict V) (v : V)
    → lookup k d ≡ none
    → lookup k (d ++ (k, v) ∷ []) ≡ some v
lookup-append_new k [] v h = simp eq_refl
lookup-append_new k ((j, w) ∷ d) v h = ground (arith, lookup-append_new k d v)

-- The merged row has the value, or one that is equal to it.
abbrev pub Holds : Row → String → Value → Type 0
Holds merged field value =
    (w : Value) × (lookup field merged ≡ some w) × ((w ≡ value) ⊎ (val_eq w value ≡ true))

merge_field-keeps :
    (field : String) (value : Value) (merged merged' : Row) (o : Option Value)
    → merge_field field value merged o ≡ ok merged'
    → (k : String) (v : Value) → lookup k merged ≡ some v
    → lookup k merged' ≡ some v
merge_field-keeps field value merged merged' none h k v found =
    subst (λ m. lookup k m ≡ some v) (ok-injective h) (lookup-append k merged _ v found)
merge_field-keeps field value merged merged' (some old) h k v found =
    subst (λ m. lookup k m ≡ some v) (guarded-eq-ok (val_eq old value) _ h).1 found

merge_field-Holds :
    (field : String) (value : Value) (merged merged' : Row) (o : Option Value)
    → lookup field merged ≡ o
    → merge_field field value merged o ≡ ok merged'
    → Holds merged' field value
merge_field-Holds field value merged merged' none found h = (
  value,
  subst (λ m. lookup field m ≡ some value) (ok-injective h)
      (lookup-append_new field merged value found),
  inl refl,
)
merge_field-Holds field value merged merged' (some old) found h =
    let (equal, same) = guarded-eq-ok (val_eq old value) _ h in
    (old, subst (λ m. lookup field m ≡ some old) same found, inr equal)

-- One round of the loop.
abbrev round : List String → String → Value → Row → Result CompositionError Row
round join_keys field value merged =
    if elem field join_keys then ok merged else merge_field field value merged (lookup field merged)

round-keeps :
    (join_keys : List String) (field : String) (value : Value) (merged merged' : Row)
    → round join_keys field value merged ≡ ok merged'
    → (k : String) (v : Value) → lookup k merged ≡ some v
    → lookup k merged' ≡ some v
round-keeps join_keys field value merged merged' h k v found = by_key (elem field join_keys) h
  where
    by_key :
        (b : Bool)
        → ◌≡◌ {A = Result CompositionError Row}
            (if b then ok merged else merge_field field value merged (lookup field merged))
            (ok merged')
        → lookup k merged' ≡ some v
    by_key true e = subst (λ m. lookup k m ≡ some v) (ok-injective e) found
    by_key false e = merge_field-keeps field value merged merged' _ e k v found

round-Holds :
    (join_keys : List String) (field : String) (value : Value) (merged merged' : Row)
    → round join_keys field value merged ≡ ok merged'
    → elem field join_keys ≡ false
    → Holds merged' field value
round-Holds join_keys field value merged merged' h free =
    merge_field-Holds field value merged merged' _ refl (rw free at h)

-- Whatever the merged row says of a field it keeps saying while fields are added.
merge_rows-keeps :
    (join_keys : List String) (merged fields result : Row)
    → merge_rows join_keys merged fields ≡ ok result
    → (k : String) (v : Value) → lookup k merged ≡ some v
    → lookup k result ≡ some v
unfolding merge_rows
merge_rows-keeps join_keys merged [] result h k v found =
    subst (λ m. lookup k m ≡ some v) (ok-injective h) found
merge_rows-keeps join_keys merged ((field, value) ∷ fields) result h k v found =
    let (merged', first, more) = >>=-eq-ok (round join_keys field value merged) _ h in
    merge_rows-keeps join_keys merged' fields result more k v
      (round-keeps join_keys field value merged merged' first k v found)

merge_rows-Holds :
    (join_keys : List String) (merged fields result : Row)
    → merge_rows join_keys merged fields ≡ ok result
    → (k : String) (v : Value) → elem k join_keys ≡ false
    → lookup k fields ≡ some v
    → Holds result k v
unfolding merge_rows
merge_rows-Holds join_keys merged [] result h k v free found = cc
merge_rows-Holds join_keys merged ((field, value) ∷ fields) result h k v free found =
    let (merged', first, more) = >>=-eq-ok (round join_keys field value merged) _ h in
    by_field merged' first more (field == k) refl found
      (merge_rows-Holds join_keys merged' fields result more k v free)
  where
    by_field :
        (merged' : Row)
        → round join_keys field value merged ≡ ok merged'
        → merge_rows join_keys merged' fields ≡ ok result
        → (b : Bool) → (field == k) ≡ b
        → (if b then some value else lookup k fields) ≡ some v
        → (lookup k fields ≡ some v → Holds result k v)
        → Holds result k v
    by_field merged' first more false e here ih = ih here
    by_field merged' first more true e here ih =
        let same : field ≡ k = (eq_iff field k).0 e in
        let (w, at, equal) =
          round-Holds join_keys field value merged merged' first
            (subst (λ j. elem j join_keys ≡ false) (sym same) free) in
        (
          w,
          merge_rows-keeps join_keys merged' fields result more k w
              (subst (λ j. lookup j merged' ≡ some w) same at),
          subst (λ u. (w ≡ u) ⊎ (val_eq w u ≡ true)) (some_inj here) equal,
        )

-- Two rows that merge without a conflict give a row that has, for each field, the value of the left
-- row if that has the field; and if the right row has the field and it is no join key, the value of
-- the right row or one that is equal to it.
pub merge_rows-preserves :
    (join_keys : List String) (left right merged : Row) (k : String)
    → merge_rows join_keys left right ≡ ok merged
    → ((lookup k left ≡ none) ⊎ (lookup k merged ≡ lookup k left))
      × ((elem k join_keys ≡ true)
          ⊎ ((lookup k right ≡ none)
              ⊎ ((v : Value) × (lookup k right ≡ some v) × Holds merged k v)))
merge_rows-preserves join_keys left right merged k h = (
  elim (Option-cases (lookup k left)) [
    | inl absent ↦ inl absent
    | inr (v, found) ↦ inr (merge_rows-keeps join_keys left right merged h k v found ∙ sym found)
  ],
  elim (Bool-cases (elem k join_keys)) [
    | inl key ↦ inl key
    | inr free ↦ inr (elim (Option-cases (lookup k right)) [
      | inl absent ↦ inl absent
      | inr (v, found) ↦
          inr (v, found, merge_rows-Holds join_keys left right merged h k v free found)
    ])
  ],
)
