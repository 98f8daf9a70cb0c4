-- ===== src/Planning/Rounds.antt =====
-- The rounds of `topological_order`, counted.
use text2cypher_manufacturin.Common.{
  ℕ, zero, suc, ◌≤◌, ◌<◌, ◌≡◌, ◌≢◌, refl, ap, String, Bool, true, false, some, List, [], ◌∷◌, arith,
  ◌==◌, keep, is_empty, length, lookup, Result, err, if◌then◌else◌,
}
use text2cypher_manufacturin.Plan.{Subquery}
use text2cypher_manufacturin.Planning.Texts.{
  PlanError, ids_not_unique, cyclic, unfinished, has_duplicates,
}
use text2cypher_manufacturin.Planning.Order.{
  ids, find, Pending, all_pending, discard, settle, append_found, settle_all, is_free, ready_ids,
  order_from, topological_order,
}
use native.Mathlib.Nat.{le_refl}

length-settle-le : (k : String) (pending : Pending) → length (settle k pending) ≤ length pending
unfolding settle
length-settle-le k [] = omega arith
length-settle-le k ((j, deps) ∷ pending) = by_key (j == k) (length-settle-le k pending)
  where
    by_key :
        (b : Bool)
        → length (settle k pending) ≤ length pending
        → length (if b then settle k pending else (j, discard k deps) ∷ settle k pending)
          ≤ suc (length pending)
    by_key true ih = omega arith
    by_key false ih = omega arith

length-settle-lt :
    (k : String) (pending : Pending)
    → is_free (lookup k pending) ≡ true
    → length (settle k pending) < length pending
unfolding settle
length-settle-lt k [] h = cc
length-settle-lt k ((j, deps) ∷ pending) h =
    by_key (j == k) h (length-settle-le k pending) (length-settle-lt k pending)
  where
    by_key :
        (b : Bool)
        → is_free (if b then some deps else lookup k pending) ≡ true
        → length (settle k pending) ≤ length pending
        → (is_free (lookup k pending) ≡ true → length (settle k pending) < length pending)
        → length (if b then settle k pending else (j, discard k deps) ∷ settle k pending)
          < suc (length pending)
    by_key true e le ih = omega arith
    by_key false e le ih = omega (arith, ih e)

length-settle_all-le :
    (items : List Subquery) (ready : List String) (pending : Pending) (ordered : List Subquery)
    → length (settle_all items ready pending ordered).0 ≤ length pending
unfolding settle_all
length-settle_all-le items [] pending ordered = le_refl _
length-settle_all-le items (k ∷ ready) pending ordered = omega (
  arith,
  length-settle-le k pending,
  length-settle_all-le items ready (settle k pending) (append_found ordered (find k items)),
)

-- The first of the names that a test keeps passes it.
kept_first :
    (p : String → Bool) (ks : List String) (k : String) (rest : List String)
    → keep p ks ≡ k ∷ rest
    → p k ≡ true
kept_first p [] k rest h = cc
kept_first p (j ∷ ks) k rest h = by_test (p j) refl h (kept_first p ks k rest)
  where
    by_test :
        (b : Bool)
        → p j ≡ b
        → (let more = keep p ks in if b then j ∷ more else more) ≡ k ∷ rest
        → (keep p ks ≡ k ∷ rest → p k ≡ true)
        → p k ≡ true
    by_test true e same ih = cc
    by_test false e same ih = ih same

module _ (items : List Subquery) where
  settle_all-progress :
      (pending : Pending) (ordered : List Subquery) (ready : List String)
      → ready_ids items pending ≡ ready
      → is_empty ready ≡ false
      → length (settle_all items ready pending ordered).0 < length pending
  unfolding settle_all
  settle_all-progress pending ordered [] e h = cc
  settle_all-progress pending ordered (k ∷ ready) e h = omega (
    arith,
    length-settle-lt k pending (kept_first _ (ids items) k ready e),
    length-settle_all-le items ready (settle k pending) (append_found ordered (find k items)),
  )

  order_from-ends :
      (fuel : ℕ) (pending : Pending) (ordered : List Subquery)
      → length pending ≤ fuel
      → order_from items fuel pending ordered ≢ err unfinished
  unfolding order_from
  order_from-ends fuel [] ordered h e = cc
  order_from-ends zero (entry ∷ pending) ordered h e = omega arith
  order_from-ends (suc fuel) (entry ∷ pending) ordered h e =
      by_ready (is_empty (ready_ids items (entry ∷ pending))) refl e
        (order_from-ends fuel after.0 after.1)
    where
      after : Pending × List Subquery
      after = settle_all items (ready_ids items (entry ∷ pending)) (entry ∷ pending) ordered

      by_ready :
          (b : Bool)
          → is_empty (ready_ids items (entry ∷ pending)) ≡ b
          → (if b then err cyclic else order_from items fuel after.0 after.1) ≡ err unfinished
          → (length after.0 ≤ fuel → order_from items fuel after.0 after.1 ≢ err unfinished)
          → ⊥
      by_ready true f g ih = cc
      by_ready false f g ih =
          ih (omega (arith, settle_all-progress (entry ∷ pending) ordered _ refl f)) g

length-all_pending : (items : List Subquery) → length (all_pending items) ≡ length items
length-all_pending [] = refl
length-all_pending (s ∷ items) = ap suc (length-all_pending items)

-- The topological order of any subqueries never needs more rounds than there are subqueries.
pub topological_order-ends : (items : List Subquery) → topological_order items ≢ err unfinished
unfolding topological_order
topological_order-ends items = by_ids (has_duplicates (ids items))
  where
    by_ids :
        (b : Bool)
        → ◌≢◌ {A = Result PlanError (List Subquery)}
            (if b
              then err ids_not_unique
              else order_from items (length items) (all_pending items) [])
            (err unfinished)
    by_ids true h = cc
    by_ids false h =
        order_from-ends items (length items) (all_pending items) []
          (omega (arith, length-all_pending items)) h
