-- ===== src/Planning/Found.antt =====
-- Where the subqueries that `topological_order` returns come from.
use text2cypher_manufacturin.Common.{
  ℕ, zero, suc, ◌≡◌, refl, sym, subst, String, Bool, true, false, Option, none, some, List, [], ◌∷◌,
  ◌==◌, All, All-append, length, Result, ok, ok-injective, some_inj, if◌then◌else◌, if_ind,
  is_empty,
}
use text2cypher_manufacturin.Plan.{Subquery}
use text2cypher_manufacturin.Planning.Texts.{PlanError, has_duplicates}
use text2cypher_manufacturin.Planning.Order.{
  ids, find, Pending, settle, append_found, settle_all, ready_ids, order_from, topological_order,
  all_pending,
}
use text2cypher_manufacturin.Planning.Sorted.{find-id}

-- A property of what an id finds among the items.
module _ (P : Subquery → Type 0) (items : List Subquery)
    (finds : (k : String) (s : Subquery) → find k items ≡ some s → P s) where
  append_found-All :
      (ordered : List Subquery) (o : Option Subquery)
      → All P ordered
      → ((s : Subquery) → o ≡ some s → P s)
      → All P (append_found ordered o)
  append_found-All ordered none h k = h
  append_found-All ordered (some s) h k = All-append P ordered (s ∷ []) h (k s refl, tt)

  settle_all-All :
      (ready : List String) (pending : Pending) (ordered : List Subquery)
      → All P ordered
      → All P (settle_all items ready pending ordered).1
  unfolding settle_all
  settle_all-All [] pending ordered o = o
  settle_all-All (k ∷ ready) pending ordered o =
      settle_all-All ready (settle k pending) (append_found ordered (find k items))
        (append_found-All ordered (find k items) o (finds k))

  order_from-All :
      (fuel : ℕ) (pending : Pending) (ordered plan : List Subquery)
      → All P ordered
      → order_from items fuel pending ordered ≡ ok plan
      → All P plan
  unfolding order_from
  order_from-All fuel [] ordered plan o e = subst (All P) (ok-injective e) o
  order_from-All zero (entry ∷ pending) ordered plan o e = cc
  order_from-All (suc fuel) (entry ∷ pending) ordered plan o e =
      let ready = ready_ids items (entry ∷ pending) in
      let after = settle_all items ready (entry ∷ pending) ordered in
      if_ind (λ (r : Result PlanError (List Subquery)). r ≡ ok plan → All P plan) (is_empty ready)
        (λ _ e. cc)
        (λ _ e.
          order_from-All fuel after.0 after.1 plan
            (settle_all-All ready (entry ∷ pending) ordered o) e)
        e

  pub topological_order-All :
      (plan : List Subquery) → topological_order items ≡ ok plan → All P plan
  unfolding topological_order
  topological_order-All plan =
      if_ind (λ (r : Result PlanError (List Subquery)). r ≡ ok plan → All P plan)
        (has_duplicates (ids items)) (λ _ e. cc)
        (λ _ e. order_from-All (length items) (all_pending items) [] plan tt e)

pub find-All :
    (P : Subquery → Type 0) (items : List Subquery)
    → All P items
    → (k : String) (s : Subquery) → find k items ≡ some s
    → P s
find-All P [] h k s e = cc
find-All P (x ∷ items) (first, h) k s e = by_id (x.id == k) e (find-All P items h k s)
  where
    by_id :
        (b : Bool)
        → (if b then some x else find k items) ≡ some s
        → (find k items ≡ some s → P s)
        → P s
    by_id true e ih = subst P (some_inj e) first
    by_id false e ih = ih e

-- What an id finds is found by its own id.
pub find-own :
    (items : List Subquery) (k : String) (s : Subquery)
    → find k items ≡ some s
    → find s.id items ≡ some s
find-own items k s e = subst (λ j. find j items ≡ some s) (sym (find-id k items s e)) e
