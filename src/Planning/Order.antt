-- ===== src/Planning/Order.antt =====
-- `_topological_order`, on subqueries whose ids are distinct, which the caller has checked too.
use text2cypher_manufacturin.Common.{
  ℕ, zero, suc, String, Bool, true, false, not, Option, none, some, List, [], ◌∷◌, ◌++◌, ◌==◌, keep,
  is_empty, length, Dict, lookup, Result, ok, err, if◌then◌else◌,
}
use text2cypher_manufacturin.Plan.{Subquery}
use text2cypher_manufacturin.Planning.Texts.{
  PlanError, ids_not_unique, cyclic, unfinished, has_duplicates,
}

abbrev pub ids : List Subquery → List String
ids [] = []
ids (s ∷ subqueries) = s.id ∷ ids subqueries

-- by_id[k]
abbrev pub find : String → List Subquery → Option Subquery
find k [] = none
find k (s ∷ items) = if s.id == k then some s else find k items

-- The dependencies that each subquery waits for.
abbrev pub Pending : Type 0
Pending = Dict (List String)

abbrev pub all_pending : List Subquery → Pending
all_pending [] = []
all_pending (s ∷ items) = (s.id, s.depends_on) ∷ all_pending items

-- dependencies.discard(k)
abbrev pub discard : String → List String → List String
discard k deps = keep (λ d. not (k == d)) deps

-- del pending[k], and k is discarded from the rest.
unfoldable pub settle : String → Pending → Pending
settle k [] = []
settle k ((j, deps) ∷ pending) =
    let rest = settle k pending in if j == k then rest else (j, discard k deps) ∷ rest

abbrev pub append_found : List Subquery → Option Subquery → List Subquery
append_found ordered none = ordered
append_found ordered (some s) = ordered ++ s ∷ []

-- for subquery_id in ready
unfoldable pub settle_all :
    List Subquery → List String → Pending → List Subquery → Pending × List Subquery
settle_all items [] pending ordered = (pending, ordered)
settle_all items (k ∷ ready) pending ordered =
    settle_all items ready (settle k pending) (append_found ordered (find k items))

-- item["id"] in pending and not pending[item["id"]]
abbrev pub is_free : Option (List String) → Bool
is_free (some []) = true
is_free _ = false

abbrev pub ready_ids : List Subquery → Pending → List String
ready_ids items pending = keep (λ k. is_free (lookup k pending)) (ids items)

-- while pending
unfoldable pub order_from :
    List Subquery → (fuel : ℕ) → Pending → List Subquery → Result PlanError (List Subquery)
order_from items fuel [] ordered = ok ordered
order_from items zero (entry ∷ pending) ordered = err unfinished
order_from items (suc fuel) (entry ∷ pending) ordered =
    let ready = ready_ids items (entry ∷ pending) in
    let (pending', ordered') = settle_all items ready (entry ∷ pending) ordered in
    let rest = order_from items fuel pending' ordered' in
    if is_empty ready then err cyclic else rest

unfoldable pub topological_order : List Subquery → Result PlanError (List Subquery)
topological_order items =
    if has_duplicates (ids items)
    then err ids_not_unique
    else order_from items (length items) (all_pending items) []
