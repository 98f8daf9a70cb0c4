-- ===== src/Planning/Sorted.antt =====
-- `validate_subqueries` and `execute_plan` together: the order of a validated plan.
mod Settling
pub use Settling.*
use text2cypher_manufacturin.Common.{
  ℕ, zero, suc, ◌≡◌, refl, ap, sym, ◌∙◌, subst, String, Bool, true, false, not, ◌||◌, Option, none,
  some, List, [], ◌∷◌, ◌++◌, arith, ◌==◌, eq_iff, eq_refl, all→All, all, elem, elem-append, keep,
  is_empty, length, lookup, Result, ok, err, >>=-eq-ok, ok-injective, some_inj, All, All-mono,
  if◌then◌else◌, has_key, ltb,
}
use text2cypher_manufacturin.Python.{Value}
use text2cypher_manufacturin.Plan.{Subquery}
use text2cypher_manufacturin.ExecutePlan.{Env, execute_plan}
use text2cypher_manufacturin.ExecutePlan.Termination.{OnDone}
use text2cypher_manufacturin.ExecutePlan.Outcome.{IsOrdered, all_mono, execute_plan-completes}
use text2cypher_manufacturin.Planning.Texts.{
  PlanError, too_many, tools_not_unique, ids_not_unique, cyclic, keys_on_one_side, keys_differ,
  has_duplicates,
}
use text2cypher_manufacturin.Planning.Order.{
  ids, find, Pending, all_pending, discard, settle, append_found, settle_all, is_free, ready_ids,
  order_from, topological_order,
}
use text2cypher_manufacturin.Planning.Validate.{
  validate_subqueries, validate_each, check_keys, check, check_items, raw_list, tool_names,
  max_subqueries,
}

all_self : (ks : List String) → all (λ d. elem d ks) ks ≡ true
all_self [] = refl
all_self (k ∷ ks) =
    let rest =
      all_mono (λ d. elem d ks) (λ d. elem d (k ∷ ks)) ks (λ d e. ground (arith, e))
        (all_self ks) in
    ground (arith, rest, eq_refl k)

All-keep :
    (P Q : String → Type 0) (p : String → Bool) (ks : List String)
    → ((k : String) → P k → p k ≡ true → Q k)
    → All P ks
    → All Q (keep p ks)
All-keep P Q p [] f h = tt
All-keep P Q p (k ∷ ks) f h = by_test (p k) refl (All-keep P Q p ks f h.1)
  where
    by_test :
        (b : Bool)
        → p k ≡ b
        → All Q (keep p ks)
        → All Q (let rest = keep p ks in if b then k ∷ rest else rest)
    by_test true e ih = (f k h.0 e, ih)
    by_test false e ih = ih

find-elem :
    (k : String) (items : List Subquery)
    → elem k (ids items) ≡ true
    → (s : Subquery) × (find k items ≡ some s)
find-elem k [] h = cc
find-elem k (s ∷ items) h = by_id (s.id == k) refl (find-elem k items)
  where
    by_id :
        (b : Bool)
        → (s.id == k) ≡ b
        → (elem k (ids items) ≡ true → (t : Subquery) × (find k items ≡ some t))
        → (t : Subquery) × ((if b then some s else find k items) ≡ some t)
    by_id true e ih = (s, refl)
    by_id false e ih = ih (ground (arith, e, h, eq_iff k s.id, eq_iff s.id k))

is_free-eq : (o : Option (List String)) → is_free o ≡ true → o ≡ some []
is_free-eq none h = cc
is_free-eq (some []) h = refl
is_free-eq (some (d ∷ deps)) h = cc

ready_ids-IsReady :
    (items : List Subquery) (pending : Pending) (ordered : List Subquery)
    → Covered items pending ordered
    → All (IsReady items ordered) (ready_ids items pending)
ready_ids-IsReady items pending ordered covered =
    All-keep (λ k. elem k (ids items) ≡ true) (IsReady items ordered) _ (ids items)
      (λ k listed free.
        let (s, found) = find-elem k items listed in
        (s, found, covered k s [] found (is_free-eq (lookup k pending) free)))
      (all→All (λ d. elem d (ids items)) (ids items) (all_self (ids items)))

all_pending-lookup :
    (k : String) (items : List Subquery) (s : Subquery) (deps : List String)
    → find k items ≡ some s
    → lookup k (all_pending items) ≡ some deps
    → deps ≡ s.depends_on
all_pending-lookup k [] s deps h g = cc
all_pending-lookup k (x ∷ items) s deps h g =
    by_id (x.id == k) h g (all_pending-lookup k items s deps)
  where
    by_id :
        (b : Bool)
        → (if b then some x else find k items) ≡ some s
        → (if b then some x.depends_on else lookup k (all_pending items)) ≡ some deps
        → (find k items ≡ some s → lookup k (all_pending items) ≡ some deps → deps ≡ s.depends_on)
        → deps ≡ s.depends_on
    by_id true found waits ih = sym (some_inj waits) ∙ ap (λ t. t.depends_on) (some_inj found)
    by_id false found waits ih = ih found waits

all_pending-Covered : (items : List Subquery) → Covered items (all_pending items) []
all_pending-Covered items k s deps found waits =
    let same = all_pending-lookup k items s deps found waits in
    subst (λ ks. all (λ d. elem d ks || elem d []) s.depends_on ≡ true) (sym same)
      (all_mono _ _ s.depends_on (λ d e. ground (arith, e)) (all_self s.depends_on))

order_from-IsOrdered :
    (items : List Subquery) (fuel : ℕ) (pending : Pending) (ordered plan : List Subquery)
    → IsOrdered (λ _. false) ordered
    → Covered items pending ordered
    → order_from items fuel pending ordered ≡ ok plan
    → IsOrdered (λ _. false) plan
unfolding order_from
order_from-IsOrdered items fuel [] ordered plan o c h =
    subst (IsOrdered (λ _. false)) (ok-injective h) o
order_from-IsOrdered items zero (entry ∷ pending) ordered plan o c h = cc
order_from-IsOrdered items (suc fuel) (entry ∷ pending) ordered plan o c h =
    let (o', c') =
      settle_all-IsOrdered items (ready_ids items (entry ∷ pending)) (entry ∷ pending) ordered o c
        (ready_ids-IsReady items (entry ∷ pending) ordered c) in
    by_ready (is_empty (ready_ids items (entry ∷ pending))) h
      (order_from-IsOrdered items fuel after.0 after.1 plan o' c')
  where
    after : Pending × List Subquery
    after = settle_all items (ready_ids items (entry ∷ pending)) (entry ∷ pending) ordered

    by_ready :
        (b : Bool)
        → (if b then err cyclic else order_from items fuel after.0 after.1) ≡ ok plan
        → (order_from items fuel after.0 after.1 ≡ ok plan → IsOrdered (λ _. false) plan)
        → IsOrdered (λ _. false) plan
    by_ready true e ih = cc
    by_ready false e ih = ih e

pub topological_order-IsOrdered :
    (items plan : List Subquery) → topological_order items ≡ ok plan → IsOrdered (λ _. false) plan
unfolding topological_order
topological_order-IsOrdered items plan = by_ids (has_duplicates (ids items))
  where
    by_ids :
        (b : Bool)
        → ◌≡◌ {A = Result PlanError (List Subquery)}
            (if b
              then err ids_not_unique
              else order_from items (length items) (all_pending items) [])
            (ok plan)
        → IsOrdered (λ _. false) plan
    by_ids true h = cc
    by_ids false h =
        order_from-IsOrdered items (length items) (all_pending items) [] plan tt
          (all_pending-Covered items) h

pub check_keys-same : (ordered plan : List Subquery) → check_keys ordered ≡ ok plan → ordered ≡ plan
check_keys-same [] plan h = ok-injective h
check_keys-same (x ∷ []) plan h = ok-injective h
check_keys-same (x ∷ y ∷ []) plan h = by_tests _ _ h
  where
    by_tests :
        (a b : Bool)
        → ◌≡◌ {A = Result PlanError (List Subquery)}
            (if a then err keys_on_one_side else if b then err keys_differ else ok (x ∷ y ∷ []))
            (ok plan)
        → x ∷ y ∷ [] ≡ plan
    by_tests true b h = cc
    by_tests false true h = cc
    by_tests false false h = ok-injective h
check_keys-same (x ∷ y ∷ z ∷ rest) plan h = ok-injective h

validate_subqueries-IsOrdered :
    (allow_empty : Bool) (raw : Value) (plan : List Subquery)
    → validate_subqueries allow_empty raw ≡ ok plan
    → IsOrdered (λ _. false) plan
unfolding validate_subqueries
validate_subqueries-IsOrdered allow_empty raw plan h =
    let (raws, _, h1) = >>=-eq-ok (raw_list raw) _ h in
    let (_, _, h2) = >>=-eq-ok (check (not (ltb max_subqueries (length raws))) too_many) _ h1 in
    let (items, _, h3) = >>=-eq-ok (validate_each allow_empty 0 raws) _ h2 in
    let (_, _, h4) = >>=-eq-ok (check (not (has_duplicates (ids items))) ids_not_unique) _ h3 in
    let (_, _, h5) =
      >>=-eq-ok (check (not (has_duplicates (tool_names items))) tools_not_unique) _ h4 in
    let (_, _, h6) = >>=-eq-ok (check_items items items) _ h5 in
    let (ordered, sorted, h7) = >>=-eq-ok (topological_order items) _ h6 in
    subst (IsOrdered (λ _. false)) (check_keys-same ordered plan h7)
      (topological_order-IsOrdered items ordered sorted)

-- The loop over the subqueries of a plan that passes the validation neither stalls nor runs out of
-- waves: either it runs to its end, and then each subquery has an outcome, or it ends by an
-- exception, and then some call of an agent raises that exception.
pub validate_subqueries-completes :
    (env : Env) (allow_empty : Bool) (raw : Value) (plan : List Subquery)
    → validate_subqueries allow_empty raw ≡ ok plan
    → OnDone env (λ p. All (λ s. has_key s.id p.outcomes ≡ true) plan) ⊥ (execute_plan env plan)
validate_subqueries-completes env allow_empty raw plan h =
    execute_plan-completes env plan (validate_subqueries-IsOrdered allow_empty raw plan h)
