-- ===== src/Planning/Routes.antt =====
-- What a route that passes `validate_route_subqueries` is.
use text2cypher_manufacturin.Common.{
  ℕ, ◌+◌, ◌≡◌, refl, sym, ◌∙◌, ap, subst, String, true, false, not, ◌&&◌, Option, none, some, List,
  [], ◌∷◌, ◌==◌, all, elem, All, All-mono, length, lookup, Dict, Result, ok, err, >>=-eq-ok,
  ok-injective, some_inj, arith, if◌then◌else◌, if_ind, is_empty, ltb, eqb, guarded-eq-ok,
}
use text2cypher_manufacturin.Python.{Value, none_value, as_row}
use text2cypher_manufacturin.Plan.{Subquery, split_dot}
use text2cypher_manufacturin.Compose.{same_set, strings_eq}
use text2cypher_manufacturin.ExecutePlan.Outcome.{IsOrdered}
use text2cypher_manufacturin.Planning.Texts.{
  PlanError, has_duplicates, too_many, ids_not_unique, tools_not_unique, keys_on_one_side,
  keys_differ, unknown_fields, string_list, keys_not_shared, unknown_dependency,
  dependencies_unbound, binding_not_owned,
}
use text2cypher_manufacturin.Planning.Order.{ids, find, topological_order}
use text2cypher_manufacturin.Planning.Validate.{
  check, raw_list, max_subqueries, tool_names, check_keys, object_at, id_of, tool_of, question_of,
  or_default,
}
use text2cypher_manufacturin.Planning.Route.{
  Aliases, owned, route_subquery, route_each, check_owner, route_source, route_sources, route_item,
  route_items, validate_route_subqueries, has_fields, route_fields, compile_binding_array,
}
use text2cypher_manufacturin.Planning.Sorted.{topological_order-IsOrdered, check_keys-same}
use text2cypher_manufacturin.Planning.Found.{topological_order-All, find-All, find-own}

-- Two sources have the same join keys in the same order, which may be none.
abbrev pub IsMatched : List Subquery → Type 0
IsMatched (first ∷ second ∷ []) = strings_eq first.join_keys second.join_keys ≡ true
IsMatched plan = Unit

check_keys-IsMatched :
    (ordered plan : List Subquery) → check_keys ordered ≡ ok plan → IsMatched ordered
check_keys-IsMatched [] plan h = tt
check_keys-IsMatched (x ∷ []) plan h = tt
check_keys-IsMatched (x ∷ y ∷ []) plan h = by_keys x.join_keys y.join_keys h
  where
    by_keys :
        (ks ls : List String)
        → ◌≡◌ {A = Result PlanError (List Subquery)}
            (if not (eqb (if is_empty ks then 0 else 1) (if is_empty ls then 0 else 1))
              then err keys_on_one_side
              else if not (is_empty ks) && not (strings_eq ks ls)
              then err keys_differ
              else ok (x ∷ y ∷ []))
            (ok plan)
        → strings_eq ks ls ≡ true
    by_keys [] [] h = refl
    by_keys [] (l ∷ ls) h = cc
    by_keys (k ∷ ks) [] h = cc
    by_keys (k ∷ ks) (l ∷ ls) h =
        if_ind
          (λ (r : Result PlanError (List Subquery)).
            r ≡ ok plan → strings_eq (k ∷ ks) (l ∷ ls) ≡ true)
          (not (strings_eq (k ∷ ks) (l ∷ ls))) (λ _ e. cc) (λ same _. ground (arith, same)) h
check_keys-IsMatched (x ∷ y ∷ z ∷ rest) plan h = tt

module _ (shared : List String) (catalog : Aliases) where
  abbrev pub IsShared : Subquery → Type 0
  IsShared s = all (λ k. elem k shared) s.join_keys ≡ true

  route_subquery-IsShared :
      (index : ℕ) (raw : Value) (item : Subquery)
      → route_subquery shared index raw ≡ ok item
      → IsShared item
  unfolding route_subquery
  route_subquery-IsShared index raw item h =
      let (row, _, h1) = >>=-eq-ok (object_at index (as_row raw)) _ h in
      let (_, _, h2) =
        >>=-eq-ok (check (has_fields route_fields row) (unknown_fields index)) _ h1 in
      let (id, _, h3) = >>=-eq-ok (id_of index (lookup "id" row)) _ h2 in
      let (tool, _, h4) = >>=-eq-ok (tool_of id (lookup "tool" row)) _ h3 in
      let (question, _, h5) = >>=-eq-ok (question_of id (lookup "question" row)) _ h4 in
      let (deps, _, h6) =
        >>=-eq-ok (string_list (or_default none_value (lookup "dependsOn" row)) "dependsOn" id) _
          h5 in
      let (keys, _, h7) =
        >>=-eq-ok (string_list (or_default none_value (lookup "joinKeys" row)) "joinKeys" id) _
          h6 in
      let (_, known, h8) =
        >>=-eq-ok (check (all (λ k. elem k shared) keys) (keys_not_shared id)) _ h7 in
      let (_, _, h9) =
        >>=-eq-ok (compile_binding_array id (or_default none_value (lookup "inputBindings" row))) _
          h8 in
      subst (λ (s : Subquery). IsShared s) (ok-injective h9)
        (guarded-eq-ok (all (λ k. elem k shared) keys) (keys_not_shared id) known).0

  route_each-IsShared :
      (index : ℕ) (raws : List Value) (items : List Subquery)
      → route_each shared index raws ≡ ok items
      → All IsShared items
  unfolding route_each
  route_each-IsShared index [] items h = subst (All IsShared) (ok-injective h) tt
  route_each-IsShared index (raw ∷ raws) items h =
      let (item, e, h1) = >>=-eq-ok (route_subquery shared index raw) _ h in
      let (rest, e1, h2) = >>=-eq-ok (route_each shared (index + 1) raws) _ h1 in
      subst (All IsShared) (ok-injective h2)
        (route_subquery-IsShared index raw item e, route_each-IsShared (index + 1) raws rest e1)

  -- The bindings of a subquery refer to these subqueries, in order: each is a dependency, and
  -- whichever of `plan` it is, its tool owns the output that the binding names.
  abbrev pub Sourced : (plan : List Subquery) → Subquery → Dict String → List String → Type 0
  Sourced plan s [] [] = Unit
  Sourced plan s ((target, source) ∷ bindings) (d ∷ deps) =
      (output : String) × (split_dot source ≡ some (d, output))
      × (elem d s.depends_on ≡ true)
      × All (λ producer. producer.id ≡ d → owned producer.tool output catalog ≡ true) plan
      × Sourced plan s bindings deps
  Sourced plan s _ _ = ⊥

  -- A subquery depends on exactly the subqueries that its bindings refer to.
  abbrev pub IsBound : (plan : List Subquery) → Subquery → Type 0
  IsBound plan s =
      (deps : List String) × Sourced plan s s.input_bindings deps
      × (same_set s.depends_on deps ≡ true)

  check_owner-owned :
      (id k output d : String) (o : Option Subquery)
      → check_owner id k output catalog o ≡ ok d
      → (k ≡ d)
        × (producer : Subquery) × (o ≡ some producer)
        × (owned producer.tool output catalog ≡ true)
  check_owner-owned id k output d none h = cc
  check_owner-owned id k output d (some producer) h =
      let (owns, same) =
        guarded-eq-ok (owned producer.tool output catalog) (binding_not_owned id output) h in
      (same, producer, refl, owns)

  -- Each of these is the one that its id finds.
  abbrev Found : List Subquery → Subquery → Type 0
  Found items s = find s.id items ≡ some s

  module _ (items plan : List Subquery) (found : All (Found items) plan) where
    found-owned :
        (d output : String) (producer : Subquery)
        → find d items ≡ some producer
        → owned producer.tool output catalog ≡ true
        → All (λ p. p.id ≡ d → owned p.tool output catalog ≡ true) plan
    found-owned d output producer e o =
        All-mono _ _ plan
          (λ p f same.
            subst (λ q. owned q.tool output catalog ≡ true)
              (some_inj (sym e ∙ (ap (λ k. find k items) (sym same) ∙ f))) o)
          found

    route_sources-Sourced :
        (s : Subquery) (bindings : Dict String) (deps : List String)
        → route_sources catalog items s bindings ≡ ok deps
        → Sourced plan s bindings deps
    unfolding route_sources
    route_sources-Sourced s [] deps h = subst (Sourced plan s []) (ok-injective h) tt
    route_sources-Sourced s ((target, source) ∷ bindings) deps h =
        let (d, e, h1) = >>=-eq-ok (route_source catalog items s (split_dot source)) _ h in
        let (rest, e1, h2) = >>=-eq-ok (route_sources catalog items s bindings) _ h1 in
        let (output, split, depends, owns) = by_source (split_dot source) d e in
        subst (Sourced plan s ((target, source) ∷ bindings)) (ok-injective h2)
          (output, split, depends, owns, route_sources-Sourced s bindings rest e1)
      where
        by_source :
            (o : Option (String × String)) (d : String)
            → route_source catalog items s o ≡ ok d
            → (output : String) × (o ≡ some (d, output))
              × (elem d s.depends_on ≡ true)
              × All (λ producer. producer.id ≡ d → owned producer.tool output catalog ≡ true) plan
        by_source none d e = cc
        by_source (some (k, output)) d e =
            if_ind
              (λ (r : Result PlanError String).
                r ≡ ok d
                → (output' : String) × ◌≡◌ {A = Option (String × String)} (some (k, output))
                    (some (d, output'))
                  × (elem d s.depends_on ≡ true)
                  × All (λ producer. producer.id ≡ d → owned producer.tool output' catalog ≡ true)
                      plan)
              (elem k s.depends_on)
              (λ depends e.
                let (same, producer, is_producer, owns) =
                  check_owner-owned s.id k output d (find k items) e in
                (
                  output,
                  ap (λ j. some (j, output)) same,
                  subst (λ j. elem j s.depends_on ≡ true) same depends,
                  subst (λ j. All (λ p. p.id ≡ j → owned p.tool output catalog ≡ true) plan) same
                      (found-owned k output producer is_producer owns),
                ))
              (λ _ e. cc) e

    route_item-IsBound : (s : Subquery) → route_item catalog items s ≡ ok tt → IsBound plan s
    unfolding route_item
    route_item-IsBound s h =
        let (_, _, h1) =
          >>=-eq-ok
            (check (all (λ d. not (d == s.id) && elem d (ids items)) s.depends_on)
              (unknown_dependency s.id))
            _ h in
        let (deps, e, h2) = >>=-eq-ok (route_sources catalog items s s.input_bindings) _ h1 in
        (
          deps,
          route_sources-Sourced s s.input_bindings deps e,
          (guarded-eq-ok (same_set s.depends_on deps) (dependencies_unbound s.id) h2).0,
        )

    route_items-IsBound :
        (rest : List Subquery) → route_items catalog items rest ≡ ok tt → All (IsBound plan) rest
    unfolding route_items
    route_items-IsBound [] h = tt
    route_items-IsBound (s ∷ rest) h =
        let (done, e, h1) = >>=-eq-ok (route_item catalog items s) _ h in
        (route_item-IsBound s e, route_items-IsBound rest h1)

  -- A route: each subquery stands behind those that it depends on, which are exactly those that its
  -- bindings refer to; each binding names an output that the source's tool owns; the join keys are
  -- shared identities, and the same on both sides.
  abbrev pub IsRoute : List Subquery → Type 0
  IsRoute plan =
      IsOrdered (λ _. false) plan × IsMatched plan × All (λ s. IsShared s × IsBound plan s) plan

  both :
      (P Q : Subquery → Type 0) (xs : List Subquery) → All P xs → All Q xs → All (λ x. P x × Q x) xs
  both P Q [] h k = tt
  both P Q (x ∷ xs) (p, h) (q, k) = ((p, q), both P Q xs h k)

  -- In what passes the validation of a route each subquery stands behind those that it depends on;
  -- these are exactly the ones that its bindings refer to, and each binding names an output that its
  -- source's tool owns, as far as there is a catalog; the join keys are shared identities, and of two
  -- subqueries the same in the same order.
  pub validate_route_subqueries-IsRoute :
      (raw : Value) (plan : List Subquery)
      → validate_route_subqueries shared catalog raw ≡ ok plan
      → IsRoute plan
  unfolding validate_route_subqueries
  validate_route_subqueries-IsRoute raw plan h =
      let (raws, _, h1) = >>=-eq-ok (raw_list raw) _ h in
      let (_, _, h2) = >>=-eq-ok (check (not (ltb max_subqueries (length raws))) too_many) _ h1 in
      let (items, each, h3) = >>=-eq-ok (route_each shared 0 raws) _ h2 in
      let (_, _, h4) = >>=-eq-ok (check (not (has_duplicates (ids items))) ids_not_unique) _ h3 in
      let (_, _, h5) =
        >>=-eq-ok (check (not (has_duplicates (tool_names items))) tools_not_unique) _ h4 in
      let (done, bound, h6) = >>=-eq-ok (route_items catalog items items) _ h5 in
      let (ordered, sorted, h7) = >>=-eq-ok (topological_order items) _ h6 in
      let found : All (Found items) ordered =
        topological_order-All (Found items) items (find-own items) ordered sorted in
      let all_bound = route_items-IsBound items ordered found items bound in
      subst IsRoute (check_keys-same ordered plan h7) (
        topological_order-IsOrdered items ordered sorted,
        check_keys-IsMatched ordered plan h7,
        topological_order-All (λ s. IsShared s × IsBound ordered s) items
            (find-All (λ s. IsShared s × IsBound ordered s) items
              (both IsShared (IsBound ordered) items (route_each-IsShared 0 raws items each)
                all_bound))
            ordered sorted,
      )
