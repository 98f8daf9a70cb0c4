-- ===== src/Planning/Sorted/Settling.antt =====
-- One round of `topological_order`: what is waited for, and what is ordered.
use text2cypher_manufacturin.Common.{
  ◌≡◌, refl, ap, sym, ◌∙◌, subst, String, Bool, true, false, ◌||◌, none, some, List, [], ◌∷◌, ◌++◌,
  arith, ◌==◌, eq_iff, all, elem, elem-append, lookup, some_inj, All, All-mono, if◌then◌else◌,
}
use text2cypher_manufacturin.Plan.{Subquery}
use text2cypher_manufacturin.ExecutePlan.Outcome.{IsOrdered, all_mono}
use text2cypher_manufacturin.Planning.Order.{
  ids, find, Pending, discard, settle, append_found, settle_all,
}

ids-append : (xs ys : List Subquery) → ids (xs ++ ys) ≡ ids xs ++ ids ys
ids-append [] ys = refl
ids-append (x ∷ xs) ys = ap (λ l. x.id ∷ l) (ids-append xs ys)

-- A subquery may stand behind those that it depends on.
IsOrdered-append :
    (known : String → Bool) (xs : List Subquery) (s : Subquery)
    → IsOrdered known xs
    → all (λ d. elem d (ids xs) || known d) s.depends_on ≡ true
    → IsOrdered known (xs ++ s ∷ [])
IsOrdered-append known [] s h deps = (deps, tt)
IsOrdered-append known (x ∷ xs) s h deps = (
  h.0,
  IsOrdered-append (λ k. x.id == k || known k) xs s h.1
      (all_mono _ _ s.depends_on (λ d e. ground (arith, e, eq_iff x.id d, eq_iff d x.id)) deps),
)

-- A pending subquery depends only on what it waits for and on what is ordered.
abbrev pub Covered : List Subquery → Pending → List Subquery → Type 0
Covered items pending ordered =
    (k : String) (s : Subquery) (deps : List String)
    → find k items ≡ some s
    → lookup k pending ≡ some deps
    → all (λ d. elem d deps || elem d (ids ordered)) s.depends_on ≡ true

-- A ready subquery depends only on what is ordered.
abbrev pub IsReady : List Subquery → List Subquery → String → Type 0
IsReady items ordered k =
    (s : Subquery) × (find k items ≡ some s) × (all (λ d. elem d (ids ordered)) s.depends_on ≡ true)

pub find-id : (k : String) (items : List Subquery) (s : Subquery) → find k items ≡ some s → s.id ≡ k
find-id k [] s h = cc
find-id k (x ∷ items) s h = by_id (x.id == k) refl h (find-id k items s)
  where
    by_id :
        (b : Bool)
        → (x.id == k) ≡ b
        → (if b then some x else find k items) ≡ some s
        → (find k items ≡ some s → s.id ≡ k)
        → s.id ≡ k
    by_id true e found ih = ap (λ t. t.id) (sym (some_inj found)) ∙ (eq_iff x.id k).0 e
    by_id false e found ih = ih found

elem-discard :
    (k d : String) (deps : List String)
    → elem d deps ≡ true
    → (elem d (discard k deps) || d == k) ≡ true
elem-discard k d [] h = cc
elem-discard k d (x ∷ deps) h =
    ground (arith, h, eq_iff k x, eq_iff d x, eq_iff d k, elem-discard k d deps)

lookup-settle_own : (k : String) (pending : Pending) → lookup k (settle k pending) ≡ none
unfolding settle
lookup-settle_own k [] = refl
lookup-settle_own k ((i, waits) ∷ pending) = ground (arith, lookup-settle_own k pending)

lookup-settle_other :
    (k j : String) (pending : Pending) (deps : List String)
    → (k == j) ≡ false
    → lookup j (settle k pending) ≡ some deps
    → (before : List String) × (lookup j pending ≡ some before) × (deps ≡ discard k before)
unfolding settle
lookup-settle_other k j [] deps other h = cc
lookup-settle_other k j ((i, waits) ∷ pending) deps other h =
    by_keys (i == k) refl (i == j) refl h (lookup-settle_other k j pending deps other)
  where
    by_keys :
        (b : Bool)
        → (i == k) ≡ b
        → (c : Bool) → (i == j) ≡ c
        → lookup j (if b then settle k pending else (i, discard k waits) ∷ settle k pending)
          ≡ some deps
        → (lookup j (settle k pending) ≡ some deps
            → (before : List String) × (lookup j pending ≡ some before) × (deps ≡ discard k before))
        → (before : List String) × ((if c then some waits else lookup j pending) ≡ some before)
          × (deps ≡ discard k before)
    by_keys true e true f found ih =
        absurd (ground (arith, e, f, other, eq_iff i k, eq_iff i j, eq_iff k j))
    by_keys true e false f found ih = ih found
    by_keys false e true f found ih = (waits, refl, sym (some_inj (rw f at found)))
    by_keys false e false f found ih = ih (rw f at found)

lookup-settle :
    (k j : String) (pending : Pending) (deps : List String)
    → lookup j (settle k pending) ≡ some deps
    → (before : List String) × (lookup j pending ≡ some before) × (deps ≡ discard k before)
lookup-settle k j pending deps h = by_key (k == j) refl
  where
    by_key :
        (b : Bool)
        → (k == j) ≡ b
        → (before : List String) × (lookup j pending ≡ some before) × (deps ≡ discard k before)
    by_key false other = lookup-settle_other k j pending deps other h
    by_key true same =
        let own = lookup-settle_own k pending in
        let here =
          subst (λ i. lookup i (settle k pending) ≡ some deps) (sym ((eq_iff k j).0 same)) h in
        absurd (cc)

-- What was waited for is waited for still, or ordered now.
moved :
    (k d : String) (s : Subquery) (before : List String) (ordered : List Subquery)
    → s.id ≡ k
    → (elem d before || elem d (ids ordered)) ≡ true
    → (elem d (discard k before) || elem d (ids (ordered ++ s ∷ []))) ≡ true
moved k d s before ordered same h =
    let behind : elem d (ids (ordered ++ s ∷ [])) ≡ (elem d (ids ordered) || elem d (s.id ∷ [])) =
      ap (elem d) (ids-append ordered (s ∷ [])) ∙ elem-append d (ids ordered) (s.id ∷ []) in
    ground (arith, h, same, behind, elem-discard k d before, eq_iff d s.id, eq_iff d k)

-- Ordering a ready subquery.
module _ (items : List Subquery) where
  settle-Covered :
      (k : String) (s : Subquery) (pending : Pending) (ordered : List Subquery)
      → find k items ≡ some s
      → Covered items pending ordered
      → Covered items (settle k pending) (ordered ++ s ∷ [])
  settle-Covered k s pending ordered found covered j t deps at waiting =
      let (before, was, same) = lookup-settle k j pending deps waiting in
      all_mono _ _ t.depends_on
        (λ d e.
          subst (λ ks. (elem d ks || elem d (ids (ordered ++ s ∷ []))) ≡ true) (sym same)
            (moved k d s before ordered (find-id k items s found) e))
        (covered j t before at was)

  IsReady-append :
      (s : Subquery) (ordered : List Subquery) (k : String)
      → IsReady items ordered k
      → IsReady items (ordered ++ s ∷ []) k
  IsReady-append s ordered k (t, found, deps) = (
    t,
    found,
    all_mono _ _ t.depends_on
        (λ d e.
          ap (elem d) (ids-append ordered (s ∷ []))
          ∙ (elem-append d (ids ordered) (s.id ∷ []) ∙ ground (arith, e)))
        deps,
  )

  pub settle_all-IsOrdered :
      (ready : List String) (pending : Pending) (ordered : List Subquery)
      → IsOrdered (λ _. false) ordered
      → Covered items pending ordered
      → All (IsReady items ordered) ready
      → IsOrdered (λ _. false) (settle_all items ready pending ordered).1
        × Covered items
            (settle_all items ready pending ordered).0
            (settle_all items ready pending ordered).1
  unfolding settle_all
  settle_all-IsOrdered [] pending ordered o c r = (o, c)
  settle_all-IsOrdered (k ∷ ready) pending ordered o c ((s, found, deps), rs) =
      subst
        (λ o'.
          IsOrdered (λ _. false)
            (settle_all items ready (settle k pending) (append_found ordered o')).1
          × Covered items (settle_all items ready (settle k pending) (append_found ordered o')).0
              (settle_all items ready (settle k pending) (append_found ordered o')).1)
        (sym found)
        (settle_all-IsOrdered ready (settle k pending) (ordered ++ s ∷ [])
          (IsOrdered-append (λ _. false) ordered s o
            (all_mono _ _ s.depends_on (λ d e. ground (arith, e)) deps))
          (settle-Covered k s pending ordered found c)
          (All-mono _ _ ready (IsReady-append s ordered) rs))
