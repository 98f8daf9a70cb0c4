-- ===== src/Pipeline/Fallback.antt =====
-- What the strict path is accepted for, and what is left of it when it is not.
use text2cypher_manufacturin.Common.{
  ◌≡◌, ◌⊎◌, inl, inr, refl, sym, ◌∙◌, ap, subst, Bool, true, false, not, ◌&&◌, Option, none, some,
  String, List, [], ◌∷◌, ◌==◌, Dict, lookup, insert, lookup-insert, arith, keep, elem, if_ind,
  eq_iff,
}
use text2cypher_manufacturin.Python.{Value, str}
use text2cypher_manufacturin.Python.Exceptions.{Call, returns, raises}
use text2cypher_manufacturin.Pipeline.State.{OrchestratorState, or_key_error, update}
use text2cypher_manufacturin.Pipeline.Strict.{
  StrictEnv, Attempt, rejection_reason, withheld_keys, is_accepted, judged, ran, attempted,
  concluded, query_input, with_input, strict_query,
}
use text2cypher_manufacturin.Pipeline.Updates.{or_else, lookup-update}
use text2cypher_manufacturin.Pipeline.Accepted.{IsAnswerable, rejection_reason-IsAnswerable}

distinct : true ≡ false → ⊥
distinct h = cc

no_both : (a b : Bool) → (a && not b) ≡ true → b ≡ true → ⊥
no_both true b e h = cc
no_both false b e h = cc

withheld-is_accepted :
    (k : String) (result : OrchestratorState)
    → elem k withheld_keys ≡ true
    → lookup k (keep is_accepted result) ≡ none
withheld-is_accepted k [] h = refl
withheld-is_accepted k ((j, v) ∷ result) h =
    if_ind (λ d. lookup k d ≡ none) (is_accepted (j, v))
      (λ e.
        if_ind (λ o. o ≡ none) (j == k)
          (λ same. absurd (
            no_both _ _ e (subst (λ x. elem x withheld_keys ≡ true) (sym ((eq_iff j k).0 same)) h)))
          (λ _. withheld-is_accepted k result h))
      (λ _. withheld-is_accepted k result h)

-- A key that is in the list is none that is not.
other_key :
    (j k : String) (keys : List String)
    → elem k keys ≡ true
    → elem j keys ≡ false
    → (j == k) ≡ false
other_key j k keys h missing = by_test (j == k) refl
  where
    by_test : (b : Bool) → (j == k) ≡ b → b ≡ false
    by_test false same = refl
    by_test true same =
        absurd
          (distinct (sym (subst (λ x. elem x keys ≡ true) (sym ((eq_iff j k).0 same)) h) ∙ missing))

lookup-changed :
    (k : String) (d e : Dict Value) (o : Option Value)
    → lookup k e ≡ o
    → lookup k (update d e) ≡ or_else o (lookup k d)
lookup-changed k d e o h = lookup-update k d e ∙ ap (λ o. or_else o (lookup k d)) h

module _ (env : StrictEnv) where
  -- The strict result is taken over: it is answerable, and what the state has under the keys that
  -- are withheld stays.
  abbrev pub IsTakenOver : (before after result : OrchestratorState) → Type 0
  IsTakenOver before after result =
      (lookup "query_strategy" after ≡ some (str "strict"))
      × IsAnswerable result
      × ((k : String) → elem k withheld_keys ≡ true → lookup k after ≡ lookup k before)

  -- The strict result is dropped: the state keeps all that it has under the other keys.
  abbrev pub IsCleanStart : (before after : OrchestratorState) → Type 0
  IsCleanStart before after =
      (lookup "query_strategy" after ≡ some (str "pr61"))
      × ((k : String)
          → elem k ("query_strategy" ∷ "strict_attempt" ∷ []) ≡ false
          → lookup k after ≡ lookup k before)

  judged-none :
      (result : OrchestratorState) (reason : Call (Option String)) (result' : OrchestratorState)
      → judged env result reason ≡ (result', none)
      → (result ≡ result') × (reason ≡ returns none)
  judged-none result (raises exc) result' h = cc
  judged-none result (returns reason) result' h = (ap (λ a. a.0) h, ap (λ a. returns a.1) h)

  ran-none :
      (run : Call OrchestratorState) (result : OrchestratorState)
      → ran env run ≡ (result, none)
      → (run ≡ returns result) × IsAnswerable result
  ran-none (raises exc) result h = cc
  ran-none (returns result') result h =
      let (same, fine) = judged-none result' (rejection_reason result') result h in
      (ap returns same, subst IsAnswerable same (rejection_reason-IsAnswerable result' fine))

  attempted-none :
      (input : OrchestratorState) (initial_error : Option String) (result : OrchestratorState)
      → attempted env input initial_error ≡ (result, none)
      → (env.within_timeout (env.run_strict input) ≡ returns result) × IsAnswerable result
  attempted-none input (some reason) result h = cc
  attempted-none input none result h = ran-none _ result h

  taken_over :
      (state result : OrchestratorState)
      → IsAnswerable result
      → IsTakenOver state (update state (concluded env state (result, none))) result
  taken_over state result fine = (
    lookup-changed "query_strategy" state _ (some (str "strict")) (
        lookup-insert "strict_attempt" "query_strategy" _ strict
        ∙ lookup-insert "query_strategy" "query_strategy" (str "strict") kept),
    fine,
    λ k withheld. lookup-changed k state _ none (
        lookup-insert "strict_attempt" k _ strict
        ∙ (rw (other_key "strict_attempt" k withheld_keys withheld refl) (
            lookup-insert "query_strategy" k (str "strict") kept
            ∙ rw (other_key "query_strategy" k withheld_keys withheld refl)
                (withheld-is_accepted k result withheld)))),
  )
    where
      kept : OrchestratorState
      kept = keep is_accepted result

      strict : OrchestratorState
      strict = insert "query_strategy" (str "strict") kept

  dropped :
      (state result : OrchestratorState) (reason : String)
      → IsCleanStart state (update state (concluded env state (result, some reason)))
  dropped state result reason = (
    lookup-changed "query_strategy" state _ (some (str "pr61")) refl,
    λ k other. lookup-changed k state _ none (
        ground (
          arith,
          other,
          eq_iff k "query_strategy",
          eq_iff "query_strategy" k,
          eq_iff k "strict_attempt",
          eq_iff "strict_attempt" k,
        )),
  )

  -- The node answers every state that has a query. Either the strict path has returned an
  -- answerable result, which is taken over without what is withheld, or the next path starts from
  -- the state as it was, but for the two keys that say so.
  pub strict_query-decides :
      (state : OrchestratorState) (query : Value)
      → lookup "query" state ≡ some query
      → (changes : OrchestratorState) × (strict_query env state ≡ returns changes)
        × (((result : OrchestratorState) × (env.within_timeout
                  (env.run_strict (query_input env state query))
                ≡ returns result)
              × IsTakenOver state (update state changes) result)
            ⊎ IsCleanStart state (update state changes))
  unfolding strict_query
  strict_query-decides state query given = (
    concluded env state (attempted env (query_input env state query) env.initial_error),
    ap (λ o. with_input env state (or_key_error o)) given,
    by_attempt (attempted env (query_input env state query) env.initial_error) refl,
  )
    where
      by_attempt :
          (a : Attempt)
          → attempted env (query_input env state query) env.initial_error ≡ a
          → ((result : OrchestratorState) × (env.within_timeout
                  (env.run_strict (query_input env state query))
                ≡ returns result)
              × IsTakenOver state (update state (concluded env state a)) result)
            ⊎ IsCleanStart state (update state (concluded env state a))
      by_attempt (result, some reason) same = inr (dropped state result reason)
      by_attempt (result, none) same =
          let (ran, fine) = attempted-none _ _ result same in
          inl (result, ran, taken_over state result fine)
