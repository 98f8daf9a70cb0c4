-- ===== src/ExecutePlan/Dependencies.antt =====
-- `execute_subquery` and the outcomes of the dependencies.
use text2cypher_manufacturin.Common.{
  ◌≡◌, refl, String, Bool, true, false, not, Option, none, some, List, [], ◌∷◌, Dict, lookup, keep,
  is_empty, map, All, if◌then◌else◌,
}
use text2cypher_manufacturin.Python.{Value}
use text2cypher_manufacturin.Python.Exceptions.{Call, returns}
use text2cypher_manufacturin.Plan.{Subquery}
use text2cypher_manufacturin.Bindings.{collect_input_bindings}
use text2cypher_manufacturin.ExecutePlan.Outcomes.{
  Summary, SummaryError, dependency_failure, dependency_empty,
}
use text2cypher_manufacturin.ExecutePlan.Subqueries.{
  Env, Executed, execute_subquery, skipped, is_failed, is_empty_outcome, failed_with, result_empty,
  outcome_failed, outcome_empty, empty_reason_of, failed_dependencies, empty_dependencies,
  results_of, bound,
}

-- The dependency has ended without an error and with at least one row.
pub record HasRows (outcomes : Dict Summary) (dependency_id : String) : Type 0 where
  pub summary : Summary
  pub row : Value
  pub rows : List Value
  pub found : lookup dependency_id outcomes ≡ some summary
  pub clean : summary.error ≡ none
  pub result : summary.result ≡ some (row ∷ rows)

keep-none :
    (p : String → Bool) (ks : List String) → is_empty (keep p ks) ≡ true → All (λ k. p k ≡ false) ks
keep-none p [] h = tt
keep-none p (k ∷ ks) h = by_test (p k) refl h (keep-none p ks)
  where
    by_test :
        (b : Bool)
        → p k ≡ b
        → is_empty (let rest = keep p ks in if b then k ∷ rest else rest) ≡ true
        → (is_empty (keep p ks) ≡ true → All (λ j. p j ≡ false) ks)
        → (p k ≡ false) × All (λ j. p j ≡ false) ks
    by_test true e h ih = cc
    by_test false e h ih = (e, ih h)

by_fields :
    (outcomes : Dict Summary) (k : String) (s : Summary) (error : Option SummaryError)
    (result : Option (List Value))
    → lookup k outcomes ≡ some s
    → s.error ≡ error
    → s.result ≡ result
    → failed_with error result ≡ false
    → result_empty result ≡ false
    → HasRows outcomes k
by_fields outcomes k s (some _) result found e r f g = cc
by_fields outcomes k s none none found e r f g = cc
by_fields outcomes k s none (some []) found e r f g = cc
by_fields outcomes k s none (some (row ∷ rows)) found e r f g = record {
  summary = s;
  row = row;
  rows = rows;
  found = found;
  clean = e;
  result = r;
}

HasRows-intro :
    (outcomes : Dict Summary) (k : String) (o : Option Summary)
    → lookup k outcomes ≡ o
    → outcome_failed o ≡ false
    → outcome_empty o ≡ false
    → HasRows outcomes k
HasRows-intro outcomes k none found f g = cc
HasRows-intro outcomes k (some s) found f g =
    by_fields outcomes k s s.error s.result found refl refl f g

All-HasRows :
    (outcomes : Dict Summary) (ks : List String)
    → All (λ k. is_failed outcomes k ≡ false) ks
    → All (λ k. is_empty_outcome outcomes k ≡ false) ks
    → All (HasRows outcomes) ks
All-HasRows outcomes [] f g = tt
All-HasRows outcomes (k ∷ ks) f g =
    (HasRows-intro outcomes k _ refl f.0 g.0, All-HasRows outcomes ks f.1 g.1)

module _ (env : Env) (subquery : Subquery) (outcomes : Dict Summary) where
  -- What the two tests on the dependencies decide.
  abbrev ended : Bool → Bool → Call Executed
  ended a b =
      if not a
      then returns (record {
        query_text = none;
        summary = dependency_failure (failed_dependencies env subquery outcomes);
        effects = skipped subquery.id "DEPENDENCY_FAILED" ∷ [];
      })
      else if not b
      then returns (record {
        query_text = none;
        summary =
            dependency_empty
              (map (empty_reason_of outcomes) (empty_dependencies env subquery outcomes));
        effects = skipped subquery.id "DEPENDENCY_EMPTY" ∷ [];
      })
      else bound env subquery (collect_input_bindings subquery.input_bindings (results_of outcomes))

-- If not every dependency of a subquery has ended without an error and with at least one row, then
-- the subquery asks no agent: with any two environments, agents that raise included, it returns the
-- same, without a query text, and has only logged that it is skipped.
pub execute_subquery-skips :
    (env env' : Env) (subquery : Subquery) (outcomes : Dict Summary)
    → ¬ All (HasRows outcomes) subquery.depends_on
    → (e : Executed) × (reason : String) × (execute_subquery env subquery outcomes ≡ returns e)
      × (execute_subquery env' subquery outcomes ≡ returns e)
      × (e.query_text ≡ none)
      × (e.effects ≡ skipped subquery.id reason ∷ [])
unfolding execute_subquery
execute_subquery-skips env env' subquery outcomes lacking =
    by_tests (is_empty (failed_dependencies env subquery outcomes)) refl
      (is_empty (empty_dependencies env subquery outcomes)) refl
  where
    by_tests :
        (a : Bool)
        → is_empty (failed_dependencies env subquery outcomes) ≡ a
        → (b : Bool) → is_empty (empty_dependencies env subquery outcomes) ≡ b
        → (e : Executed) × (reason : String) × (ended env subquery outcomes a b ≡ returns e)
          × (ended env' subquery outcomes a b ≡ returns e)
          × (e.query_text ≡ none)
          × (e.effects ≡ skipped subquery.id reason ∷ [])
    by_tests true f true g =
        absurd
          (lacking (All-HasRows outcomes subquery.depends_on (keep-none _ _ f) (keep-none _ _ g)))
    by_tests false f b g = (_, _, refl, refl, refl, refl)
    by_tests true f false g = (_, _, refl, refl, refl, refl)
