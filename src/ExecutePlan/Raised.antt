-- ===== src/ExecutePlan/Raised.antt =====
-- The exceptions that leave `execute_plan`: `execute_subquery` itself raises none.
use text2cypher_manufacturin.Common.{
  ◌≡◌, refl, List, [], ◌∷◌, not, is_empty, Dict, Result, ok, err, if_ind,
}
use text2cypher_manufacturin.Python.{Value}
use text2cypher_manufacturin.Python.Exceptions.{Exception, Call, returns, raises}
use text2cypher_manufacturin.Failures.{Tool}
use text2cypher_manufacturin.Plan.{Subquery}
use text2cypher_manufacturin.Bindings.{BindingError, collect_input_bindings}
use text2cypher_manufacturin.Retry.{RetryAgentState}
use text2cypher_manufacturin.ExecutePlan.Outcomes.{Summary}
use text2cypher_manufacturin.ExecutePlan.Subqueries.{
  Env, Executed, invoked, bound, execute_subquery, failed_dependencies, empty_dependencies,
  results_of,
}
use text2cypher_manufacturin.ExecutePlan.Waves.{continue, gather}

-- A call of an agent has raised the exception.
abbrev pub IsRaised : Env → Exception → Type 0
IsRaised env exc = (tool : Tool) × (s : RetryAgentState) × (env.invoke tool s ≡ raises exc)

continue-eq-raises :
    {A B : Type 0} (m : Call A) (f : A → Call B) {exc : Exception} (P : Type 0)
    → (m ≡ raises exc → P)
    → ((a : A) → f a ≡ raises exc → P)
    → continue m f ≡ raises exc
    → P
continue-eq-raises (returns a) f P first more h = more a h
continue-eq-raises (raises exc) f P first more h = first cc

module _ (env : Env) (exc : Exception) where
  invoked-IsRaised :
      (subquery : Subquery) (tool : Tool) (s : RetryAgentState) (r : Call RetryAgentState)
      → env.invoke tool s ≡ r
      → invoked env subquery r ≡ raises exc
      → IsRaised env exc
  invoked-IsRaised subquery tool s (returns result) called h = cc
  invoked-IsRaised subquery tool s (raises exc') called h = (tool, s, cc)

  bound-IsRaised :
      (subquery : Subquery) (r : Result BindingError (Dict (List Value)))
      → bound env subquery r ≡ raises exc
      → IsRaised env exc
  bound-IsRaised subquery (err e) h = cc
  bound-IsRaised subquery (ok input_bindings) h = invoked-IsRaised subquery _ _ _ refl h

  execute_subquery-IsRaised :
      (subquery : Subquery) (outcomes : Dict Summary)
      → execute_subquery env subquery outcomes ≡ raises exc
      → IsRaised env exc
  unfolding execute_subquery
  execute_subquery-IsRaised subquery outcomes =
      if_ind P (not (is_empty (failed_dependencies env subquery outcomes))) (λ _ h. cc)
        (λ _.
          if_ind P (not (is_empty (empty_dependencies env subquery outcomes))) (λ _ h. cc)
            (λ _ h.
              bound-IsRaised subquery
                (collect_input_bindings subquery.input_bindings (results_of outcomes)) h))
    where
      P : Call Executed → Type 0
      P r = r ≡ raises exc → IsRaised env exc

  pub gather-IsRaised :
      (outcomes : Dict Summary) (ready : List Subquery)
      → gather env outcomes ready ≡ raises exc
      → IsRaised env exc
  unfolding gather
  gather-IsRaised outcomes [] h = cc
  gather-IsRaised outcomes (s ∷ ready) h =
      continue-eq-raises (execute_subquery env s outcomes) _ (IsRaised env exc)
        (execute_subquery-IsRaised s outcomes)
        (λ e.
          continue-eq-raises (gather env outcomes ready) _ (IsRaised env exc)
            (gather-IsRaised outcomes ready) (λ es k. cc))
        h
