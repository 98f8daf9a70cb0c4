-- ===== src/Retry/Guarded.antt =====
-- The queries that the retry subgraph executes, and its guard.
use text2cypher_manufacturin.Common.{
  ℕ, zero, suc, ◌≡◌, refl, String, true, Option, none, some, List, [], ◌∷◌, ◌++◌, All, All-append,
  if_ind, false, Bool, ltb, leb, not, sym, subst,
}
use text2cypher_manufacturin.Python.Exceptions.{Call, returns, raises}
use text2cypher_manufacturin.Retry.State.{
  RetryAgentState, Config, Effect, query_generated, query_executed, repair_completed,
  repair_exhausted, ErrorText, max_attempts, GuardResult,
}
use text2cypher_manufacturin.Retry.Agent.{
  agent, asked, generated, last_message, feedback_text, feedback_of,
}
use text2cypher_manufacturin.Retry.Checks.{
  Check, pass, stop, crash, failure, check_guard, check_contract, guard_given, guarded,
  contract_given, contracted,
}
use text2cypher_manufacturin.Retry.Tools.{
  Step, updated, left, tools, query_text, empty_result, execute_and_classify, after_contract,
  after_guard,
}
use text2cypher_manufacturin.Retry.Machine.{
  should_retry, after_error, retry_given, issue_code, turn, after_agent, generated_turn, run,
  Outcome, finished, crashed, out_of_fuel,
}
use text2cypher_manufacturin.Retry.Rule.{Rule, classify_rule}
use text2cypher_manufacturin.Retry.Loop.{rest_of, run-suc}

-- The guard, if there is one, has allowed the query.
abbrev pub IsAllowed : Option (String → Call GuardResult) → String → Type 0
IsAllowed none q = Unit
IsAllowed (some guard) q = (r : GuardResult) × (guard q ≡ returns r) × (r.allowed ≡ true)

-- A query that is executed has been allowed; other effects are free.
abbrev pub IsGuarded : Config → Effect → Type 0
IsGuarded c (query_executed _ q) = IsAllowed c.guard q
IsGuarded c _ = Unit

abbrev pub Guarded : Config → List Effect → Type 0
Guarded c = All (IsGuarded c)

abbrev OnGuarded : Config → Step → Type 0
OnGuarded c (updated _ effects) = Guarded c effects
OnGuarded c (left _ effects) = Guarded c effects

module _ (c : Config) (s : RetryAgentState) where
  rule : Rule c s (λ u. Guarded c u.1)
  unfolding failure empty_result
  rule = record {
    failing = λ q message retryable why stage code error feedback. (tt, (tt, tt));
    empty = λ q result truncated h. (tt, (tt, tt));
    success = λ q row rows truncated h. (
      tt,
      if_ind (Guarded c) (ltb 1 s.attempt_count) {x = repair_completed s.attempt_count ∷ []}
          {y = []} (λ _. (tt, tt)) (λ _. tt),
    );
    audited = λ s' effects reason h. (tt, h);
  }

  -- A check that passes has met an allowing guard.
  abbrev Passes : String → Check → Type 0
  Passes q (pass effects) = Guarded c effects × IsAllowed c.guard q
  Passes q (stop u) = Guarded c u.1
  Passes q (crash _ effects) = Guarded c effects

  by_verdict :
      (q : String) (guard : String → Call GuardResult) (r : GuardResult) (b : Bool)
      → c.guard ≡ some guard
      → guard q ≡ returns r
      → r.allowed ≡ b
      → Passes q (guarded c s q (returns r))
  by_verdict q guard r true given called e =
      rw e ((tt, tt), subst (λ g. IsAllowed g q) (sym given) (r, called, e))
  by_verdict q guard r false given called e = rw e (tt, rule.failing q _ _ _ _ _ _ _)

  by_call :
      (q : String) (guard : String → Call GuardResult) (k : Call GuardResult)
      → c.guard ≡ some guard
      → guard q ≡ k
      → Passes q (guarded c s q k)
  by_call q guard (raises exc) given called = rule.failing q _ _ _ _ _ _ _
  by_call q guard (returns r) given called = by_verdict q guard r r.allowed given called refl

  by_guard :
      (q : String) (o : Option (String → Call GuardResult))
      → c.guard ≡ o
      → Passes q (guard_given c s q o)
  by_guard q none given = (tt, subst (λ g. IsAllowed g q) (sym given) tt)
  by_guard q (some guard) given = by_call q guard (guard q) given refl

  -- The contract executes nothing either.
  abbrev Contracted : Check → Type 0
  Contracted (pass effects) = Unit
  Contracted (stop u) = Guarded c u.1
  Contracted (crash _ effects) = Guarded c effects

  by_contract :
      (q : String) (audited : List Effect) (k : Check)
      → Guarded c audited
      → IsAllowed c.guard q
      → Contracted k
      → OnGuarded c (after_contract c s q audited k)
  unfolding execute_and_classify
  by_contract q audited (pass _) a allowed h =
      All-append (IsGuarded c) audited _ a
        (allowed, classify_rule c s (λ u. Guarded c u.1) rule q (c.execute s.attempt_count q))
  by_contract q audited (stop u) a allowed h = All-append (IsGuarded c) audited u.1 a h
  by_contract q audited (crash _ effects) a allowed h = All-append (IsGuarded c) audited effects a h

  by_contract_given :
      (q : String) (o : Option (String → List String → Call (Option String)))
      → Contracted (contract_given c s q o)
  by_contract_given q none = tt
  by_contract_given q (some contract) = by_answer (contract q s.required_outputs)
    where
      by_answer : (r : Call (Option String)) → Contracted (contracted c s q r)
      by_answer (raises exc) = tt
      by_answer (returns none) = tt
      by_answer (returns (some message)) = rule.failing q _ _ _ _ _ _ _

  by_check : (q : String) (k : Check) → Passes q k → OnGuarded c (after_guard c s q k)
  unfolding check_contract
  by_check q (pass audited) h =
      by_contract q audited _ h.0 h.1 (by_contract_given q c.query_contract_error)
  by_check q (stop (_, effects)) h = h
  by_check q (crash _ effects) h = h

  tools-OnGuarded : OnGuarded c (tools c s)
  unfolding tools check_guard
  tools-OnGuarded = by_check (query_text s) _ (by_guard (query_text s) c.guard refl)

module _ (c : Config) where
  by_step :
      (n : ℕ) (q : String) (k : Step)
      → OnGuarded c k
      → OnGuarded c (after_agent (query_generated n q ∷ []) k)
  by_step n q (updated _ effects) h = (tt, h)
  by_step n q (left _ effects) h = (tt, h)

  by_generated :
      (s : RetryAgentState) (r : Call String) → OnGuarded c (generated_turn c (generated c s r))
  by_generated s (raises _) = tt
  by_generated s (returns q) = by_step _ q (tools c (asked c s q)) (tools-OnGuarded c (asked c s q))

  turn-OnGuarded : (s : RetryAgentState) → OnGuarded c (turn c s)
  unfolding turn agent
  turn-OnGuarded s =
      by_generated s (c.generate s (last_message s.messages) (feedback_text c (feedback_of s)))

  after_error-Guarded : (s : RetryAgentState) → Guarded c (after_error s).1
  after_error-Guarded s =
      if_ind (λ (d : Bool × List Effect). Guarded c d.1) (not s.retryable) (λ _. tt)
        (λ _.
          if_ind (λ (d : Bool × List Effect). Guarded c d.1) (leb max_attempts s.attempt_count)
            {x = (false, repair_exhausted (issue_code s.failure) ∷ [])} {y = (true, [])}
            (λ _. (tt, tt)) (λ _. tt))

  retry_given-Guarded : (s : RetryAgentState) (e : Option ErrorText) → Guarded c (retry_given s e).1
  retry_given-Guarded s none = tt
  retry_given-Guarded s (some _) = after_error-Guarded s

  abbrev pub IsLogged : Outcome → Type 0
  IsLogged (finished _ log) = Guarded c log
  IsLogged (crashed _ log) = Guarded c log
  IsLogged out_of_fuel = Unit

  by_rest :
      (fuel : ℕ) (log : List Effect) (k : Step)
      → Guarded c log
      → OnGuarded c k
      → ((s : RetryAgentState) (log' : List Effect) → Guarded c log' → IsLogged (run c fuel s log'))
      → IsLogged (rest_of c fuel log k)
  unfolding should_retry
  by_rest fuel log (left exc effects) l h ih = All-append (IsGuarded c) log effects l h
  by_rest fuel log (updated s effects) l h ih =
      if_ind IsLogged (should_retry s).0 (λ _. ih s _ logged) (λ _. logged)
    where
      logged : Guarded c ((log ++ effects) ++ (should_retry s).1)
      logged =
          All-append (IsGuarded c) (log ++ effects) (should_retry s).1
            (All-append (IsGuarded c) log effects l h) (retry_given-Guarded s s.error)

  by_fuel :
      (fuel : ℕ) (s : RetryAgentState) (log : List Effect)
      → Guarded c log
      → IsLogged (run c fuel s log)
  by_fuel zero s log l = unfold run in tt
  by_fuel (suc fuel) s log l =
      rw (run-suc c fuel s log) (by_rest fuel log (turn c s) l (turn-OnGuarded s) (by_fuel fuel))

-- Whatever is generated, and however a run ends, each query that it executes is one that the
-- guard, where there is one, has been called on and has allowed.
pub run-IsGuarded : (c : Config) (fuel : ℕ) (s : RetryAgentState) → IsLogged c (run c fuel s [])
run-IsGuarded c fuel s = by_fuel c fuel s [] tt
