-- ===== src/Retry/Finishes.antt =====
-- `run`, where neither the generator nor the query contract raises an exception.
use text2cypher_manufacturin.Common.{
  ℕ, zero, suc, ◌+◌, ◌∷◌, ◌≡◌, refl, sym, subst, String, Option, none, some, List, [], if_ind,
}
use text2cypher_manufacturin.Python.Exceptions.{Call, returns, raises}
use text2cypher_manufacturin.Retry.State.{
  RetryAgentState, Config, Effect, query_generated, ErrorText, GuardResult, max_attempts,
}
use text2cypher_manufacturin.Retry.Agent.{
  agent, asked, generated, last_message, feedback_text, feedback_of,
}
use text2cypher_manufacturin.Retry.Checks.{
  Check, pass, stop, crash, guarded, guard_given, check_guard, contracted, contract_given,
  check_contract,
}
use text2cypher_manufacturin.Retry.Tools.{
  Step, updated, left, tools, query_text, after_guard, after_contract,
}
use text2cypher_manufacturin.Retry.Machine.{
  should_retry, turn, generated_turn, after_agent, run, Outcome, finished, crashed, out_of_fuel,
}
use text2cypher_manufacturin.Retry.Loop.{OnFinish, rest_of, run-suc}
use text2cypher_manufacturin.Retry.Verdict.{IsCounted, Verdict, run-Verdict}

-- A query is generated whatever the state.
abbrev pub Generates : Config → Type 0
Generates c =
    (s : RetryAgentState) (last : Option String) (feedback : Option ErrorText)
    → (q : String) × (c.generate s last feedback ≡ returns q)

-- The query contract, if there is one, returns.
abbrev pub Answers : Option (String → List String → Call (Option String)) → Type 0
Answers none = Unit
Answers (some contract) =
    (q : String) (outputs : List String) → (r : Option String) × (contract q outputs ≡ returns r)

abbrev NoCrash : Check → Type 0
NoCrash (pass _) = Unit
NoCrash (stop _) = Unit
NoCrash (crash _ _) = ⊥

abbrev IsUpdated : Step → Type 0
IsUpdated (updated _ _) = Unit
IsUpdated (left _ _) = ⊥

abbrev NotCrashed : Outcome → Type 0
NotCrashed (finished _ _) = Unit
NotCrashed (crashed _ _) = ⊥
NotCrashed out_of_fuel = Unit

module _ (c : Config) where
  guarded-NoCrash :
      (s : RetryAgentState) (q : String) (r : Call GuardResult) → NoCrash (guarded c s q r)
  guarded-NoCrash s q (raises exc) = tt
  guarded-NoCrash s q (returns r) = if_ind NoCrash r.allowed (λ _. tt) (λ _. tt)

  guard_given-NoCrash :
      (s : RetryAgentState) (q : String) (guard : Option (String → Call GuardResult))
      → NoCrash (guard_given c s q guard)
  guard_given-NoCrash s q none = tt
  guard_given-NoCrash s q (some guard) = guarded-NoCrash s q (guard q)

  contracted-NoCrash :
      (s : RetryAgentState) (q : String) (r : Option String)
      → NoCrash (contracted c s q (returns r))
  contracted-NoCrash s q none = tt
  contracted-NoCrash s q (some message) = tt

  contract_given-NoCrash :
      (s : RetryAgentState) (q : String)
      (contract : Option (String → List String → Call (Option String)))
      → Answers contract
      → NoCrash (contract_given c s q contract)
  contract_given-NoCrash s q none h = tt
  contract_given-NoCrash s q (some contract) h =
      let (r, e) = h q s.required_outputs in
      subst (λ k. NoCrash (contracted c s q k)) (sym e) (contracted-NoCrash s q r)

  after_contract-IsUpdated :
      (s : RetryAgentState) (q : String) (audited : List Effect) (k : Check)
      → NoCrash k
      → IsUpdated (after_contract c s q audited k)
  after_contract-IsUpdated s q audited (pass effects) h = tt
  after_contract-IsUpdated s q audited (stop u) h = tt
  after_contract-IsUpdated s q audited (crash exc effects) h = absurd h

  module _ (generates : Generates c) (answers : Answers c.query_contract_error) where
    after_guard-IsUpdated :
        (s : RetryAgentState) (q : String) (k : Check) → NoCrash k → IsUpdated (after_guard c s q k)
    unfolding check_contract
    after_guard-IsUpdated s q (pass audited) h =
        after_contract-IsUpdated s q audited (check_contract c s q)
          (contract_given-NoCrash s q c.query_contract_error answers)
    after_guard-IsUpdated s q (stop u) h = tt
    after_guard-IsUpdated s q (crash exc effects) h = absurd h

    tools-IsUpdated : (s : RetryAgentState) → IsUpdated (tools c s)
    unfolding tools check_guard
    tools-IsUpdated s =
        after_guard-IsUpdated s (query_text s) (check_guard c s (query_text s))
          (guard_given-NoCrash s (query_text s) c.guard)

    after_agent-IsUpdated :
        (log : List Effect) (k : Step) → IsUpdated k → IsUpdated (after_agent log k)
    after_agent-IsUpdated log (updated s effects) h = tt
    after_agent-IsUpdated log (left exc effects) h = absurd h

    turn-IsUpdated : (s : RetryAgentState) → IsUpdated (turn c s)
    unfolding turn agent
    turn-IsUpdated s =
        let (q, e) = generates s (last_message s.messages) (feedback_text c (feedback_of s)) in
        subst (λ k. IsUpdated (generated_turn c (generated c s k))) (sym e)
          (after_agent-IsUpdated (query_generated (s.attempt_count + 1) q ∷ [])
            (tools c (asked c s q)) (tools-IsUpdated (asked c s q)))

    run-NotCrashed :
        (fuel : ℕ) (s : RetryAgentState) (log : List Effect) → NotCrashed (run c fuel s log)
    run-NotCrashed zero s log = unfold run in tt
    run-NotCrashed (suc fuel) s log =
        subst NotCrashed (sym (run-suc c fuel s log))
          (by_step (turn c s) (turn-IsUpdated s) (run-NotCrashed fuel))
      where
        by_step :
            (k : Step)
            → IsUpdated k
            → ((s' : RetryAgentState) (log' : List Effect) → NotCrashed (run c fuel s' log'))
            → NotCrashed (rest_of c fuel log k)
        by_step (left exc effects) h ih = absurd h
        by_step (updated s' effects) h ih =
            if_ind NotCrashed (should_retry s').0 (λ _. ih s' _) (λ _. tt)

both :
    (P : RetryAgentState → Type 0) (o : Outcome)
    → OnFinish P o
    → NotCrashed o
    → (s : RetryAgentState) × (log : List Effect) × (o ≡ finished s log) × P s
both P (finished s log) h k = (s, log, refl, h)
both P (crashed exc log) h k = absurd k
both P out_of_fuel h k = absurd h

-- If a query can always be generated and the query contract, where there is one, raises no
-- exception, then a run from a state with no attempts finishes within the budget of three attempts
-- and with one of the three verdicts of `Verdict`, whatever the guard, the executor and the result contract raise.
pub run-finishes :
    (c : Config) (s : RetryAgentState)
    → Generates c
    → Answers c.query_contract_error
    → s.attempt_count ≡ 0
    → s.attempts ≡ []
    → (s' : RetryAgentState) × (log : List Effect) × (run c max_attempts s [] ≡ finished s' log)
      × (IsCounted s' × Verdict s.required_outputs s')
run-finishes c s generates answers counted fresh =
    both (λ s'. IsCounted s' × Verdict s.required_outputs s') (run c max_attempts s [])
      (run-Verdict c s counted fresh) (run-NotCrashed c generates answers max_attempts s [])
