-- ===== src/Retry/Loop.antt =====
-- A proof rule for the cycle of the two nodes.
use text2cypher_manufacturin.Common.{
  ℕ, zero, suc, ◌+◌, ◌≤◌, ◌≡◌, arith, refl, String, true, false, List, [], ◌∷◌, ◌++◌, if_ind,
  if◌then◌else◌,
}
use text2cypher_manufacturin.Python.Exceptions.{Call, returns, raises}
use text2cypher_manufacturin.Retry.State.{
  RetryAgentState, Config, Effect, query_generated, max_attempts,
}
use text2cypher_manufacturin.Retry.Agent.{
  agent, asked, generated, last_message, feedback_text, feedback_of,
}
use text2cypher_manufacturin.Retry.Tools.{Step, updated, left, tools}
use text2cypher_manufacturin.Retry.Rule.{StateRule, Rule_both, OnUpdated, count_kept, tools_rule}
use text2cypher_manufacturin.Retry.Machine.{
  should_retry, turn, after_agent, generated_turn, run, Outcome, finished, crashed, out_of_fuel,
}

module _ (c : Config) where
  abbrev pub rest_of : ℕ → List Effect → Step → Outcome
  rest_of fuel log (left exc effects) = crashed exc (log ++ effects)
  rest_of fuel log (updated s' effects) =
      let log' = (log ++ effects) ++ (should_retry s').1 in
      if (should_retry s').0 then run c fuel s' log' else finished s' log'

  pub run-suc :
      (fuel : ℕ) (s : RetryAgentState) (log : List Effect)
      → run c (suc fuel) s log ≡ rest_of fuel log (turn c s)
  unfolding run
  run-suc fuel s log = by_step (turn c s) refl
    where
      by_step : (k : Step) → turn c s ≡ k → run c (suc fuel) s log ≡ rest_of fuel log k
      by_step (left exc effects) e = rw (e, run)
      by_step (updated s' effects) e = rw (e, run)

-- What holds at the top of the cycle, behind the node `tools`, and at the end.
pub record Cycle (c : Config) (top mid final : RetryAgentState → Type 0) : Type 0 where
  pub room : (s : RetryAgentState) → top s → s.attempt_count + 1 ≤ max_attempts
  pub step : (s : RetryAgentState) (q : String) → top s → StateRule c (asked c s q) mid
  pub again : (s : RetryAgentState) → mid s → (should_retry s).0 ≡ true → top s
  pub done : (s : RetryAgentState) → mid s → (should_retry s).0 ≡ false → final s

abbrev pub OnFinish : (RetryAgentState → Type 0) → Outcome → Type 0
OnFinish P (finished s _) = P s
OnFinish P (crashed _ _) = Unit
OnFinish P out_of_fuel = ⊥

module _ (c : Config) {top mid final : RetryAgentState → Type 0}
    (cycle : Cycle c top mid final) where
  open cycle use {room, step, again, done}

  -- After a turn from `s`.
  abbrev Turned : RetryAgentState → RetryAgentState → Type 0
  Turned s s' = mid s' × (s'.attempt_count ≡ s.attempt_count + 1)

  after_agent_rule :
      (P : RetryAgentState → Type 0) (log : List Effect) (k : Step)
      → OnUpdated P k
      → OnUpdated P (after_agent log k)
  after_agent_rule P log (updated _ _) h = h
  after_agent_rule P log (left _ _) h = tt

  generated_rule :
      (s : RetryAgentState) (r : Call String)
      → top s
      → OnUpdated (Turned s) (generated_turn c (generated c s r))
  generated_rule s (raises _) t = tt
  generated_rule s (returns q) t =
      after_agent_rule (Turned s) (query_generated (s.attempt_count + 1) q ∷ [])
        (tools c (asked c s q))
        (tools_rule c (asked c s q) (Turned s)
          (Rule_both mid _ (step s q t) (count_kept c (asked c s q))))

  turn_rule : (s : RetryAgentState) → top s → OnUpdated (Turned s) (turn c s)
  unfolding turn agent
  turn_rule s t =
      generated_rule s (c.generate s (last_message s.messages) (feedback_text c (feedback_of s))) t

  rest_of_rule :
      (fuel : ℕ) (s : RetryAgentState) (log : List Effect) (k : Step)
      → max_attempts ≤ s.attempt_count + suc fuel
      → OnUpdated (Turned s) k
      → ((s' : RetryAgentState) (log : List Effect)
          → max_attempts ≤ s'.attempt_count + fuel
          → top s'
          → OnFinish final (run c fuel s' log))
      → OnFinish final (rest_of c fuel log k)
  rest_of_rule fuel s log (left _ _) enough h ih = tt
  rest_of_rule fuel s log (updated s' effects) enough h ih =
      if_ind (OnFinish final) (should_retry s').0
        (λ e. ih s' _ (omega (arith, h.1)) (again s' h.0 e)) (λ e. done s' h.0 e)

  -- With fuel for the attempts that are left the cycle ends, and what it ends with has the final
  -- property, unless an exception leaves a node.
  pub run_rule :
      (fuel : ℕ) (s : RetryAgentState) (log : List Effect)
      → max_attempts ≤ s.attempt_count + fuel
      → top s
      → OnFinish final (run c fuel s log)
  run_rule zero s log enough t = absurd (omega (arith, room s t))
  run_rule (suc fuel) s log enough t =
      rw (run-suc c fuel s log)
        (rest_of_rule fuel s log (turn c s) enough (turn_rule s t) (run_rule fuel))
