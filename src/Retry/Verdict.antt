-- ===== src/Retry/Verdict.antt =====
-- How the retry subgraph can end.
use text2cypher_manufacturin.Common.{
  ℕ, ◌+◌, ◌≤◌, ◌≡◌, refl, String, Bool, true, false, Option, none, some, List, [], ◌∷◌, ◌++◌, arith,
  length, length-append, keep, is_empty, All, ◌⊎◌, if_ind, subst, if◌then◌else◌,
}
use text2cypher_manufacturin.Python.Exceptions.{Exception}
use text2cypher_manufacturin.Failures.{QueryFailure}
use text2cypher_manufacturin.Python.{Value}
use text2cypher_manufacturin.Retry.State.{
  RetryAgentState, Config, ErrorText, Attempt, classify_empty_result, empty_result_error,
  max_attempts,
}
use text2cypher_manufacturin.Retry.Agent.{asked}
use text2cypher_manufacturin.Retry.Checks.{failure}
use text2cypher_manufacturin.Retry.Tools.{
  can_retry_empty, empty_again, empty_result, accepted, first_missing, lacks,
}
use text2cypher_manufacturin.Retry.Rule.{has_rows}
use text2cypher_manufacturin.Retry.Loop.{Cycle, OnFinish, run_rule}
use text2cypher_manufacturin.Retry.Machine.{should_retry, run}

-- Each row is an object with every required output.
abbrev pub AreComplete : List String → List Value → Type 0
AreComplete outputs rows = All (λ row. All (λ alias. lacks row alias ≡ false) outputs) rows

keep-nil :
    (row : Value) (outputs : List String)
    → is_empty (keep (lacks row) outputs) ≡ true
    → All (λ alias. lacks row alias ≡ false) outputs
keep-nil row [] h = tt
keep-nil row (alias ∷ outputs) h = by_alias (lacks row alias) refl h (keep-nil row outputs)
  where
    by_alias :
        (b : Bool)
        → lacks row alias ≡ b
        → is_empty (let rest = keep (lacks row) outputs in if b then alias ∷ rest else rest) ≡ true
        → (is_empty (keep (lacks row) outputs) ≡ true
            → All (λ alias'. lacks row alias' ≡ false) outputs)
        → (lacks row alias ≡ false) × All (λ alias'. lacks row alias' ≡ false) outputs
    by_alias true e k ih = cc
    by_alias false e k ih = (e, ih k)

by_missing :
    (outputs : List String) (index : ℕ) (row : Value) (rows : List Value) (b : Bool)
    → is_empty (keep (lacks row) outputs) ≡ b
    → (if b then first_missing outputs (index + 1) rows else some (index, keep (lacks row) outputs))
      ≡ none
    → (first_missing outputs (index + 1) rows ≡ none → AreComplete outputs rows)
    → AreComplete outputs (row ∷ rows)
by_missing outputs index row rows true e h ih = (keep-nil row outputs e, ih h)
by_missing outputs index row rows false e h ih = cc

first_missing_complete :
    (outputs : List String) (index : ℕ) (rows : List Value)
    → first_missing outputs index rows ≡ none
    → AreComplete outputs rows
first_missing_complete outputs index [] h = tt
first_missing_complete outputs index (row ∷ rows) h =
    by_missing outputs index row rows (is_empty (keep (lacks row) outputs)) refl
      (unfold first_missing in h) (first_missing_complete outputs (index + 1) rows)

-- The end of a run that began with no attempt: rows that are complete, an empty result with its
-- reason, or a failure that is final because it cannot be retried or because it was the third.
pub data Verdict (outputs : List String) (s : RetryAgentState) : Type 0 where
  rows :
      (row : Value) (rest : List Value)
      → s.result ≡ some (row ∷ rest)
      → AreComplete outputs (row ∷ rest)
      → s.error ≡ none
      → s.failure ≡ none
      → s.empty_reason ≡ none
      → Verdict outputs s
  empty :
      (prior : List Attempt) (last : Attempt)
      → s.attempts ≡ prior ++ last ∷ []
      → has_rows s.result ≡ false
      → s.empty_reason ≡ some (classify_empty_result prior)
      → s.error ≡ none
      → s.failure ≡ none
      → Verdict outputs s
  failed :
      (error : ErrorText) (why : QueryFailure)
      → s.error ≡ some error
      → s.failure ≡ some why
      → s.result ≡ none
      → (s.retryable ≡ false) ⊎ (s.attempt_count ≡ max_attempts)
      → Verdict outputs s

-- Every attempt is on record, and there are no more than three.
pub record IsCounted (s : RetryAgentState) : Type 0 where
  pub recorded : length s.attempts ≡ s.attempt_count
  pub bounded : s.attempt_count ≤ max_attempts

record Top (outputs : List String) (s : RetryAgentState) : Type 0 where
  outputs_kept : s.required_outputs ≡ outputs
  recorded : length s.attempts ≡ s.attempt_count
  room : s.attempt_count + 1 ≤ max_attempts

-- Behind the node `tools`: counted, and a verdict or something that is tried again.
record Mid (outputs : List String) (s : RetryAgentState) : Type 0 where
  outputs_kept : s.required_outputs ≡ outputs
  counted : IsCounted s
  settled : (should_retry s).0 ≡ false → Verdict outputs s

refused :
    (s : RetryAgentState) (e : ErrorText)
    → s.error ≡ some e
    → s.attempt_count ≤ max_attempts
    → (should_retry s).0 ≡ false
    → (s.retryable ≡ false) ⊎ (s.attempt_count ≡ max_attempts)
unfolding should_retry
refused s e h bound stopped = ground arith

retried : (s : RetryAgentState) → (should_retry s).0 ≡ true → s.attempt_count + 1 ≤ max_attempts
unfolding should_retry
retried s h = ground arith

-- A retryable error before the last attempt is tried again.
tries_again :
    (s : RetryAgentState) (e : ErrorText)
    → s.error ≡ some e
    → s.retryable ≡ true
    → s.attempt_count + 1 ≤ max_attempts
    → (should_retry s).0 ≡ false
    → ⊥
unfolding should_retry
tries_again s e h r room stopped = ground arith

has_room : (s : RetryAgentState) → can_retry_empty s ≡ true → s.attempt_count + 1 ≤ max_attempts
has_room s h = ground arith

snoc_counted :
    (s : RetryAgentState) (a : Attempt)
    → length s.attempts ≡ s.attempt_count
    → length (s.attempts ++ a ∷ []) ≡ s.attempt_count + 1
snoc_counted s a h = omega (arith, length-append {0} s.attempts (a ∷ []))

module _ (c : Config) (outputs : List String) (s : RetryAgentState) (q : String)
    (t : Top outputs s) where
  failing :
      (q' : String) (message : ErrorText) (retryable : Bool) (why : QueryFailure)
      (stage code : String) (error : Option Exception) (feedback : Option ErrorText)
      → Mid outputs (failure c (asked c s q) q' message retryable why stage code error feedback).0
  unfolding failure
  failing q' message retryable why stage code error feedback = record {
    outputs_kept = t.outputs_kept;
    counted = record { recorded = snoc_counted s _ t.recorded; bounded = t.room };
    settled = λ stopped. failed message why refl refl refl (refused _ message refl t.room stopped);
  }

  nothing :
      (q' : String) (result : Option (List Value)) (truncated : Bool)
      → has_rows result ≡ false
      → Mid outputs (empty_result (asked c s q) q' result truncated).0
  unfolding empty_result
  nothing q' result truncated h =
      if_ind (Mid outputs) (can_retry_empty s')
        (λ again. record {
          outputs_kept = t.outputs_kept;
          counted = record { recorded = snoc_counted s _ t.recorded; bounded = t.room };
          settled = λ stopped. absurd (
              tries_again (empty_again s' q' result truncated) empty_result_error refl refl
                (has_room s' again) stopped);
        })
        (λ last. record {
          outputs_kept = t.outputs_kept;
          counted = record { recorded = snoc_counted s _ t.recorded; bounded = t.room };
          settled = λ stopped. empty s.attempts _ refl h refl refl refl;
        })
    where
      s' : RetryAgentState
      s' = asked c s q

  success :
      (q' : String) (row : Value) (rest : List Value) (truncated : Bool)
      → first_missing (asked c s q).required_outputs 0 (row ∷ rest) ≡ none
      → Mid outputs (accepted (asked c s q) q' (row ∷ rest) truncated).0
  success q' row rest truncated whole = record {
    outputs_kept = t.outputs_kept;
    counted = record { recorded = snoc_counted s _ t.recorded; bounded = t.room };
    settled = λ stopped.
        rows row rest refl
          (subst (λ o. AreComplete o (row ∷ rest)) t.outputs_kept
            (first_missing_complete s.required_outputs 0 (row ∷ rest) whole))
          refl refl refl;
  }

cycle :
    (c : Config) (outputs : List String)
    → Cycle c (Top outputs) (Mid outputs) (λ s. IsCounted s × Verdict outputs s)
cycle c outputs = record {
  room = λ s t. t.room;
  step = λ s q t. record {
    failing = failing c outputs s q t;
    empty = nothing c outputs s q t;
    success = success c outputs s q t;
    audited = λ s' effects reason h. h;
  };
  again = λ s m h. record {
    outputs_kept = m.outputs_kept;
    recorded = m.counted.recorded;
    room = retried s h;
  };
  done = λ s m h. (m.counted, m.settled h);
}

-- From a state with no attempts the subgraph, if no exception leaves it, ends within the budget of
-- three attempts with each attempt on record, and in one of three ways: with rows that are objects
-- holding every required output, no error and no empty reason; with an empty result, whose reason
-- is that of the attempts before the last; or with an error and its failure, no result, and either
-- an error that cannot be retried or no attempt left.
pub run-Verdict :
    (c : Config) (s : RetryAgentState)
    → s.attempt_count ≡ 0
    → s.attempts ≡ []
    → OnFinish (λ s'. IsCounted s' × Verdict s.required_outputs s') (run c max_attempts s [])
run-Verdict c s counted fresh =
    run_rule c (cycle c s.required_outputs) max_attempts s [] (omega arith)
      (record { outputs_kept = refl; recorded = rw (fresh, counted); room = omega arith })
