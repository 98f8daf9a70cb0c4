-- ===== src/Retry/Rule.antt =====
-- What the node `tools` can do to the state, as a proof rule: it fails, takes an empty result, or
-- accepts rows that have every required output.
use text2cypher_manufacturin.Common.{
  ◌≡◌, refl, String, Bool, Option, none, some, List, ◌∷◌, if_ind, true, false, [], ℕ,
}
use text2cypher_manufacturin.Python.Exceptions.{Exception, Call, returns, raises}
use text2cypher_manufacturin.Failures.{QueryFailure}
use text2cypher_manufacturin.Python.{Value}
use text2cypher_manufacturin.Retry.State.{
  RetryAgentState, Config, Effect, guard_decision, Update, ErrorText, Executed, batch, legacy,
  GuardResult,
}
use text2cypher_manufacturin.Retry.Checks.{
  Check, pass, stop, crash, failure, check_guard, check_contract, guard_given, contract_given,
  guarded, contracted,
}
use text2cypher_manufacturin.Retry.Tools.{
  Step, updated, left, tools, query_text, classify, nonempty_or, execution_failed, empty_result,
  check_result, accepted, can_retry_empty, execute_and_classify, after_contract, after_guard,
  first_missing, invariant_checked, invariant_given, aliases_checked,
}

abbrev pub has_rows : Option (List Value) → Bool
has_rows (some (row ∷ rows)) = true
has_rows _ = false

pub record Rule (c : Config) (s : RetryAgentState) (P : Update → Type 0) : Type 0 where
  pub failing :
      (q : String) (message : ErrorText) (retryable : Bool) (safe_failure : QueryFailure)
      (stage reason_code : String) (error : Option Exception) (feedback : Option ErrorText)
      → P (failure c s q message retryable safe_failure stage reason_code error feedback)
  pub empty :
      (q : String) (result : Option (List Value)) (truncated : Bool)
      → has_rows result ≡ false
      → P (empty_result s q result truncated)
  pub success :
      (q : String) (row : Value) (rows : List Value) (truncated : Bool)
      → first_missing s.required_outputs 0 (row ∷ rows) ≡ none
      → P (accepted s q (row ∷ rows) truncated)
  pub audited :
      (s' : RetryAgentState) (effects : List Effect) (reason : Option String)
      → P (s', effects)
      → P (s', guard_decision false reason ∷ effects)

-- A property of the state alone.
abbrev pub StateRule : Config → RetryAgentState → (RetryAgentState → Type 0) → Type 0
StateRule c s Q = Rule c s (λ u. Q u.0)

pub Rule_both :
    {c : Config} {s : RetryAgentState} (P Q : RetryAgentState → Type 0)
    → StateRule c s P
    → StateRule c s Q
    → StateRule c s (λ s'. P s' × Q s')
Rule_both P Q p r = record {
  failing = λ q message retryable why stage code error feedback. (
    p.failing q message retryable why stage code error feedback,
    r.failing q message retryable why stage code error feedback,
  );
  empty = λ q result truncated h. (p.empty q result truncated h, r.empty q result truncated h);
  success = λ q row rows truncated h.
      (p.success q row rows truncated h, r.success q row rows truncated h);
  audited = λ s' effects reason h. h;
}

-- The node `tools` leaves the number of attempts alone.
pub count_kept :
    (c : Config) (s : RetryAgentState) → StateRule c s (λ s'. s'.attempt_count ≡ s.attempt_count)
unfolding failure empty_result
count_kept c s = record {
  failing = λ q message retryable why stage code error feedback. refl;
  empty = λ q result truncated h.
      if_ind (λ (s' : RetryAgentState). s'.attempt_count ≡ s.attempt_count) (can_retry_empty s)
        (λ _. refl) (λ _. refl);
  success = λ q row rows truncated h. refl;
  audited = λ s' effects reason h. h;
}

abbrev pub OnStop : (Update → Type 0) → Check → Type 0
OnStop P (pass _) = Unit
OnStop P (stop u) = P u
OnStop P (crash _ _) = Unit

module _ (c : Config) (s : RetryAgentState) (P : Update → Type 0) (rule : Rule c s P) where
  open rule use {failing, empty, success, audited}

  execution_failed_rule : (q : String) (exc : Exception) → P (execution_failed c s q exc)
  unfolding execution_failed
  execution_failed_rule q exc =
      if_ind P (c.is_retryable exc) (λ _. failing q _ _ _ _ _ _ _)
        (λ _.
          if_ind P (c.is_connection exc) (λ _. failing q _ _ _ _ _ _ _)
            (λ _. failing q _ _ _ _ _ _ _))

  module _ (q : String) (row : Value) (rows : List Value) (truncated : Bool)
      (whole : first_missing s.required_outputs 0 (row ∷ rows) ≡ none) where
    invariant_checked_rule :
        (r : Call (Option String)) → P (invariant_checked c s q (row ∷ rows) truncated r)
    invariant_checked_rule (raises exc) = failing q _ _ _ _ _ _ _
    invariant_checked_rule (returns none) = success q row rows truncated whole
    invariant_checked_rule (returns (some message)) = failing q _ _ _ _ _ _ _

    invariant_given_rule :
        (o : Option (List Value → RetryAgentState → Call (Option String)))
        → P (invariant_given c s q (row ∷ rows) truncated o)
    invariant_given_rule none = success q row rows truncated whole
    invariant_given_rule (some contract) = invariant_checked_rule (contract (row ∷ rows) s)

  aliases_checked_rule :
      (q : String) (row : Value) (rows : List Value) (truncated : Bool)
      (o : Option (ℕ × List String))
      → first_missing s.required_outputs 0 (row ∷ rows) ≡ o
      → P (aliases_checked c s q (row ∷ rows) truncated o)
  aliases_checked_rule q row rows truncated (some (_, _)) e = failing q _ _ _ _ _ _ _
  aliases_checked_rule q row rows truncated none e =
      invariant_given_rule q row rows truncated e c.result_contract_error

  check_result_rule :
      (q : String) (row : Value) (rows : List Value) (truncated : Bool)
      → P (check_result c s q (row ∷ rows) truncated)
  unfolding check_result
  check_result_rule q row rows truncated = aliases_checked_rule q row rows truncated _ refl

  nonempty_or_rule :
      (q : String) (rows : List Value) (truncated : Bool) → P (nonempty_or c s q rows truncated)
  nonempty_or_rule q [] truncated = empty q (some []) truncated refl
  nonempty_or_rule q (row ∷ rows) truncated = check_result_rule q row rows truncated

  pub classify_rule : (q : String) (r : Call Executed) → P (classify c s q r)
  classify_rule q (raises exc) = execution_failed_rule q exc
  classify_rule q (returns (legacy none)) = empty q none false refl
  classify_rule q (returns (legacy (some rows))) = nonempty_or_rule q rows false
  classify_rule q (returns (batch rows truncated)) = nonempty_or_rule q rows truncated

  guarded_rule : (q : String) (r : Call GuardResult) → OnStop P (guarded c s q r)
  guarded_rule q (raises exc) = failing q _ _ _ _ _ _ _
  guarded_rule q (returns r) =
      if_ind (OnStop P) r.allowed (λ _. tt) (λ _. audited _ _ _ (failing q _ _ _ _ _ _ _))

  pub guard_given_rule :
      (q : String) (o : Option (String → Call GuardResult)) → OnStop P (guard_given c s q o)
  guard_given_rule q none = tt
  guard_given_rule q (some guard) = guarded_rule q (guard q)

  contracted_rule : (q : String) (r : Call (Option String)) → OnStop P (contracted c s q r)
  contracted_rule q (raises exc) = tt
  contracted_rule q (returns none) = tt
  contracted_rule q (returns (some message)) = failing q _ _ _ _ _ _ _

  pub contract_given_rule :
      (q : String) (o : Option (String → List String → Call (Option String)))
      → OnStop P (contract_given c s q o)
  contract_given_rule q none = tt
  contract_given_rule q (some contract) = contracted_rule q (contract q s.required_outputs)

abbrev pub OnUpdated : (RetryAgentState → Type 0) → Step → Type 0
OnUpdated P (updated s _) = P s
OnUpdated P (left _ _) = Unit

module _ (c : Config) (s : RetryAgentState) (Q : RetryAgentState → Type 0)
    (rule : StateRule c s Q) where
  abbrev P : Update → Type 0
  P u = Q u.0

  after_contract_rule :
      (audited : List Effect) (q : String) (k : Check)
      → OnStop P k
      → OnUpdated Q (after_contract c s q audited k)
  unfolding execute_and_classify
  after_contract_rule audited q (pass _) h =
      classify_rule c s P rule q (c.execute s.attempt_count q)
  after_contract_rule audited q (stop (_, _)) h = h
  after_contract_rule audited q (crash _ _) h = tt

  after_guard_rule : (q : String) (k : Check) → OnStop P k → OnUpdated Q (after_guard c s q k)
  unfolding check_contract
  after_guard_rule q (pass audited) h =
      after_contract_rule audited q _ (contract_given_rule c s P rule q c.query_contract_error)
  after_guard_rule q (stop (_, _)) h = h
  after_guard_rule q (crash _ _) h = tt

  -- Whatever the node leaves behind when it is not left by an exception has the property.
  pub tools_rule : OnUpdated Q (tools c s)
  unfolding tools check_guard
  tools_rule =
      after_guard_rule (query_text s) _ (guard_given_rule c s P rule (query_text s) c.guard)
