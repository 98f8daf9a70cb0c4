-- ===== src/Pipeline/Runs.antt =====
-- The run of the strict nodes, in parts.
use text2cypher_manufacturin.Common.{
  ◌≡◌, refl, ap, ◌∙◌, Bool, true, false, not, Option, none, some, List, [], ◌∷◌, ◌++◌, ◌⊎◌, inl,
  inr, lookup, if◌then◌else◌,
}
use text2cypher_manufacturin.Python.{Value, none_value, is_none}
use text2cypher_manufacturin.Python.Exceptions.{Call, returns, raises}
use text2cypher_manufacturin.Pipeline.State.{OrchestratorState, update, has_failure, or_none}
use text2cypher_manufacturin.Pipeline.Strict.{Node, after_node, run_nodes}
use text2cypher_manufacturin.Pipeline.Updates.{lookup-update, or_else}

-- What runs behind a part of the nodes, unless that part raised or left a failure.
abbrev unless_failed :
    (OrchestratorState → Call OrchestratorState) → Call OrchestratorState → Call OrchestratorState
unless_failed more (raises exc) = raises exc
unless_failed more (returns state) = if has_failure state then returns state else more state

returns-injective : {A : Type 0} {x y : A} → returns x ≡ returns y → x ≡ y
returns-injective h = cc

-- One node, and what runs behind it, in parts `f` and `g` that fit together.
after_node-append :
    (second : List Node) (state : OrchestratorState)
    (f g : OrchestratorState → Call OrchestratorState) (r : Call OrchestratorState)
    → ((merged : OrchestratorState)
        → has_failure merged ≡ false
        → f merged ≡ unless_failed (run_nodes second) (g merged))
    → after_node f state r ≡ unless_failed (run_nodes second) (after_node g state r)
after_node-append second state f g (raises exc) h = refl
after_node-append second state f g (returns changes) h =
    by_failure (has_failure (update state changes)) refl
  where
    by_failure :
        (b : Bool)
        → has_failure (update state changes) ≡ b
        → (if b then returns (update state changes) else f (update state changes))
          ≡ unless_failed
              (run_nodes second)
              (if b then returns (update state changes) else g (update state changes))
    by_failure true failed = rw failed
    by_failure false failed = h (update state changes) failed

-- A run of the strict nodes can be cut behind any of them: the nodes behind the cut run on the state
-- that those before it leave, and only if that is without a failure and nothing was raised.
run_nodes-append :
    (node : Node) (first second : List Node) (state : OrchestratorState)
    → run_nodes (node ∷ first ++ second) state
      ≡ unless_failed (run_nodes second) (run_nodes (node ∷ first) state)
unfolding run_nodes
run_nodes-append node [] second state =
    after_node-append second state (run_nodes second) (run_nodes []) (node state)
      (λ merged whole. rw whole)
run_nodes-append node (next ∷ rest) second state =
    after_node-append second state (run_nodes (next ∷ rest ++ second)) (run_nodes (next ∷ rest))
      (node state) (λ merged whole. run_nodes-append next rest second merged)

has_failure-lookup :
    (state : OrchestratorState) (o : Option Value)
    → lookup "query_failure" state ≡ o
    → has_failure state ≡ not (is_none (or_none o))
has_failure-lookup state o h = ap (λ o. not (is_none (or_none o))) h

-- No failure is on the state.
abbrev pub IsClean : OrchestratorState → Type 0
IsClean state =
    (lookup "query_failure" state ≡ none) ⊎ (lookup "query_failure" state ≡ some none_value)

IsClean-has_failure : (state : OrchestratorState) → IsClean state → has_failure state ≡ false
unfolding is_none
IsClean-has_failure state (inl h) = has_failure-lookup state none h
IsClean-has_failure state (inr h) = has_failure-lookup state (some none_value) h

-- One node that writes the failure, and what runs behind it.
run_nodes-cons :
    (node : Node) (after : List Node) (state changes : OrchestratorState) (v : Value)
    → node state ≡ returns changes
    → lookup "query_failure" changes ≡ some v
    → run_nodes (node ∷ after) state ≡ (
        if is_none v
        then run_nodes after (update state changes)
        else returns (update state changes))
unfolding run_nodes
run_nodes-cons node after state changes v ran wrote =
    ap (after_node (run_nodes after) state) ran
    ∙ ap (λ b. if b then returns (update state changes) else run_nodes after (update state changes))
        failed
    ∙ turned (is_none v)
  where
    failed : has_failure (update state changes) ≡ not (is_none v)
    failed = has_failure-lookup (update state changes) (some v) (
        lookup-update "query_failure" state changes
        ∙ ap (λ o. or_else o (lookup "query_failure" state)) wrote)

    turned :
        (b : Bool)
        → (if not b then returns (update state changes) else run_nodes after (update state changes))
          ≡ (if b then run_nodes after (update state changes) else returns (update state changes))
    turned true = refl
    turned false = refl

-- A node of the strict path that writes "query_failure" decides alone about the nodes behind it. If
-- the nodes before it leave no failure on the state, then the run ends with its changes when what
-- it writes there is not None, and otherwise the nodes behind it run on the state with its changes.
pub run_nodes-stops :
    (before after : List Node) (node : Node) (state reached changes : OrchestratorState) (v : Value)
    → run_nodes before state ≡ returns reached
    → IsClean reached
    → node reached ≡ returns changes
    → lookup "query_failure" changes ≡ some v
    → run_nodes (before ++ node ∷ after) state ≡ (
        if is_none v
        then run_nodes after (update reached changes)
        else returns (update reached changes))
unfolding run_nodes
run_nodes-stops [] after node state reached changes v came clean ran wrote =
    ap (run_nodes (node ∷ after)) (returns-injective came)
    ∙ run_nodes-cons node after reached changes v ran wrote
run_nodes-stops (first ∷ before) after node state reached changes v came clean ran wrote =
    run_nodes-append first before (node ∷ after) state
    ∙ ap (unless_failed (run_nodes (node ∷ after))) came
    ∙ ap (λ b. if b then returns reached else run_nodes (node ∷ after) reached)
        (IsClean-has_failure reached clean)
    ∙ run_nodes-cons node after reached changes v ran wrote
