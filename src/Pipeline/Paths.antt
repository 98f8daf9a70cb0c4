-- ===== src/Pipeline/Paths.antt =====
-- The nodes that a run of the pipeline enters.
use text2cypher_manufacturin.Common.{
  ℕ, suc, ◌≡◌, refl, ◌∙◌, ap, Bool, true, false, not, some, String, List, [], ◌∷◌, ◌⊎◌, inl, inr,
  lookup, if◌then◌else◌,
}
use text2cypher_manufacturin.Python.{Value, str, none_value, is_none}
use text2cypher_manufacturin.Python.Exceptions.{Call, returns, raises, codes}
use text2cypher_manufacturin.Pipeline.State.{
  OrchestratorState, update, has_failure, or_none, or_key_error,
}
use text2cypher_manufacturin.Pipeline.Request.{has_write_intent}
use text2cypher_manufacturin.Pipeline.Nodes.{
  guard_request, with_query, failure_value, request_policy_blocked,
}
use text2cypher_manufacturin.Pipeline.Strict.{Node, strict_query, query_input}
use text2cypher_manufacturin.Pipeline.Graph.{
  NodeName, guard_request_node, classify_topic_node, strict_query_node, resolve_entity_node,
  route_query_node, plan_outputs_node, execute_plan_node, compose_results_node,
  generate_answer_node, Env, node_of, by_strategy, next_node, GraphRun, answered, crashed, entered,
  along, after_update, run_from, run_graph,
}
use text2cypher_manufacturin.Pipeline.Updates.{lookup-update, has_value-update}
use text2cypher_manufacturin.Pipeline.Fallback.{strict_query-decides, IsTakenOver, IsCleanStart}

-- The run of `generate_answer`, behind the nodes of a trace.
abbrev pub answering : Call OrchestratorState → OrchestratorState → GraphRun
answering (raises exc) state = crashed exc (generate_answer_node ∷ [])
answering (returns changes) state = answered (update state changes) (generate_answer_node ∷ [])

-- The state behind a request that is refused.
abbrev pub refused : OrchestratorState → OrchestratorState
refused state = update state (("query_failure", failure_value request_policy_blocked) ∷ [])

-- The nodes of a run, by what the guard, the topic and the strict path say.
abbrev pub path : (blocked off_topic accepted : Bool) → List NodeName
path true off_topic accepted = guard_request_node ∷ generate_answer_node ∷ []
path false true accepted = guard_request_node ∷ classify_topic_node ∷ generate_answer_node ∷ []
path false false true =
    guard_request_node ∷ classify_topic_node ∷ strict_query_node ∷ generate_answer_node ∷ []
path false false false =
    guard_request_node ∷ classify_topic_node ∷ strict_query_node ∷ resolve_entity_node
    ∷ route_query_node ∷ plan_outputs_node ∷ execute_plan_node ∷ compose_results_node
    ∷ generate_answer_node ∷ []

-- The node raises nothing.
abbrev pub IsTotal : Node → Type 0
IsTotal node =
    (state : OrchestratorState) → (changes : OrchestratorState) × (node state ≡ returns changes)

module _ (env : Env) where
  -- A run over one edge.
  run_from-edge :
      (fuel : ℕ) (name name' : NodeName) (state changes : OrchestratorState)
      → node_of env name state ≡ returns changes
      → next_node name (update state changes) ≡ returns (some name')
      → run_from env (suc fuel) name state
        ≡ entered name (run_from env fuel name' (update state changes))
  unfolding run_from
  run_from-edge fuel name name' state changes node edge =
      ap (λ r. entered name (after_update (run_from env fuel) name state r)) node
      ∙ ap (λ e. entered name (along (run_from env fuel) (update state changes) e)) edge

  run_from-answer :
      (fuel : ℕ) (state : OrchestratorState)
      → run_from env (suc fuel) generate_answer_node state
        ≡ answering (env.generate_answer state) state
  unfolding run_from
  run_from-answer fuel state = by_call (env.generate_answer state)
    where
      by_call :
          (r : Call OrchestratorState)
          → entered generate_answer_node
              (after_update (run_from env fuel) generate_answer_node state r)
            ≡ answering r state
      by_call (raises exc) = refl
      by_call (returns changes) = refl

  -- What the guard puts under the failure.
  abbrev refusal : Bool → Value
  refusal blocked = if blocked then failure_value request_policy_blocked else none_value

  guard_request-eq :
      (state : OrchestratorState) (query : String) (blocked : Bool)
      → lookup "query" state ≡ some (str query)
      → has_write_intent env.is_alnum (codes query) ≡ blocked
      → guard_request env.is_alnum state ≡ returns (("query_failure", refusal blocked) ∷ [])
  unfolding guard_request
  guard_request-eq state query blocked given writes =
      ap (λ o. with_query env.is_alnum (or_key_error o)) given
      ∙ ap (λ b. returns (("query_failure", refusal b) ∷ [])) writes

  has_failure-update :
      (state : OrchestratorState) (v : Value)
      → has_failure (update state (("query_failure", v) ∷ [])) ≡ not (is_none v)
  has_failure-update state v =
      ap (λ o. not (is_none (or_none o)))
        (lookup-update "query_failure" state (("query_failure", v) ∷ []))

  -- A request to write enters no node but the guard and the answer, which sees the refusal.
  pub run_graph-refuses :
      (state : OrchestratorState) (query : String)
      → lookup "query" state ≡ some (str query)
      → has_write_intent env.is_alnum (codes query) ≡ true
      → run_graph env state
        ≡ entered guard_request_node
            (answering (env.generate_answer (refused state)) (refused state))
  unfolding is_none
  run_graph-refuses state query given writes =
      run_from-edge 8 guard_request_node generate_answer_node state _
        (guard_request-eq state query true given writes)
        (rw (has_failure-update state (failure_value request_policy_blocked)) refl)
      ∙ ap (entered guard_request_node) (run_from-answer 7 (refused state))

  -- A run from a node on that ends, with the nodes that it enters.
  abbrev Answers : (fuel : ℕ) → NodeName → OrchestratorState → List NodeName → Type 0
  Answers fuel name state trace =
      (final : OrchestratorState) × (run_from env fuel name state ≡ answered final trace)

  edge-Answers :
      (fuel : ℕ) (name name' : NodeName) (state changes : OrchestratorState) (trace : List NodeName)
      → node_of env name state ≡ returns changes
      → next_node name (update state changes) ≡ returns (some name')
      → Answers fuel name' (update state changes) trace
      → Answers (suc fuel) name state (name ∷ trace)
  edge-Answers fuel name name' state changes trace node edge (final, same) =
      (final, run_from-edge fuel name name' state changes node edge ∙ ap (entered name) same)

  -- The strict path on a state: its result is taken over, or the other path starts clean.
  abbrev pub IsStrict : (before after : OrchestratorState) (accepted : Bool) → Type 0
  IsStrict before after true =
      (query : Value) × (lookup "query" before ≡ some query)
      × (result : OrchestratorState) × (env.strict.within_timeout
            (env.strict.run_strict (query_input env.strict before query))
          ≡ returns result)
      × IsTakenOver env.strict before after result
  IsStrict before after false = IsCleanStart env.strict before after

  abbrev pub IsJudged : OrchestratorState → (accepted : Bool) → Type 0
  IsJudged state accepted =
      (changes : OrchestratorState) × (strict_query env.strict state ≡ returns changes)
      × IsStrict state (update state changes) accepted

  -- The topic on a state: it leaves a failure, or the strict path follows.
  abbrev pub IsTopic : OrchestratorState → (off_topic accepted : Bool) → Type 0
  IsTopic after true accepted = has_failure after ≡ true
  IsTopic after false accepted = (has_failure after ≡ false) × IsJudged after accepted

  abbrev pub IsClassified : OrchestratorState → (off_topic accepted : Bool) → Type 0
  IsClassified state off_topic accepted =
      (changes : OrchestratorState) × (env.classify_topic state ≡ returns changes)
      × IsTopic (update state changes) off_topic accepted

  -- What decides about the path of a run.
  abbrev pub IsDecided : OrchestratorState → (blocked off_topic accepted : Bool) → Type 0
  IsDecided state true off_topic accepted = Unit
  IsDecided state false off_topic accepted =
      IsClassified (update state (("query_failure", none_value) ∷ [])) off_topic accepted

  module _ (classify : IsTotal env.classify_topic) (resolve : IsTotal env.resolve_entity)
      (route : IsTotal env.route_query) (plan : IsTotal env.plan_outputs)
      (execute : IsTotal env.execute_plan) (compose : IsTotal env.compose_results)
      (answer : IsTotal env.generate_answer) where
    answer-Answers :
        (fuel : ℕ) (state : OrchestratorState)
        → Answers (suc fuel) generate_answer_node state (generate_answer_node ∷ [])
    answer-Answers fuel state =
        let (changes, e) = answer state in
        (update state changes, run_from-answer fuel state ∙ ap (λ r. answering r state) e)

    -- From the resolution of the entity on, every edge is fixed.
    planned-Answers :
        (state : OrchestratorState)
        → Answers 6 resolve_entity_node state (
            resolve_entity_node ∷ route_query_node ∷ plan_outputs_node ∷ execute_plan_node
            ∷ compose_results_node ∷ generate_answer_node ∷ [])
    planned-Answers state =
        let (resolved, e1) = resolve state in
        let (routed, e2) = route (update state resolved) in
        let (planned, e3) = plan (update (update state resolved) routed) in
        let (executed, e4) = execute (update (update (update state resolved) routed) planned) in
        let (composed, e5) =
          compose (update (update (update (update state resolved) routed) planned) executed) in
        edge-Answers 5 resolve_entity_node route_query_node _ resolved _ e1 refl (
          edge-Answers 4 route_query_node plan_outputs_node _ routed _ e2 refl (
            edge-Answers 3 plan_outputs_node execute_plan_node _ planned _ e3 refl (
              edge-Answers 2 execute_plan_node compose_results_node _ executed _ e4 refl (
                edge-Answers 1 compose_results_node generate_answer_node _ composed _ e5 refl
                  (answer-Answers 0 _)))))

    abbrev behind_topic : (accepted : Bool) → List NodeName
    behind_topic true = strict_query_node ∷ generate_answer_node ∷ []
    behind_topic false =
        strict_query_node ∷ resolve_entity_node ∷ route_query_node ∷ plan_outputs_node
        ∷ execute_plan_node ∷ compose_results_node ∷ generate_answer_node ∷ []

    strict-Answers :
        (state : OrchestratorState) (query : Value)
        → lookup "query" state ≡ some query
        → (accepted : Bool) × IsJudged state accepted
          × Answers 7 strict_query_node state (behind_topic accepted)
    strict-Answers state query given =
        let (changes, e, how) = strict_query-decides env.strict state query given in
        by_decision changes e how
      where
        by_decision :
            (changes : OrchestratorState)
            → strict_query env.strict state ≡ returns changes
            → ((result : OrchestratorState) × (env.strict.within_timeout
                    (env.strict.run_strict (query_input env.strict state query))
                  ≡ returns result)
                × IsTakenOver env.strict state (update state changes) result)
              ⊎ IsCleanStart env.strict state (update state changes)
            → (accepted : Bool) × IsJudged state accepted
              × Answers 7 strict_query_node state (behind_topic accepted)
        by_decision changes e (inl (result, ran, over)) = (
          true,
          (changes, e, (query, given, result, ran, over)),
          edge-Answers 6 strict_query_node generate_answer_node state changes _ e
              (ap by_strategy over.0) (answer-Answers 5 _),
        )
        by_decision changes e (inr fresh) = (
          false,
          (changes, e, fresh),
          edge-Answers 6 strict_query_node resolve_entity_node state changes _ e
              (ap by_strategy fresh.0) (planned-Answers _),
        )

    classify-Answers :
        (state : OrchestratorState) (query : Value)
        → lookup "query" state ≡ some query
        → (off_topic : Bool) × (accepted : Bool) × IsClassified state off_topic accepted
          × Answers 8 classify_topic_node state (
              classify_topic_node
              ∷ (if off_topic then generate_answer_node ∷ [] else behind_topic accepted))
    classify-Answers state query given =
        let (changes, e) = classify state in
        by_topic changes e (has_failure (update state changes)) refl
      where
        by_topic :
            (changes : OrchestratorState)
            → env.classify_topic state ≡ returns changes
            → (b : Bool) → has_failure (update state changes) ≡ b
            → (off_topic : Bool) × (accepted : Bool) × IsClassified state off_topic accepted
              × Answers 8 classify_topic_node state (
                  classify_topic_node
                  ∷ (if off_topic then generate_answer_node ∷ [] else behind_topic accepted))
        by_topic changes e true failed = (
          true,
          true,
          (changes, e, failed),
          edge-Answers 7 classify_topic_node generate_answer_node state changes _ e
              (ap (λ b. returns (some (if b then generate_answer_node else strict_query_node)))
                failed)
              (answer-Answers 6 _),
        )
        by_topic changes e false failed =
            let (kept, same) = has_value-update "query" state changes query given in
            let (accepted, judged, rest) = strict-Answers (update state changes) kept same in
            (
              false,
              accepted,
              (changes, e, (failed, judged)),
              edge-Answers 7 classify_topic_node strict_query_node state changes _ e
                  (ap (λ b. returns (some (if b then generate_answer_node else strict_query_node)))
                    failed)
                  rest,
            )

    path-eq :
        (off_topic accepted : Bool)
        → guard_request_node
            ∷ classify_topic_node
            ∷ (if off_topic then generate_answer_node ∷ [] else behind_topic accepted)
          ≡ path false off_topic accepted
    path-eq true accepted = refl
    path-eq false true = refl
    path-eq false false = refl

    -- If the nodes that call a model or a database raise nothing, a run on a state with a query
    -- answers: it enters the guard first and the answer once, at the end. Behind the guard it goes
    -- straight to the answer exactly for a request to write, behind the topic exactly when the
    -- topic leaves a failure on the state, and behind the strict path when its result is taken
    -- over: then the state says "strict", the result is answerable and what is withheld stays as it
    -- was. When the strict result is not taken over, the state says "pr61" and is as it was but for
    -- two keys, and the nodes of the other path follow in their order.
    pub run_graph-answers :
        (state : OrchestratorState) (query : String)
        → lookup "query" state ≡ some (str query)
        → (off_topic : Bool) × (accepted : Bool) × (final : OrchestratorState) × IsDecided state
            (has_write_intent env.is_alnum (codes query))
            off_topic
            accepted
          × (run_graph env state
              ≡ answered final
                  (path (has_write_intent env.is_alnum (codes query)) off_topic accepted))
    unfolding is_none
    run_graph-answers state query given =
        by_intent (has_write_intent env.is_alnum (codes query)) refl
      where
        by_intent :
            (blocked : Bool)
            → has_write_intent env.is_alnum (codes query) ≡ blocked
            → (off_topic : Bool) × (accepted : Bool) × (final : OrchestratorState) × IsDecided state
                blocked off_topic accepted
              × (run_graph env state ≡ answered final (path blocked off_topic accepted))
        by_intent true writes =
            let (final, same) =
              edge-Answers 8 guard_request_node generate_answer_node state _ _
                (guard_request-eq state query true given writes)
                (rw (has_failure-update state (refusal true)) refl) (answer-Answers 7 _) in
            (true, true, final, tt, same)
        by_intent false writes =
            let (kept, stays) =
              has_value-update "query" state (("query_failure", none_value) ∷ []) (str query)
                given in
            let (off_topic, accepted, decided, rest) = classify-Answers _ kept stays in
            let (final, same) =
              edge-Answers 8 guard_request_node classify_topic_node state _ _
                (guard_request-eq state query false given writes)
                (rw (has_failure-update state (refusal false)) refl) rest in
            (
              off_topic,
              accepted,
              final,
              decided,
              same ∙ ap (answered final) (path-eq off_topic accepted),
            )
