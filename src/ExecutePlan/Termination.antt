-- ===== src/ExecutePlan/Termination.antt =====
-- A proof rule for the loop over the waves.
use text2cypher_manufacturin.Common.{
  ℕ, zero, suc, ◌≤◌, ◌<◌, ◌≡◌, refl, Bool, true, false, List, [], ◌∷◌, arith, length, is_empty,
  All-mono, length-keep-add, elem-map-keep, Dict,
}
use text2cypher_manufacturin.Python.Exceptions.{Call, returns, raises}
use text2cypher_manufacturin.Plan.{Subquery}
use text2cypher_manufacturin.ExecutePlan.Outcomes.{Summary}
use text2cypher_manufacturin.ExecutePlan.Subqueries.{Env, Executed}
use text2cypher_manufacturin.ExecutePlan.Raised.{IsRaised, gather-IsRaised}
use text2cypher_manufacturin.ExecutePlan.Waves.{
  Progress, gather, record_results, is_ready, ready_of, waits, left_pending, PlanOutcome, done,
  stalled, crashed, out_of_fuel, Rest, after_gather, after_ready, run_waves,
}

nonempty-pos : {A : Type 0} (xs : List A) → is_empty xs ≡ false → 0 < length xs
nonempty-pos [] h = cc
nonempty-pos (x ∷ xs) h = omega arith

-- A wave takes at least one subquery off the list.
pub left_pending-lt :
    (outcomes : Dict Summary) (pending : List Subquery)
    → is_empty (ready_of outcomes pending) ≡ false
    → length (left_pending outcomes pending) < length pending
left_pending-lt outcomes pending h = omega (
  arith,
  nonempty-pos (ready_of outcomes pending) h,
  length-keep-add (waits (ready_of outcomes pending)) (is_ready outcomes) pending (
      All-mono _ _ pending (λ x named r. ground (arith, named r))
        (elem-map-keep (λ x. x.id) (is_ready outcomes) pending)),
)

-- What to show of an invariant of the loop, of its end, and of a wave in which nothing is ready.
pub record Rule (env : Env) (inv : List Subquery → Progress → Type 0) (final : Progress → Type 0)
    (stuck : Type 0) : Type 0 where
  pub finish : (p : Progress) → inv [] p → final p
  pub halt :
      (subquery : Subquery) (pending : List Subquery) (p : Progress)
      → inv (subquery ∷ pending) p
      → is_empty (ready_of p.outcomes (subquery ∷ pending)) ≡ true
      → stuck
  pub wave :
      (pending : List Subquery) (p : Progress) (results : List (Subquery × Executed))
      → inv pending p
      → gather env p.outcomes (ready_of p.outcomes pending) ≡ returns results
      → inv (left_pending p.outcomes pending) (record_results results p)

-- Where the loop ends by an exception, a call of an agent has raised it.
abbrev pub OnDone : Env → (Progress → Type 0) → Type 0 → PlanOutcome → Type 0
OnDone env final stuck (done p) = final p
OnDone env final stuck stalled = stuck
OnDone env final stuck (crashed exc) = IsRaised env exc
OnDone env final stuck out_of_fuel = ⊥

module _ (env : Env) {inv : List Subquery → Progress → Type 0} {final : Progress → Type 0}
    {stuck : Type 0} (rule : Rule env inv final stuck) where
  open rule use {finish, halt, wave}

  module _ (pending : List Subquery) (p : Progress) (rest : Rest) (i : inv pending p)
      (ih : (p' : Progress)
        → inv (left_pending p.outcomes pending) p'
        → OnDone env final stuck (rest (left_pending p.outcomes pending) p')) where
    after_gather_rule :
        (r : Call (List (Subquery × Executed)))
        → gather env p.outcomes (ready_of p.outcomes pending) ≡ r
        → OnDone env final stuck (after_gather pending p rest r)
    after_gather_rule (raises exc) e =
        gather-IsRaised env exc p.outcomes (ready_of p.outcomes pending) e
    after_gather_rule (returns results) e =
        ih (record_results results p) (wave pending p results i e)

  after_ready_rule :
      (subquery : Subquery) (pending : List Subquery) (p : Progress) (rest : Rest)
      (none_ready : Bool)
      → is_empty (ready_of p.outcomes (subquery ∷ pending)) ≡ none_ready
      → inv (subquery ∷ pending) p
      → (is_empty (ready_of p.outcomes (subquery ∷ pending)) ≡ false
          → (p' : Progress) → inv (left_pending p.outcomes (subquery ∷ pending)) p'
          → OnDone env final stuck (rest (left_pending p.outcomes (subquery ∷ pending)) p'))
      → OnDone env final stuck (after_ready env (subquery ∷ pending) p rest none_ready)
  after_ready_rule subquery pending p rest true e i ih = halt subquery pending p i e
  after_ready_rule subquery pending p rest false e i ih =
      after_gather_rule (subquery ∷ pending) p rest i (ih e) _ refl

  -- One unit of fuel for each pending subquery is enough, and where the loop does not end by an
  -- exception that a call of an agent raised, the rule's conclusion holds.
  pub run_waves_rule :
      (fuel : ℕ) (pending : List Subquery) (p : Progress)
      → length pending ≤ fuel
      → inv pending p
      → OnDone env final stuck (run_waves env fuel pending p)
  unfolding run_waves
  run_waves_rule fuel [] p enough i = finish p i
  run_waves_rule zero (subquery ∷ pending) p enough i = absurd (omega arith)
  run_waves_rule (suc fuel) (subquery ∷ pending) p enough i =
      after_ready_rule subquery pending p (run_waves env fuel) _ refl i λ some_ready p' i'.
        run_waves_rule fuel (left_pending p.outcomes (subquery ∷ pending)) p'
          (omega (arith, left_pending-lt p.outcomes (subquery ∷ pending) some_ready)) i'
