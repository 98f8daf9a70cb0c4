-- ===== src/ExecutePlan/Severity.antt =====
-- The failure that `execute_plan` reports, against those of the outcomes.
use text2cypher_manufacturin.Common.{
  ◌≡◌, refl, String, Bool, true, false, Option, none, some, List, [], ◌∷◌, arith, ◌==◌, Dict,
  lookup, lookup-insert, if◌then◌else◌, length, subst, some_inj, ap, ◌∙◌, not,
}
use native.Mathlib.Nat.{le_refl}
use text2cypher_manufacturin.Failures.{
  Tool, sql, graph, QueryFailure, FailureKind, infrastructure, internal, user_correctable,
}
use text2cypher_manufacturin.Plan.{Subquery}
use text2cypher_manufacturin.ExecutePlan.Outcomes.{
  Summary, failure_priority, rank, rank_gt, prefer_failure,
}
use text2cypher_manufacturin.ExecutePlan.Subqueries.{Env, Executed}
use text2cypher_manufacturin.ExecutePlan.Waves.{
  Progress, record_result, record_results, reported, write_result, execute_plan,
}
use text2cypher_manufacturin.ExecutePlan.Termination.{Rule, OnDone, run_waves_rule}

-- `f` ranks no higher than what is reported.
abbrev IsCovered : QueryFailure → Option QueryFailure → Type 0
IsCovered f none = ⊥
IsCovered f (some g) = rank_gt (rank f) (rank g) ≡ false

prefer-IsCovered :
    (f : QueryFailure) (current : Option QueryFailure) (candidate : QueryFailure)
    → IsCovered f current
    → IsCovered f (some (prefer_failure current candidate))
unfolding prefer_failure
prefer-IsCovered f none candidate h = absurd h
prefer-IsCovered f (some g) candidate h = ground arith

prefer_candidate :
    (current : Option QueryFailure) (candidate : QueryFailure)
    → IsCovered candidate (some (prefer_failure current candidate))
unfolding prefer_failure
prefer_candidate none candidate = ground arith
prefer_candidate (some g) candidate = ground arith

-- Every failure that an outcome holds is covered by the report.
abbrev Covers : Dict Summary → Option QueryFailure → Type 0
Covers outcomes report =
    (id : String) (s : Summary) (f : QueryFailure)
    → lookup id outcomes ≡ some s
    → s.failure ≡ some f
    → IsCovered f report

reported-IsCovered :
    (f : QueryFailure) (current new : Option QueryFailure)
    → IsCovered f current
    → IsCovered f (reported current new)
reported-IsCovered f current none h = h
reported-IsCovered f current (some candidate) h = prefer-IsCovered f current candidate h

reported_new :
    (f : QueryFailure) (current new : Option QueryFailure)
    → new ≡ some f
    → IsCovered f (reported current new)
reported_new f current none e = cc
reported_new f current (some candidate) e =
    subst (λ g. IsCovered g (some (prefer_failure current candidate))) (some_inj e)
      (prefer_candidate current candidate)

record_result-Covers :
    (subquery : Subquery) (e : Executed) (p : Progress)
    → Covers p.outcomes p.output.query_failure
    → Covers (record_result subquery e p).outcomes (record_result subquery e p).output.query_failure
unfolding record_result
record_result-Covers subquery e p h id s f found has =
    by_id (subquery.id == id) (rw (lookup-insert subquery.id id e.summary p.outcomes) at found)
  where
    by_tool : (tool : Tool) → (write_result tool e p.output).query_failure ≡ p.output.query_failure
    by_tool sql = refl
    by_tool graph = refl

    by_id :
        (b : Bool)
        → (if b then some e.summary else lookup id p.outcomes) ≡ some s
        → IsCovered f
            (reported (write_result subquery.tool e p.output).query_failure e.summary.failure)
    by_id true same = rw (by_tool subquery.tool) (
        reported_new f p.output.query_failure e.summary.failure
          (ap (λ t. t.failure) (some_inj same) ∙ has))
    by_id false old =
        rw (by_tool subquery.tool)
          (reported-IsCovered f p.output.query_failure e.summary.failure (h id s f old has))

record_results-Covers :
    (results : List (Subquery × Executed)) (p : Progress)
    → Covers p.outcomes p.output.query_failure
    → Covers (record_results results p).outcomes (record_results results p).output.query_failure
unfolding record_results
record_results-Covers [] p h = h
record_results-Covers ((subquery, e) ∷ results) p h =
    record_results-Covers results (record_result subquery e p) (record_result-Covers subquery e p h)

-- The severity of failures: `same` is asked of two failures of the same kind.
abbrev pub IsAtMost : (same : Type 0) → FailureKind → FailureKind → Type 0
IsAtMost same infrastructure infrastructure = same
IsAtMost same infrastructure internal = ⊥
IsAtMost same infrastructure user_correctable = ⊥
IsAtMost same internal infrastructure = Unit
IsAtMost same internal internal = same
IsAtMost same internal user_correctable = ⊥
IsAtMost same user_correctable infrastructure = Unit
IsAtMost same user_correctable internal = Unit
IsAtMost same user_correctable user_correctable = same

-- The first is of a milder kind, or of the same kind and dependent if the second is.
abbrev pub IsNoWorse : QueryFailure → QueryFailure → Type 0
IsNoWorse f g = IsAtMost (g.dependent_failure ≡ true → f.dependent_failure ≡ true) f.kind g.kind

-- Every failure that an outcome holds is no worse than the one that is reported.
abbrev pub Reports : Dict Summary → Option QueryFailure → Type 0
Reports outcomes report =
    (id : String) (s : Summary) (f : QueryFailure)
    → lookup id outcomes ≡ some s
    → s.failure ≡ some f
    → (g : QueryFailure) × (report ≡ some g) × IsNoWorse f g

-- The pairs that Python compares are in this order.
rank-IsAtMost :
    (k l : FailureKind) (a b : Bool)
    → rank_gt (failure_priority k, not a) (failure_priority l, not b) ≡ false
    → IsAtMost (b ≡ true → a ≡ true) k l
rank-IsAtMost infrastructure infrastructure a b h = λ same. ground (arith, h, same)
rank-IsAtMost infrastructure internal a b h = cc
rank-IsAtMost infrastructure user_correctable a b h = cc
rank-IsAtMost internal infrastructure a b h = tt
rank-IsAtMost internal internal a b h = λ same. ground (arith, h, same)
rank-IsAtMost internal user_correctable a b h = cc
rank-IsAtMost user_correctable infrastructure a b h = tt
rank-IsAtMost user_correctable internal a b h = tt
rank-IsAtMost user_correctable user_correctable a b h = λ same. ground (arith, h, same)

IsCovered-IsNoWorse :
    (f : QueryFailure) (report : Option QueryFailure)
    → IsCovered f report
    → (g : QueryFailure) × (report ≡ some g) × IsNoWorse f g
IsCovered-IsNoWorse f none h = absurd h
IsCovered-IsNoWorse f (some g) h =
    (g, refl, rank-IsAtMost f.kind g.kind f.dependent_failure g.dependent_failure h)

rule :
    (env : Env)
    → Rule env
        (λ _ p. Covers p.outcomes p.output.query_failure)
        (λ p. Reports p.outcomes p.output.query_failure)
        Unit
rule env = record {
  finish =
      λ p h id s f found has. IsCovered-IsNoWorse f p.output.query_failure (h id s f found has);
  halt = λ s pending p h e. tt;
  wave = λ pending p results h g. record_results-Covers results p h;
}

-- When a plan has run to its end and an outcome holds a failure, the node reports one that is at
-- least as severe: an infrastructure failure is more severe than an internal one, which is more
-- severe than one that the user can correct, and among failures of one kind an own failure is more
-- severe than a dependent one. If the plan ends by an exception, some call of an agent raises it.
pub execute_plan-Reports :
    (env : Env) (plan : List Subquery)
    → OnDone env (λ p. Reports p.outcomes p.output.query_failure) Unit (execute_plan env plan)
unfolding execute_plan
execute_plan-Reports env plan =
    run_waves_rule env (rule env) (length plan) plan _ (le_refl _) (λ id s f found has. cc)
