-- ===== src/ExecutePlan/Outcome.antt =====
-- The end of `execute_plan` on a plan in dependency order.
use text2cypher_manufacturin.Common.{
  ◌≡◌, refl, String, Bool, true, false, not, ◌||◌, List, [], ◌∷◌, arith, length, keep, all, elem,
  map, ◌==◌, eq_iff, eq_refl, All, All-mono, ap, Dict, has_key, has_key-insert, if◌then◌else◌,
  subst, ◌⊎◌, inl, inr,
}
use native.Mathlib.Nat.{le_refl}
use text2cypher_manufacturin.Python.Exceptions.{Call, returns, raises}
use text2cypher_manufacturin.Plan.{Subquery}
use text2cypher_manufacturin.ExecutePlan.Outcomes.{Summary}
use text2cypher_manufacturin.ExecutePlan.Subqueries.{Env, Executed, execute_subquery}
use text2cypher_manufacturin.ExecutePlan.Waves.{
  Progress, gather, record_result, record_results, ready_of, waits, left_pending, continue,
  PlanOutcome, done, stalled, crashed, out_of_fuel, execute_plan,
}
use text2cypher_manufacturin.ExecutePlan.Termination.{Rule, OnDone, run_waves_rule}

-- Each subquery depends only on what is known and on the subqueries before it.
abbrev pub IsOrdered : (String → Bool) → List Subquery → Type 0
IsOrdered known [] = Unit
IsOrdered known (s ∷ subqueries) =
    (all known s.depends_on ≡ true) × IsOrdered (λ k. s.id == k || known k) subqueries

pub all_mono :
    (p q : String → Bool) (ks : List String)
    → ((k : String) → p k ≡ true → q k ≡ true)
    → all p ks ≡ true
    → all q ks ≡ true
all_mono p q [] f h = refl
all_mono p q (k ∷ ks) f h = ground (arith, f k, all_mono p q ks f)

-- Taking subqueries off whose ids become known leaves an ordered plan.
IsOrdered-keep :
    (p : Subquery → Bool) (known known' : String → Bool) (subqueries : List Subquery)
    → ((k : String) → known k ≡ true → known' k ≡ true)
    → ((s : Subquery) → p s ≡ false → known' s.id ≡ true)
    → IsOrdered known subqueries
    → IsOrdered known' (keep p subqueries)
IsOrdered-keep p known known' [] f g h = tt
IsOrdered-keep p known known' (s ∷ subqueries) f g h =
    by_test (p s) refl
      (IsOrdered-keep p (λ k. s.id == k || known k) (λ k. s.id == k || known' k) subqueries
        (λ k. grow k (s.id == k)) (λ t e. ground (arith, g t)) h.1)
      (λ taken.
        IsOrdered-keep p (λ k. s.id == k || known k) known' subqueries
          (λ k. learn taken k (s.id == k) refl) g h.1)
  where
    grow : (k : String) (b : Bool) → (b || known k) ≡ true → (b || known' k) ≡ true
    grow k true e = refl
    grow k false e = f k e

    learn :
        p s ≡ false
        → (k : String) (b : Bool) → (s.id == k) ≡ b
        → (b || known k) ≡ true
        → known' k ≡ true
    learn taken k true same e = subst (λ j. known' j ≡ true) ((eq_iff s.id k).0 same) (g s taken)
    learn taken k false same e = f k e

    by_test :
        (b : Bool)
        → p s ≡ b
        → IsOrdered (λ k. s.id == k || known' k) (keep p subqueries)
        → (p s ≡ false → IsOrdered known' (keep p subqueries))
        → IsOrdered known' (let rest = keep p subqueries in if b then s ∷ rest else rest)
    by_test true e stays goes = (all_mono known known' s.depends_on f h.0, stays)
    by_test false e stays goes = goes e

-- A recorded result leaves what was known known, and makes its own id known.
has_key-record_result :
    (k : String) (subquery : Subquery) (e : Executed) (p : Progress)
    → has_key k (record_result subquery e p).outcomes ≡ (subquery.id == k || has_key k p.outcomes)
unfolding record_result
has_key-record_result k subquery e p = has_key-insert subquery.id k e.summary p.outcomes

has_key-record_results :
    (k : String) (results : List (Subquery × Executed)) (p : Progress)
    → (has_key k p.outcomes ≡ true) ⊎ (elem k (map (λ r. r.0.id) results) ≡ true)
    → has_key k (record_results results p).outcomes ≡ true
unfolding record_results
has_key-record_results k [] p (inl h) = h
has_key-record_results k [] p (inr h) = cc
has_key-record_results k ((subquery, e) ∷ results) p h =
    has_key-record_results k results (record_result subquery e p) (
      ground (
        arith,
        h,
        has_key-record_result k subquery e p,
        eq_iff subquery.id k,
        eq_iff k subquery.id,
      ))

continue-eq-returns :
    {A B : Type 0} (m : Call A) (f : A → Call B) {b : B}
    → continue m f ≡ returns b
    → (a : A) × (m ≡ returns a) × (f a ≡ returns b)
continue-eq-returns (returns a) f h = (a, refl, h)
continue-eq-returns (raises exc) f h = cc

-- The results of a wave are those of its subqueries, in order.
pub gather-cons :
    (env : Env) (outcomes : Dict Summary) (s : Subquery) (ready : List Subquery)
    (results : List (Subquery × Executed))
    → gather env outcomes (s ∷ ready) ≡ returns results
    → (e : Executed) × (rest : List (Subquery × Executed)) × (execute_subquery env s outcomes
        ≡ returns e)
      × (gather env outcomes ready ≡ returns rest)
      × ((s, e) ∷ rest ≡ results)
unfolding gather
gather-cons env outcomes s ready results h =
    let (e, first, more) = continue-eq-returns (execute_subquery env s outcomes) _ h in
    let (rest, others, same) = continue-eq-returns (gather env outcomes ready) _ more in
    (e, rest, first, others, cc)

gather-ids :
    (env : Env) (outcomes : Dict Summary) (ready : List Subquery)
    (results : List (Subquery × Executed))
    → gather env outcomes ready ≡ returns results
    → map (λ r. r.0.id) results ≡ map (λ s. s.id) ready
gather-ids env outcomes [] results h = unfold gather in ground arith
gather-ids env outcomes (s ∷ ready) results h =
    let (e, rest, _, others, same) = gather-cons env outcomes s ready results h in
    rw (← same) (ap (λ l. s.id ∷ l) (gather-ids env outcomes ready rest others))

-- What the wave has recorded: the ids of its ready subqueries, beside the old ones.
pub wave_known :
    (env : Env) (pending : List Subquery) (p : Progress) (results : List (Subquery × Executed))
    → gather env p.outcomes (ready_of p.outcomes pending) ≡ returns results
    → (k : String)
    → (has_key k p.outcomes ≡ true)
      ⊎ (elem k (map (λ s. s.id) (ready_of p.outcomes pending)) ≡ true)
    → has_key k (record_results results p).outcomes ≡ true
wave_known env pending p results h k (inl old) = has_key-record_results k results p (inl old)
wave_known env pending p results h k (inr new) =
    has_key-record_results k results p
      (inr (rw (gather-ids env p.outcomes (ready_of p.outcomes pending) results h) new))

order_rule :
    (env : Env)
    → Rule env (λ pending p. IsOrdered (λ k. has_key k p.outcomes) pending) (λ _. Unit) ⊥
order_rule env = record {
  finish = λ p i. tt;
  halt = λ s pending p i none_ready. ground (arith, i.0);
  wave = λ pending p results i h.
      IsOrdered-keep (waits (ready_of p.outcomes pending)) _ _ pending
        (λ k old. wave_known env pending p results h k (inl old))
        (λ s taken. wave_known env pending p results h s.id (inr (ground arith))) i;
}

-- Each planned id is still pending or has an outcome.
abbrev Covers : List Subquery → List Subquery → Progress → Type 0
Covers plan pending p =
    All (λ s. (elem s.id (map (λ t. t.id) pending) ≡ true) ⊎ (has_key s.id p.outcomes ≡ true)) plan

elem-map-waits :
    (k : String) (taken : List String) (xs : List Subquery)
    → elem k (map (λ t. t.id) xs) ≡ true
    → (elem k taken ≡ true)
      ⊎ (elem k (map (λ t. t.id) (keep (λ s. not (elem s.id taken)) xs)) ≡ true)
elem-map-waits k taken [] h = cc
elem-map-waits k taken (x ∷ xs) h = ground (arith, eq_iff k x.id, elem-map-waits k taken xs)

Covers-wave :
    (env : Env) (plan pending : List Subquery) (p : Progress) (results : List (Subquery × Executed))
    → Covers plan pending p
    → gather env p.outcomes (ready_of p.outcomes pending) ≡ returns results
    → Covers plan (left_pending p.outcomes pending) (record_results results p)
Covers-wave env plan pending p results c h = All-mono _ _ plan (λ s. by_place s) c
  where
    known' : (k : String) → Type 0
    known' k = has_key k (record_results results p).outcomes ≡ true

    by_split :
        (k : String)
        → (elem k (map (λ s. s.id) (ready_of p.outcomes pending)) ≡ true)
          ⊎ (elem k (map (λ t. t.id) (left_pending p.outcomes pending)) ≡ true)
        → (elem k (map (λ t. t.id) (left_pending p.outcomes pending)) ≡ true)
          ⊎ (has_key k (record_results results p).outcomes ≡ true)
    by_split k (inl taken) = inr (wave_known env pending p results h k (inr taken))
    by_split k (inr stays) = inl stays

    by_place :
        (s : Subquery)
        → (elem s.id (map (λ t. t.id) pending) ≡ true) ⊎ (has_key s.id p.outcomes ≡ true)
        → (elem s.id (map (λ t. t.id) (left_pending p.outcomes pending)) ≡ true)
          ⊎ (has_key s.id (record_results results p).outcomes ≡ true)
    by_place s (inl waiting) =
        by_split s.id
          (elem-map-waits s.id (map (λ r. r.id) (ready_of p.outcomes pending)) pending waiting)
    by_place s (inr known) = inr (wave_known env pending p results h s.id (inl known))

Covers-rule :
    (env : Env) (plan : List Subquery)
    → Rule env (Covers plan) (λ p. All (λ s. has_key s.id p.outcomes ≡ true) plan) Unit
Covers-rule env plan = record {
  finish = λ p c. All-mono _ _ plan (λ s e. ground (arith, e)) c;
  halt = λ s pending p c e. tt;
  wave = λ pending p results c h. Covers-wave env plan pending p results c h;
}

ids-listed : (plan : List Subquery) → All (λ s. elem s.id (map (λ t. t.id) plan) ≡ true) plan
ids-listed [] = tt
ids-listed (s ∷ plan) =
    (simp eq_refl, All-mono _ _ plan (λ t listed. ground (arith, listed)) (ids-listed plan))

both :
    (env : Env) (P Q : Progress → Type 0) (o : PlanOutcome)
    → OnDone env P ⊥ o
    → OnDone env Q Unit o
    → OnDone env Q ⊥ o
both env P Q (done p) h k = k
both env P Q stalled h k = h
both env P Q (crashed exc) h k = k
both env P Q out_of_fuel h k = h

-- A plan in dependency order neither stalls nor runs out of waves: either it runs to its end, and
-- then each of its subqueries has an outcome, or it ends by an exception, and then some call of an
-- agent raises that exception.
pub execute_plan-completes :
    (env : Env) (plan : List Subquery)
    → IsOrdered (λ _. false) plan
    → OnDone env (λ p. All (λ s. has_key s.id p.outcomes ≡ true) plan) ⊥ (execute_plan env plan)
unfolding execute_plan
execute_plan-completes env plan ordered =
    both env (λ _. Unit) _ _
      (run_waves_rule env (order_rule env) (length plan) plan _ (le_refl _) ordered)
      (run_waves_rule env (Covers-rule env plan) (length plan) plan _ (le_refl _)
        (All-mono _ _ plan (λ s listed. inl listed) (ids-listed plan)))
