-- ===== src/Pipeline/Accepted.antt =====
-- What `_rejection_reason` lets through.
use text2cypher_manufacturin.Common.{
  ◌≡◌, ◌⊎◌, inl, inr, refl, Bool, true, false, ◌||◌, Option, none, some, String, List, [], ◌∷◌,
  arith, if_ind,
}
use text2cypher_manufacturin.Python.{truthy, Value, as_row, Row}
use text2cypher_manufacturin.Python.Exceptions.{Call, returns, raises}
use text2cypher_manufacturin.Pipeline.State.{OrchestratorState, get}
use text2cypher_manufacturin.Pipeline.Strict.{
  section_rows, any_rows, sections_given, has_section_rows, empty_unless, composed_reason,
  rejection_reason,
}

-- A section that is a dict with rows.
abbrev pub HasRows : List (String × Value) → Type 0
HasRows [] = ⊥
HasRows ((k, section) ∷ sections) =
    ((row : Row) × (as_row section ≡ some row) × (truthy (get "rows" row) ≡ true))
    ⊎ HasRows sections

-- A result with neither failure nor error, whose composed result is complete, without an error, and
-- with rows of its own or of a section.
abbrev pub IsAnswerable : OrchestratorState → Type 0
IsAnswerable result =
    (truthy (get "query_failure" result) ≡ false)
    × (truthy (get "error" result) ≡ false)
    × (composed : Row) × (as_row (get "composed_result" result) ≡ some composed)
    × (truthy (get "error" composed) ≡ false)
    × (truthy (get "truncated" composed) ≡ false)
    × ((truthy (get "rows" composed) ≡ true)
        ⊎ ((sections : Row) × (as_row (get "sections" composed) ≡ some sections)
            × HasRows sections))

returns_inj {ℓ} : {A : Type ℓ} {a b : A} → returns a ≡ returns b → a ≡ b
returns_inj h = cc

any_rows-HasRows :
    (sections : List (String × Value)) → any_rows sections ≡ returns true → HasRows sections
any_rows-HasRows [] h = cc
any_rows-HasRows ((k, section) ∷ sections) h =
    by_row (as_row section) refl h (any_rows-HasRows sections)
  where
    by_row :
        (o : Option Row)
        → as_row section ≡ o
        → section_rows o (any_rows sections) ≡ returns true
        → (any_rows sections ≡ returns true → HasRows sections)
        → HasRows ((k, section) ∷ sections)
    by_row none is_row h ih = cc
    by_row (some row) is_row h ih =
        if_ind (λ r. r ≡ returns true → HasRows ((k, section) ∷ sections)) (truthy (get "rows" row))
          (λ t _. inl (row, is_row, t)) (λ _ e. inr (ih e)) h

has_section_rows-HasRows :
    (v : Value)
    → has_section_rows v ≡ returns true
    → (sections : Row) × (as_row v ≡ some sections) × HasRows sections
has_section_rows-HasRows v h =
    if_ind (λ r. r ≡ returns true → P) (truthy v) (λ _ e. by_row (as_row v) refl e) (λ _ e. cc) h
  where
    P : Type 0
    P = (sections : Row) × (as_row v ≡ some sections) × HasRows sections

    by_row : (o : Option Row) → as_row v ≡ o → sections_given o ≡ returns true → P
    by_row none is_row e = cc
    by_row (some sections) is_row e = (sections, is_row, any_rows-HasRows sections e)

-- The part of `IsAnswerable` on the composed result.
abbrev IsComposed : Row → Type 0
IsComposed composed =
    (truthy (get "error" composed) ≡ false)
    × (truthy (get "truncated" composed) ≡ false)
    × ((truthy (get "rows" composed) ≡ true)
        ⊎ ((sections : Row) × (as_row (get "sections" composed) ≡ some sections)
            × HasRows sections))

empty_unless-true : (c : Call Bool) → empty_unless c ≡ returns none → c ≡ returns true
empty_unless-true (raises exc) h = cc
empty_unless-true (returns true) h = refl
empty_unless-true (returns false) h = cc

composed_reason-IsComposed :
    (composed : Row) → composed_reason (some composed) ≡ returns none → IsComposed composed
composed_reason-IsComposed composed h =
    if_ind P (truthy (get "error" composed)) (λ _ e. cc)
      (λ fine.
        if_ind P (truthy (get "truncated" composed)) (λ _ e. cc)
          (λ whole.
            if_ind P (truthy (get "rows" composed)) (λ t _. (fine, whole, inl t))
              (λ _ e. (fine, whole, inr (has_section_rows-HasRows _ (empty_unless-true _ e))))))
      h
  where
    P : Call (Option String) → Type 0
    P r = r ≡ returns none → IsComposed composed

pub rejection_reason-IsAnswerable :
    (result : OrchestratorState) → rejection_reason result ≡ returns none → IsAnswerable result
unfolding rejection_reason
rejection_reason-IsAnswerable result h =
    if_ind (λ r. r ≡ returns none → IsAnswerable result)
      (truthy (get "query_failure" result) || truthy (get "error" result)) (λ _ e. cc)
      (λ fine e. by_composed (as_row (get "composed_result" result)) refl fine e) h
  where
    by_composed :
        (o : Option Row)
        → as_row (get "composed_result" result) ≡ o
        → (truthy (get "query_failure" result) || truthy (get "error" result)) ≡ false
        → composed_reason o ≡ returns none
        → IsAnswerable result
    by_composed none is_row fine e = cc
    by_composed (some composed) is_row fine e =
        let (error, truncated, rows) = composed_reason-IsComposed composed e in
        (ground (arith, fine), ground (arith, fine), composed, is_row, error, truncated, rows)
