-- ===== src/Guards/Decision.antt =====
-- The decision of `make_cypher_guard`, and the queries that a retry subgraph executes behind it.
use text2cypher_manufacturin.Common.{
  ℕ, ◌≡◌, ◌≢◌, refl, ap, sym, ◌∙◌, subst, Bool, true, false, ◌&&◌, some, String, List, [], all, any,
  map, All, All-mono, some_inj, if◌then◌else◌, ◌⊎◌, inl, inr,
}
use text2cypher_manufacturin.Python.Exceptions.{codes, Call, returns}
use text2cypher_manufacturin.Python.Text.{elem_text}
use text2cypher_manufacturin.Retry.{
  GuardResult, Config, RetryAgentState, Effect, query_executed, run, Outcome, finished, crashed,
  out_of_fuel,
}
use text2cypher_manufacturin.Retry.Guarded.{IsGuarded, IsAllowed, IsLogged, run-IsGuarded}
use text2cypher_manufacturin.Guards.Mask.{mask_query_text}
use text2cypher_manufacturin.Guards.Keywords.{cypher_write_keywords}
use text2cypher_manufacturin.Guards.Labels.{extract_label_and_type_references}
use text2cypher_manufacturin.Guards.Cypher.{
  cypher_guard, check_names, check_references, blocked_by, passed,
}
use text2cypher_manufacturin.Guards.Words.{words, is_keyword, has_write_keyword-words}
use text2cypher_manufacturin.Guards.Grammar.{Part, written, names, IsWritten}
use text2cypher_manufacturin.Guards.Chains.{add_names}
use text2cypher_manufacturin.Guards.Written.{no_references}
use text2cypher_manufacturin.Guards.Unknown.{
  all_known, all-add_names, unresolved-add_names, extract-written, cypher_guard-refuses_unknown,
}

-- Some word of what the mask leaves of the query is a write keyword.
abbrev pub writes : (is_alnum : ℕ → Bool) → List ℕ → Bool
writes is_alnum q =
    any (is_keyword is_alnum (map codes cypher_write_keywords)) (words is_alnum (mask_query_text q))

module _ (is_alnum : ℕ → Bool) (allowed_names : List (List ℕ)) where
  check_names-add_names :
      (ns : List (List ℕ))
      → check_names allowed_names (add_names ns no_references) ≡ (
          if all_known allowed_names ns then passed else blocked_by "UNKNOWN_LABEL_OR_RELATIONSHIP")
  check_names-add_names ns =
      ap
        (λ b.
          if b
          then blocked_by "UNRECOGNIZED_LABEL_SYNTAX"
          else if all (λ n. elem_text n allowed_names) (add_names ns no_references).names
          then passed
          else blocked_by "UNKNOWN_LABEL_OR_RELATIONSHIP")
        (unresolved-add_names ns no_references)
      ∙ ap (λ b. if b then passed else blocked_by "UNKNOWN_LABEL_OR_RELATIONSHIP")
          (all-add_names (λ n. elem_text n allowed_names) ns no_references
            ∙ and_true (all (λ n. elem_text n allowed_names) ns))
    where
      and_true : (b : Bool) → (b && true) ≡ b
      and_true true = refl
      and_true false = refl

  -- What the guard says of a query that is written in parts, with nothing behind them: it is refused
  -- for a write keyword if some word of its masked text is one, else it is allowed if the names of
  -- all its references are in the schema, and refused for an unknown name if not. The parts are code
  -- without quotes, backticks, slashes, braces and colons, string literals without backslashes, and
  -- references: a colon and one name or several, joined by `|` or `&`, with blanks around. Behind a
  -- reference stands no word character, nor, after blanks, a `|` or `&`.
  pub cypher_guard-decides :
      (parts : List Part)
      → IsWritten is_alnum parts []
      → cypher_guard is_alnum allowed_names (written parts [])
        ≡ some (
            if writes is_alnum (written parts [])
            then blocked_by "WRITE_KEYWORD_DETECTED"
            else if all_known allowed_names (names parts)
            then passed
            else blocked_by "UNKNOWN_LABEL_OR_RELATIONSHIP")
  unfolding cypher_guard
  cypher_guard-decides parts h =
      ap
        (λ b.
          if b
          then some (blocked_by "WRITE_KEYWORD_DETECTED")
          else check_references allowed_names
              (extract_label_and_type_references is_alnum (written parts [])))
        (has_write_keyword-words is_alnum (mask_query_text (written parts [])))
      ∙ ap
          (λ o.
            if writes is_alnum (written parts [])
            then some (blocked_by "WRITE_KEYWORD_DETECTED")
            else check_references allowed_names o)
          (extract-written is_alnum parts h)
      ∙ by_words (writes is_alnum (written parts []))
    where
      by_words :
          (b : Bool)
          → (if b
              then some (blocked_by "WRITE_KEYWORD_DETECTED")
              else some (check_names allowed_names (add_names (names parts) no_references)))
            ≡ some (
                if b
                then blocked_by "WRITE_KEYWORD_DETECTED"
                else if all_known allowed_names (names parts)
                then passed
                else blocked_by "UNKNOWN_LABEL_OR_RELATIONSHIP")
      by_words true = refl
      by_words false = ap some (check_names-add_names (names parts))

  -- A query with a write keyword, or with an unknown name in its parts, is refused.
  refuses :
      (parts : List Part) (t : List ℕ)
      → IsWritten is_alnum parts t
      → (writes is_alnum (written parts t) ≡ true) ⊎ (all_known allowed_names (names parts) ≡ false)
      → (r : GuardResult) × (cypher_guard is_alnum allowed_names (written parts t) ≡ some r)
        × (r.allowed ≡ false)
  unfolding cypher_guard
  refuses parts t h (inr unknown) =
      cypher_guard-refuses_unknown is_alnum allowed_names parts t h unknown
  refuses parts t h (inl found) = (
    blocked_by "WRITE_KEYWORD_DETECTED",
    ap
        (λ b.
          if b
          then some (blocked_by "WRITE_KEYWORD_DETECTED")
          else check_references allowed_names
              (extract_label_and_type_references is_alnum (written parts t)))
        (has_write_keyword-words is_alnum (mask_query_text (written parts t)) ∙ found),
    refl,
  )

-- The effect is not the execution of this query.
abbrev pub IsOther : (text : List ℕ) → Effect → Type 0
IsOther text (query_executed _ q) = codes q ≢ text
IsOther text _ = Unit

abbrev pub NeverExecutes : (text : List ℕ) → Outcome → Type 0
NeverExecutes text (finished _ log) = All (IsOther text) log
NeverExecutes text (crashed _ log) = All (IsOther text) log
NeverExecutes text out_of_fuel = Unit

module _ (is_alnum : ℕ → Bool) (allowed_names : List (List ℕ)) (c : Config)
    (guard : String → Call GuardResult) (given : c.guard ≡ some guard)
    (is_cypher_guard : (q : String) (r : GuardResult)
      → guard q ≡ returns r
      → cypher_guard is_alnum allowed_names (codes q) ≡ some r) where
  module _ (parts : List Part) (t : List ℕ) (h : IsWritten is_alnum parts t)
      (bad : (writes is_alnum (written parts t) ≡ true)
        ⊎ (all_known allowed_names (names parts) ≡ false)) where
    allowed-IsOther : (q : String) → IsAllowed c.guard q → codes q ≢ written parts t
    allowed-IsOther q allowed = by_guard (subst (λ g. IsAllowed g q) given allowed)
      where
        by_guard : IsAllowed (some guard) q → codes q ≢ written parts t
        by_guard (r, called, passes) same =
            let (r', refused, denied) = refuses is_alnum allowed_names parts t h bad in
            let equal : r' ≡ r = some_inj (
              sym refused
              ∙ ap (cypher_guard is_alnum allowed_names) (sym same)
              ∙ is_cypher_guard q r called) in
            cc (ap (λ r. r.allowed) equal, denied, passes)

    guarded-IsOther : (e : Effect) → IsGuarded c e → IsOther (written parts t) e
    guarded-IsOther (query_executed _ q) g = allowed-IsOther q g
    guarded-IsOther _ g = tt

    logged-NeverExecutes : (o : Outcome) → IsLogged c o → NeverExecutes (written parts t) o
    logged-NeverExecutes (finished _ log) g = All-mono _ _ log guarded-IsOther g
    logged-NeverExecutes (crashed _ log) g = All-mono _ _ log guarded-IsOther g
    logged-NeverExecutes out_of_fuel g = tt

  -- A retry subgraph whose guard is the Cypher guard never executes a query that is written in
  -- parts, with any text behind them, if some word of its masked text is a write keyword or the
  -- name of some reference in the parts is not in the schema, whatever is generated and however the
  -- run ends. The parts are code without quotes, backticks, slashes, braces and colons, string
  -- literals without backslashes, and references: a colon and one name or several, joined by `|` or
  -- `&`, with blanks around. Behind a reference stands no word character, nor, after blanks, a `|`
  -- or `&`.
  pub run-NeverExecutes :
      (parts : List Part) (t : List ℕ)
      → IsWritten is_alnum parts t
      → (writes is_alnum (written parts t) ≡ true) ⊎ (all_known allowed_names (names parts) ≡ false)
      → (fuel : ℕ) (s : RetryAgentState) → NeverExecutes (written parts t) (run c fuel s [])
  run-NeverExecutes parts t h bad fuel s =
      logged-NeverExecutes parts t h bad (run c fuel s []) (run-IsGuarded c fuel s)
