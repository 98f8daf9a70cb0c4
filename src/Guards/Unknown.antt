-- ===== src/Guards/Unknown.antt =====
-- `make_cypher_guard` on the names of a query.
use text2cypher_manufacturin.Common.{
  ℕ, zero, suc, ◌<◌, ◌≡◌, refl, ap, ◌∙◌, Bool, true, false, ◌&&◌, ◌||◌, Option, some, List, [], ◌∷◌,
  arith, length, if_ind, all,
}
use native.Mathlib.Nat.{le_refl}
use text2cypher_manufacturin.Retry.{GuardResult}
use text2cypher_manufacturin.Python.Text.{text_eq, elem_text}
use text2cypher_manufacturin.Guards.Mask.{mask_query_text}
use text2cypher_manufacturin.Guards.Keywords.{has_write_keyword}
use text2cypher_manufacturin.Guards.Labels.{
  References, add_name, scan_from, extract_label_and_type_references,
}
use text2cypher_manufacturin.Guards.Cypher.{cypher_guard, check_names, check_references}
use text2cypher_manufacturin.Guards.Scanning.{Grows, scan_from-Grows}
use text2cypher_manufacturin.Guards.Grammar.{Part, written, names, IsWritten}
use text2cypher_manufacturin.Guards.Chains.{add_names}
use text2cypher_manufacturin.Guards.Written.{no_references, outside, written-scan_from}

text_eq_refl : (s : List ℕ) → text_eq s s ≡ true
text_eq_refl [] = refl
text_eq_refl (c ∷ s) = ground (arith, text_eq_refl s)

text_eq_sound : (s t : List ℕ) → text_eq s t ≡ true → s ≡ t
text_eq_sound [] [] h = refl
text_eq_sound [] (d ∷ t) h = cc
text_eq_sound (c ∷ s) [] h = cc
text_eq_sound (c ∷ s) (d ∷ t) h =
    let same : c ≡ d = ground (arith, h) in
    let rest : s ≡ t = text_eq_sound s t (ground (arith, h)) in cc

-- A name among names that all pass a test passes it.
pub all-elem_text :
    (p : List ℕ → Bool) (name : List ℕ) (names : List (List ℕ))
    → elem_text name names ≡ true
    → all p names ≡ true
    → p name ≡ true
all-elem_text p name [] h k = cc
all-elem_text p name (t ∷ names) h k =
    by_first (text_eq name t) refl h (λ e. all-elem_text p name names e (ground (arith, k)))
  where
    by_first :
        (b : Bool)
        → text_eq name t ≡ b
        → (b || elem_text name names) ≡ true
        → (elem_text name names ≡ true → p name ≡ true)
        → p name ≡ true
    by_first true same e ih = ap p (text_eq_sound name t same) ∙ ground (arith, k)
    by_first false same e ih = ih e

-- What holds of each name holds of all.
all-of :
    (p : List ℕ → Bool) (ns : List (List ℕ))
    → ((n : List ℕ) → elem_text n ns ≡ true → p n ≡ true)
    → all p ns ≡ true
all-of p [] h = refl
all-of p (n ∷ ns) h =
    let first : p n ≡ true = h n (ap (λ b. b || elem_text n ns) (text_eq_refl n)) in
    let rest : all p ns ≡ true = all-of p ns (λ m e. h m (ground (arith, e))) in rw (first, rest)

pub all-add_names :
    (p : List ℕ → Bool) (ns : List (List ℕ)) (refs : References)
    → all p (add_names ns refs).names ≡ (all p ns && all p refs.names)
all-add_names p [] refs = refl
all-add_names p (n ∷ ns) refs = ground (arith, all-add_names p ns (add_name (some n) refs))

pub unresolved-add_names :
    (ns : List (List ℕ)) (refs : References) → (add_names ns refs).unresolved ≡ refs.unresolved
unresolved-add_names [] refs = refl
unresolved-add_names (n ∷ ns) refs = unresolved-add_names ns (add_name (some n) refs)

-- Every name is one of the schema.
abbrev pub all_known : (allowed_names ns : List (List ℕ)) → Bool
all_known allowed_names ns = all (λ n. elem_text n allowed_names) ns

module _ (is_alnum : ℕ → Bool) where
  -- The extraction of a query collects the names that are written, whatever follows them.
  extract-Grows :
      (parts : List Part) (t : List ℕ)
      → IsWritten is_alnum parts t
      → (refs : References) × (extract_label_and_type_references is_alnum (written parts t)
          ≡ some refs)
        × Grows (add_names (names parts) no_references) refs
  unfolding extract_label_and_type_references
  extract-Grows parts t h =
      let cypher = written parts t in
      let (fuel, less, same) =
        written-scan_from is_alnum cypher parts t (suc (length cypher)) no_references h
          (le_refl _) in
      let (refs, done, grows) =
        scan_from-Grows is_alnum fuel cypher (outside t (add_names (names parts) no_references))
          less in
      (refs, same ∙ done, grows)

  -- Where nothing follows, it collects no others.
  pub extract-written :
      (parts : List Part)
      → IsWritten is_alnum parts []
      → extract_label_and_type_references is_alnum (written parts [])
        ≡ some (add_names (names parts) no_references)
  unfolding extract_label_and_type_references scan_from
  extract-written parts h =
      let cypher = written parts [] in
      let (fuel, less, same) =
        written-scan_from is_alnum cypher parts [] (suc (length cypher)) no_references h
          (le_refl _) in
      same ∙ by_fuel fuel less
    where
      by_fuel :
          (fuel : ℕ)
          → 0 < fuel
          → scan_from is_alnum fuel
              (written parts [])
              (outside [] (add_names (names parts) no_references))
            ≡ some (add_names (names parts) no_references)
      by_fuel zero h = absurd (omega arith)
      by_fuel (suc fuel) h = refl

  module _ (allowed_names : List (List ℕ)) where
    check_names-unknown :
        (parts : List Part) (refs : References)
        → Grows (add_names (names parts) no_references) refs
        → all_known allowed_names (names parts) ≡ false
        → (check_names allowed_names refs).allowed ≡ false
    check_names-unknown parts refs grows unknown =
        if_ind P refs.unresolved (λ _. refl)
          (λ _.
            if_ind P (all_known allowed_names refs.names) (λ e. absurd (contradiction e))
              (λ _. refl))
      where
        P : GuardResult → Type 0
        P r = r.allowed ≡ false

        contradiction : all_known allowed_names refs.names ≡ true → ⊥
        contradiction e =
            let known : all_known allowed_names (add_names (names parts) no_references).names
                ≡ true =
              all-of (λ n. elem_text n allowed_names) _
                (λ n h.
                  all-elem_text (λ n. elem_text n allowed_names) n refs.names (grows n h) e) in
            ground (
              arith,
              known,
              unknown,
              all-add_names (λ n. elem_text n allowed_names) (names parts) no_references,
            )

    -- A query that is written in parts, with any text behind them, is refused if the name of some
    -- reference in the parts is not in the schema. The parts are code without quotes, backticks,
    -- slashes, braces and colons, string literals without backslashes, and references: a colon and
    -- one name or several, joined by `|` or `&`, with blanks around. Behind
    -- a reference stands no word character, nor, after blanks, a `|` or `&`.
    pub cypher_guard-refuses_unknown :
        (parts : List Part) (t : List ℕ)
        → IsWritten is_alnum parts t
        → all_known allowed_names (names parts) ≡ false
        → (r : GuardResult) × (cypher_guard is_alnum allowed_names (written parts t) ≡ some r)
          × (r.allowed ≡ false)
    unfolding cypher_guard
    cypher_guard-refuses_unknown parts t h unknown =
        let (refs, same, grows) = extract-Grows parts t h in
        if_ind P (has_write_keyword is_alnum (mask_query_text (written parts t)))
          (λ _. (_, refl, refl))
          (λ _. (
            _,
            ap (check_references allowed_names) same,
            check_names-unknown parts refs grows unknown,
          ))
      where
        P : Option GuardResult → Type 0
        P o = (r : GuardResult) × (o ≡ some r) × (r.allowed ≡ false)
