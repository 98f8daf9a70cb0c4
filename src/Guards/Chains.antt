-- ===== src/Guards/Chains.antt =====
-- The loop over the names behind a colon reads exactly the names that are written there.
use text2cypher_manufacturin.Common.{
  ℕ, zero, suc, ◌<◌, ◌≡◌, refl, ap, ◌∙◌, Bool, true, false, not, ◌||◌, Option, none, some, List, [],
  ◌∷◌, ◌++◌, arith, eqb, length, length-append, if_ind, All, map, if◌then◌else◌,
}
use text2cypher_manufacturin.Python.Text.{is_word}
use text2cypher_manufacturin.Guards.Labels.{
  is_blank, drop_while, take_while, References, is_operator, label, alternative, alternative_of,
  add_name, continue_labels, labels,
}
use text2cypher_manufacturin.Guards.Grammar.{
  IsBlank, Named, Alternative, name, written_name, written_alternatives, no_operator, IsWordChar,
  is_end, IsName, IsAlternative,
}

abbrev pub add_names : List (List ℕ) → References → References
add_names [] refs = refs
add_names (n ∷ ns) refs = add_names ns (add_name (some n) refs)

-- Blanks before something else are passed over.
drop_while-gap :
    (gap : List ℕ) (c : ℕ) (t : List ℕ)
    → All IsBlank gap
    → is_blank c ≡ false
    → drop_while is_blank (gap ++ (c ∷ t)) ≡ c ∷ t
drop_while-gap [] c t h e = rw e
drop_while-gap (b ∷ gap) c t (blank, h) e = rw (blank, drop_while-gap gap c t h e)

no_operator-none : (s : List ℕ) → no_operator s ≡ true → alternative (drop_while is_blank s) ≡ none
no_operator-none [] h = refl
no_operator-none (c ∷ s) h = by_blank (is_blank c) refl h (no_operator-none s)
  where
    by_blank :
        (b : Bool)
        → is_blank c ≡ b
        → (let rest = no_operator s in if b then rest else not (eqb c b'|' || eqb c b'&')) ≡ true
        → (no_operator s ≡ true → alternative (drop_while is_blank s) ≡ none)
        → alternative (let rest = drop_while is_blank s in if b then rest else c ∷ s) ≡ none
    by_blank true e k ih = ih k
    by_blank false e k ih = ground (arith, k)

module _ (is_alnum : ℕ → Bool) where
  word-not_blank : (c : ℕ) → IsWordChar is_alnum c → is_blank c ≡ false
  word-not_blank c h = ground (arith, h)

  blank-not_word : (c : ℕ) → is_blank c ≡ true → is_word is_alnum c ≡ false
  blank-not_word c h = ground (arith, h)

  operator-not_word : (c : ℕ) → (eqb c b'|' || eqb c b'&') ≡ true → is_word is_alnum c ≡ false
  operator-not_word c h = ground (arith, h)

  -- What stands behind a name is no part of it.
  is_end-written_alternatives :
      (rest : List Alternative) (t : List ℕ)
      → All (IsAlternative is_alnum) rest
      → is_end is_alnum t ≡ true
      → is_end is_alnum (written_alternatives rest t) ≡ true
  is_end-written_alternatives [] t h e = e
  is_end-written_alternatives (a ∷ rest) t ((blanks, op, _), h) e = by_gap a.before blanks
    where
      by_gap :
          (gap : List ℕ)
          → All IsBlank gap
          → is_end is_alnum
              (gap ++ (a.operator ∷ written_name a.named (written_alternatives rest t)))
            ≡ true
      by_gap [] blanks = ap not (operator-not_word a.operator op)
      by_gap (b ∷ gap) (blank, blanks) = ap not (blank-not_word b blank)

  take_while-word :
      (w t : List ℕ)
      → All (IsWordChar is_alnum) w
      → is_end is_alnum t ≡ true
      → take_while (is_word is_alnum) (w ++ t) ≡ w
  take_while-word [] [] h end = refl
  take_while-word [] (d ∷ t) h end = ground (arith, end)
  take_while-word (c ∷ w) t (word, h) end = rw (word, take_while-word w t h end)

  drop_while-word :
      (w t : List ℕ)
      → All (IsWordChar is_alnum) w
      → is_end is_alnum t ≡ true
      → drop_while (is_word is_alnum) (w ++ t) ≡ t
  drop_while-word [] [] h end = refl
  drop_while-word [] (d ∷ t) h end = ground (arith, end)
  drop_while-word (c ∷ w) t (word, h) end = rw (word, drop_while-word w t h end)

  -- The name at the head of a text, and what is behind it.
  label-word :
      (c : ℕ) (w t : List ℕ)
      → All (IsWordChar is_alnum) (c ∷ w)
      → is_end is_alnum t ≡ true
      → label is_alnum (c ∷ (w ++ t)) ≡ (some (c ∷ w), t)
  label-word c w t (word, h) end =
      if_ind Q (eqb c b'`') (λ e. absurd (ground (arith, e, word)))
        λ _.
          if_ind Q (is_operator c) (λ e. absurd (ground (arith, e, word)))
            λ _.
              if_ind Q (is_word is_alnum c)
                (λ _.
                  ap (λ n. (some n, drop_while (is_word is_alnum) (c ∷ (w ++ t))))
                    (take_while-word (c ∷ w) t (word, h) end)
                  ∙ ap (λ r. (some (c ∷ w), r)) (drop_while-word (c ∷ w) t (word, h) end))
                (λ e. absurd (ground (arith, e, word)))
    where
      Q : Option (List ℕ) × List ℕ → Type 0
      Q l = ◌≡◌ {A = Option (List ℕ) × List ℕ} l (some (c ∷ w), t)

  label-written_name :
      (n : Named) (t : List ℕ)
      → IsName is_alnum n
      → is_end is_alnum t ≡ true
      → label is_alnum (drop_while is_blank (written_name n t)) ≡ (some (name n), t)
  label-written_name n t (blanks, word) end =
      ap (label is_alnum)
        (drop_while-gap n.gap n.first (n.rest ++ t) blanks (word-not_blank n.first word.0))
      ∙ label-word n.first n.rest t word end

  operator-next :
      (a : Alternative) (t : List ℕ)
      → IsAlternative is_alnum a
      → alternative (drop_while is_blank (a.before ++ (a.operator ∷ t))) ≡ some t
  operator-next a t (blanks, op, _) =
      ap alternative (drop_while-gap a.before a.operator t blanks (ground (arith, op)))
      ∙ ground (arith, op)

  -- The loop reads the name and its alternatives, and stops right behind the last one.
  pub labels-written :
      (fuel : ℕ) (n : Named) (rest : List Alternative) (t : List ℕ) (refs : References)
      → IsName is_alnum n
      → All (IsAlternative is_alnum) rest
      → is_end is_alnum t ≡ true
      → no_operator t ≡ true
      → length (written_name n (written_alternatives rest t)) < fuel
      → labels is_alnum fuel (written_name n (written_alternatives rest t)) refs
        ≡ some (add_names (name n ∷ map (λ a. name a.named) rest) refs, t)
  unfolding labels
  labels-written zero n rest t refs h k end stop less = absurd (omega arith)
  labels-written (suc fuel) n [] t refs h k end stop less =
      ap
        (λ l.
          continue_labels (labels is_alnum fuel) (add_name l.0 refs) l.1 (alternative_of l.0 l.1))
        (label-written_name n t h end)
      ∙ ap (continue_labels (labels is_alnum fuel) (add_name (some (name n)) refs) t)
          (no_operator-none t stop)
  labels-written (suc fuel) n (a ∷ rest) t refs h (k, ks) end stop less =
      let behind = written_alternatives (a ∷ rest) t in
      let next = written_name a.named (written_alternatives rest t) in
      ap
        (λ l.
          continue_labels (labels is_alnum fuel) (add_name l.0 refs) l.1 (alternative_of l.0 l.1))
        (label-written_name n behind h (is_end-written_alternatives (a ∷ rest) t (k, ks) end))
      ∙ ap (continue_labels (labels is_alnum fuel) (add_name (some (name n)) refs) behind)
          (operator-next a next k)
      ∙ labels-written fuel a.named rest t (add_name (some (name n)) refs) k.2 ks end stop (
          omega (
            arith,
            length-append n.gap (n.first ∷ (n.rest ++ behind)),
            length-append n.rest behind,
            length-append a.before (a.operator ∷ next),
          ))
