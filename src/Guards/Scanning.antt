-- ===== src/Guards/Scanning.antt =====
-- `extract_label_and_type_references`: its loops, counted, and what they leave of the names.
use text2cypher_manufacturin.Common.{
  ℕ, zero, suc, ◌≤◌, ◌<◌, ◌≡◌, refl, ap, ◌∙◌, Bool, true, false, not, ◌&&◌, ◌||◌, Option, none,
  some, List, [], ◌∷◌, arith, eqb, length, some_inj, if◌then◌else◌, if_ind,
}
use native.Mathlib.Nat.{le_refl}
use text2cypher_manufacturin.Python.Text.{is_word, elem_text}
use text2cypher_manufacturin.Guards.Mask.{head, is_next, is_newline}
use text2cypher_manufacturin.Guards.Labels.{
  tail, to_newline, behind_comment, behind_quote, prepend, to_backtick, is_blank, drop_while,
  References, continue_labels, named, is_operator, label, alternative, add_name, alternative_of,
  labels, Scan, moved, suppressed, ticked, labelled, scan_step, next_scan, scan_rest, scan_from,
}

length-tail-le : (s : List ℕ) → length (tail s) ≤ length s
length-tail-le [] = omega arith
length-tail-le (c ∷ s) = omega arith

length-to_newline-le : (s : List ℕ) → length (to_newline s) ≤ length s
length-to_newline-le [] = omega arith
length-to_newline-le (c ∷ s) =
    if_ind (λ t. length t ≤ suc (length s)) (is_newline c) (λ _. le_refl _)
      (λ _. omega (arith, length-to_newline-le s))

length-behind_comment-le : (s : List ℕ) → length (behind_comment s) ≤ length s
length-behind_comment-le [] = omega arith
length-behind_comment-le (c ∷ s) =
    if_ind (λ t. length t ≤ suc (length s)) (eqb c b'*' && is_next b'/' (head s))
      (λ _. omega (arith, length-tail-le s)) (λ _. omega (arith, length-behind_comment-le s))

length-behind_quote-le :
    (quote : ℕ) (escaped : Bool) (s : List ℕ) → length (behind_quote quote escaped s) ≤ length s
length-behind_quote-le quote escaped [] = omega arith
length-behind_quote-le quote escaped (c ∷ s) =
    if_ind (λ t. length t ≤ suc (length s)) (not escaped && eqb c quote) (λ _. omega arith)
      (λ _. omega (arith, length-behind_quote-le quote (not escaped && eqb c b'\\') s))

length-drop_while-le : (p : ℕ → Bool) (s : List ℕ) → length (drop_while p s) ≤ length s
length-drop_while-le p [] = omega arith
length-drop_while-le p (c ∷ s) =
    if_ind (λ t. length t ≤ suc (length s)) (p c) (λ _. omega (arith, length-drop_while-le p s))
      (λ _. le_refl _)

-- What is left behind a quoted name.
abbrev left_of : Option (List ℕ × List ℕ) → List ℕ
left_of none = []
left_of (some (name, rest)) = rest

left_of-prepend : (c : ℕ) (o : Option (List ℕ × List ℕ)) → left_of (prepend c o) ≡ left_of o
left_of-prepend c none = refl
left_of-prepend c (some p) = refl

length-to_backtick-le : (s : List ℕ) → length (left_of (to_backtick s)) ≤ length s
length-to_backtick-le [] = omega arith
length-to_backtick-le (c ∷ s) =
    if_ind (λ o. length (left_of o) ≤ suc (length s)) (eqb c b'`') (λ _. omega arith)
      (λ _. omega (arith, length-to_backtick-le s, ap length (left_of-prepend c (to_backtick s))))

named-left : (o : Option (List ℕ × List ℕ)) → (named o).1 ≡ left_of o
named-left none = refl
named-left (some p) = refl

-- A name in the first is in the second.
abbrev pub Grows : References → References → Type 0
Grows refs refs' =
    (name : List ℕ) → elem_text name refs.names ≡ true → elem_text name refs'.names ≡ true

add_name-Grows : (name : Option (List ℕ)) (refs : References) → Grows refs (add_name name refs)
add_name-Grows none refs n h = h
add_name-Grows (some name) refs n h = ground (arith, h)

module _ (is_alnum : ℕ → Bool) where
  length-label-le : (s : List ℕ) → length (label is_alnum s).1 ≤ length s
  length-label-le [] = omega arith
  length-label-le (c ∷ s) =
      if_ind Shorter (eqb c b'`')
        (λ _. omega (arith, length-to_backtick-le s, ap length (named-left (to_backtick s))))
        (λ _.
          if_ind Shorter (is_operator c) (λ _. le_refl _)
            (λ _.
              if_ind Shorter (is_word is_alnum c)
                (λ _. length-drop_while-le (is_word is_alnum) (c ∷ s)) (λ _. le_refl _)))
    where
      Shorter : Option (List ℕ) × List ℕ → Type 0
      Shorter (name, rest) = length rest ≤ suc (length s)

  length-alternative-lt : (s t : List ℕ) → alternative s ≡ some t → length t < length s
  length-alternative-lt [] t h = cc
  length-alternative-lt (c ∷ s) t h = by_char (eqb c b'|' || eqb c b'&') h
    where
      by_char : (b : Bool) → (if b then some s else none) ≡ some t → length t < suc (length s)
      by_char true e = omega (arith, ap length (some_inj e))
      by_char false e = cc

  length-alternative_of-lt :
      (name : Option (List ℕ)) (rest t : List ℕ)
      → alternative_of name rest ≡ some t
      → length t < length rest
  length-alternative_of-lt none rest t h = cc
  length-alternative_of-lt (some name) rest t h = omega (
    arith,
    length-alternative-lt (drop_while is_blank rest) t h,
    length-drop_while-le is_blank rest,
  )

  abbrev pub first_name : List ℕ → Option (List ℕ)
  first_name s = (label is_alnum (drop_while is_blank s)).0

  -- The loop ends, no further than the text, with every name that it had and the first of the text.
  abbrev pub Collects : List ℕ → References → Option (References × List ℕ) → Type 0
  Collects s refs o =
      (refs' : References) × (rest : List ℕ) × (o ≡ some (refs', rest))
      × (length rest ≤ length s)
      × Grows (add_name (first_name s) refs) refs'

  pub labels-Collects :
      (fuel : ℕ) (s : List ℕ) (refs : References)
      → length s < fuel
      → Collects s refs (labels is_alnum fuel s refs)
  unfolding labels
  labels-Collects zero s refs h = absurd (omega arith)
  labels-Collects (suc fuel) s refs h =
      by_next (alternative_of name rest) refl (labels-Collects fuel)
    where
      name : Option (List ℕ)
      name = first_name s

      rest : List ℕ
      rest = (label is_alnum (drop_while is_blank s)).1

      shorter : length rest ≤ length s
      shorter =
          omega (arith, length-label-le (drop_while is_blank s), length-drop_while-le is_blank s)

      by_next :
          (o : Option (List ℕ))
          → alternative_of name rest ≡ o
          → ((t : List ℕ) (refs' : References)
              → length t < fuel
              → Collects t refs' (labels is_alnum fuel t refs'))
          → Collects s refs (continue_labels (labels is_alnum fuel) (add_name name refs) rest o)
      by_next none e ih = (add_name name refs, rest, refl, shorter, λ n had. had)
      by_next (some t) e ih =
          let less = length-alternative_of-lt name rest t e in
          let (refs', end, same, fits, grows) =
            ih t (add_name name refs) (omega (arith, shorter)) in
          (
            refs',
            end,
            same,
            omega (arith, shorter),
            λ n had. grows n (add_name-Grows (first_name t) (add_name name refs) n had),
          )

  -- A round of the scan goes on, with a shorter text and every name that it had.
  abbrev pub Steps : List ℕ → Scan → Option Scan → Type 0
  Steps s scan o =
      (scan' : Scan) × (o ≡ some scan')
      × (length scan'.rest ≤ length s)
      × Grows scan.references scan'.references

  moved-Steps :
      (scan : Scan) (s rest : List ℕ)
      → length rest ≤ length s
      → Steps s scan (some (moved scan rest))
  moved-Steps scan s rest h = (moved scan rest, refl, h, λ n had. had)

  ticked-Steps :
      (scan : Scan) (s : List ℕ) (o : Option (List ℕ × List ℕ))
      → length (left_of o) ≤ length s
      → Steps s scan (some (ticked scan o))
  ticked-Steps scan s none h = (ticked scan none, refl, h, λ n had. had)
  ticked-Steps scan s (some (name, rest)) h = moved-Steps scan s rest h

  labelled-Steps :
      (scan : Scan) (s : List ℕ) (o : Option (References × List ℕ))
      → Collects s scan.references o
      → Steps s scan (labelled scan o)
  labelled-Steps scan s o (refs, rest, e, fits, grows) = (
    record scan { rest = rest; references = refs },
    ap (labelled scan) e,
    fits,
    λ n had. grows n (add_name-Grows (first_name s) scan.references n had),
  )

  pub scan_step-Steps :
      (cypher : List ℕ) (scan : Scan) (c : ℕ) (s : List ℕ)
      → Steps s scan (scan_step is_alnum cypher scan c s)
  scan_step-Steps cypher scan c s =
      if_ind P (eqb c b'/' && is_next b'/' (head s))
        (λ _.
          moved-Steps scan s (to_newline (tail s))
            (omega (arith, length-to_newline-le (tail s), length-tail-le s)))
        λ _.
          if_ind P (eqb c b'/' && is_next b'*' (head s))
            (λ _.
              moved-Steps scan s (behind_comment (tail s))
                (omega (arith, length-behind_comment-le (tail s), length-tail-le s)))
            λ _.
              if_ind P (eqb c b'\'' || eqb c b'"')
                (λ _.
                  moved-Steps scan s (behind_quote c false s) (length-behind_quote-le c false s))
                λ _.
                  if_ind P (eqb c b'`')
                    (λ _. ticked-Steps scan s (to_backtick s) (length-to_backtick-le s))
                    λ _.
                      if_ind P (eqb c b'{') (λ _. (_, refl, le_refl _, λ n had. had))
                        λ _.
                          if_ind P (eqb c b'}') (λ _. (_, refl, le_refl _, λ n had. had))
                            λ _.
                              if_ind P (eqb c b':' && not (suppressed scan.suppress_stack))
                                (λ _. labelled-Steps scan s _ (
                                  labels-Collects (suc (length s)) s scan.references (omega arith)))
                                (λ _. moved-Steps scan s s (le_refl _))
    where
      P : Option Scan → Type 0
      P o = Steps s scan o

  pub scan_from-Grows :
      (fuel : ℕ) (cypher : List ℕ) (scan : Scan)
      → length scan.rest < fuel
      → (refs : References) × (scan_from is_alnum fuel cypher scan ≡ some refs)
        × Grows scan.references refs
  unfolding scan_from
  scan_from-Grows zero cypher scan h = absurd (omega arith)
  scan_from-Grows (suc fuel) cypher scan h = by_rest scan.rest h (scan_from-Grows fuel cypher)
    where
      by_rest :
          (rest : List ℕ)
          → length rest < suc fuel
          → ((scan' : Scan)
              → length scan'.rest < fuel
              → (refs : References) × (scan_from is_alnum fuel cypher scan' ≡ some refs)
                × Grows scan'.references refs)
          → (refs : References) × (scan_rest is_alnum
                (scan_from is_alnum fuel cypher)
                cypher
                scan
                rest
              ≡ some refs)
            × Grows scan.references refs
      by_rest [] h ih = (scan.references, refl, λ n had. had)
      by_rest (c ∷ s) h ih =
          let (scan', e, fits, grows) = scan_step-Steps cypher scan c s in
          let (refs, same, more) = ih scan' (omega arith) in
          (
            refs,
            ap (next_scan (scan_from is_alnum fuel cypher)) e ∙ same,
            λ n had. more n (grows n had),
          )
