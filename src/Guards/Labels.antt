-- ===== src/Guards/Labels.antt =====
-- `_extract_label_and_type_references` of backend/orchestrator/guards/cypher_guard.py. The index is
-- the text that is left; what stands before it is read off the whole text.
use text2cypher_manufacturin.Common.{
  ℕ, zero, suc, ◌-◌, Bool, true, false, not, ◌&&◌, ◌||◌, Option, none, some, List, [], ◌∷◌, take,
  length, any, eqb, if◌then◌else◌,
}
use text2cypher_manufacturin.Python.Exceptions.{codes}
use text2cypher_manufacturin.Python.Text.{is_space, is_word}
use text2cypher_manufacturin.Guards.Mask.{head, is_next, is_newline}
use text2cypher_manufacturin.Guards.Keywords.{behind, at_word}

abbrev pub tail : List ℕ → List ℕ
tail [] = []
tail (c ∷ s) = s

abbrev pub to_newline : List ℕ → List ℕ
to_newline [] = []
to_newline (c ∷ s) = let rest = to_newline s in if is_newline c then c ∷ s else rest

-- Behind the next `*/`, or the end of the text.
abbrev pub behind_comment : List ℕ → List ℕ
behind_comment [] = []
behind_comment (c ∷ s) =
    let rest = behind_comment s in if eqb c b'*' && is_next b'/' (head s) then tail s else rest

-- Behind the closing quote; `escaped` says that the character is passed over.
abbrev pub behind_quote : ℕ → (escaped : Bool) → List ℕ → List ℕ
behind_quote quote escaped [] = []
behind_quote quote escaped (c ∷ s) =
    let rest = behind_quote quote (not escaped && eqb c b'\\') s in
    if not escaped && eqb c quote then s else rest

-- The name up to the next backtick, and what is behind it.
abbrev pub prepend : ℕ → Option (List ℕ × List ℕ) → Option (List ℕ × List ℕ)
prepend c none = none
prepend c (some (name, rest)) = some (c ∷ name, rest)

abbrev pub to_backtick : List ℕ → Option (List ℕ × List ℕ)
to_backtick [] = none
to_backtick (c ∷ s) =
    let rest = to_backtick s in if eqb c b'`' then some ([], s) else prepend c rest

-- cypher[index] in " \t\r\n"
abbrev pub is_blank : ℕ → Bool
is_blank c = eqb c 32 || (eqb c 9 || (eqb c 13 || eqb c 10))

abbrev pub drop_while : (ℕ → Bool) → List ℕ → List ℕ
drop_while p [] = []
drop_while p (c ∷ s) = let rest = drop_while p s in if p c then rest else c ∷ s

abbrev pub take_while : (ℕ → Bool) → List ℕ → List ℕ
take_while p [] = []
take_while p (c ∷ s) = let rest = take_while p s in if p c then c ∷ rest else []

abbrev pub reverse_onto : List ℕ → List ℕ → List ℕ
reverse_onto out [] = out
reverse_onto out (c ∷ s) = reverse_onto (c ∷ out) s

-- cypher[:index], from its end
abbrev pub reversed_before : (cypher rest : List ℕ) → List ℕ
reversed_before cypher rest = reverse_onto [] (take (length cypher - length rest) cypher)

-- names, unresolved
pub record References : Type 0 where
  pub names : List (List ℕ)
  pub unresolved : Bool

-- The next round, where there is one.
abbrev pub continue_labels :
    (List ℕ → References → Option (References × List ℕ))
    → References
    → List ℕ
    → Option (List ℕ)
    → Option (References × List ℕ)
continue_labels more refs rest none = some (refs, rest)
continue_labels more refs rest (some s) = more s refs

-- _MAP_PROJECTION_FIELD_START.match(rest)
abbrev pub is_field_end : List ℕ → Bool
is_field_end [] = false
is_field_end (c ∷ s) = eqb c b':' || (eqb c b',' || eqb c b'}')

-- One label or type, and the text behind it: `none` is a syntax that is not understood, which
-- ends the text for an open backtick and leaves it as it is otherwise.
abbrev pub named : Option (List ℕ × List ℕ) → Option (List ℕ) × List ℕ
named none = (none, [])
named (some (name, rest)) = (some name, rest)

abbrev pub is_operator : ℕ → Bool
is_operator c = eqb c b'!' || (eqb c b'%' || eqb c b'(')

-- The text behind `|` or `&`, where one follows.
abbrev pub alternative : List ℕ → Option (List ℕ)
alternative [] = none
alternative (c ∷ s) = if eqb c b'|' || eqb c b'&' then some s else none

abbrev pub add_name : Option (List ℕ) → References → References
add_name none refs = record refs { unresolved = true }
add_name (some name) refs = record refs { names = name ∷ refs.names }

-- One round of the loop behind a colon: the references, the text behind them, and the text where
-- the next name stands, if `|` or `&` announces one.
abbrev pub alternative_of : Option (List ℕ) → List ℕ → Option (List ℕ)
alternative_of none rest = none
alternative_of (some name) rest = alternative (drop_while is_blank rest)

-- The character is the first of the text that is left.
pub record Scan : Type 0 where
  pub rest : List ℕ
  pub suppress_stack : List Bool
  pub references : References

abbrev pub moved : Scan → List ℕ → Scan
moved scan rest = record scan { rest = rest }

abbrev pub suppressed : List Bool → Bool
suppressed [] = false
suppressed (b ∷ bs) = b

abbrev pub popped : List Bool → List Bool
popped [] = []
popped (b ∷ bs) = bs

-- An open backtick ends the scan.
abbrev pub ticked : Scan → Option (List ℕ × List ℕ) → Scan
ticked scan none = record scan {
  rest = [];
  references = record scan.references { unresolved = true };
}
ticked scan (some (name, rest)) = moved scan rest

abbrev pub labelled : Scan → Option (References × List ℕ) → Option Scan
labelled scan none = none
labelled scan (some (refs, rest)) = some (record scan { rest = rest; references = refs })

abbrev pub next_scan : (Scan → Option References) → Option Scan → Option References
next_scan more none = none
next_scan more (some scan) = more scan

module _ (is_alnum : ℕ → Bool) where
  -- The reversed keyword stands here, and no word character behind it.
  abbrev pub opens : List ℕ → List ℕ → Bool
  opens before keyword = elim (behind keyword before) [
    | none ↦ false
    | some rest ↦ not (at_word is_alnum rest)
  ]

  -- _SUBQUERY_BLOCK_OPENER.search(prefix)
  abbrev pub after_opener : List ℕ → Bool
  after_opener before = any (opens (drop_while is_space before)) (
      reverse_onto [] (codes "exists")
      ∷ reverse_onto [] (codes "count")
      ∷ reverse_onto [] (codes "collect")
      ∷ [])

  abbrev pub field_start : List ℕ → Bool
  field_start [] = false
  field_start (c ∷ s) =
      if eqb c b'.'
      then at_word is_alnum s
      else is_word is_alnum c
        && is_field_end (drop_while is_space (drop_while (is_word is_alnum) s))

  abbrev pub is_map : (before rest : List ℕ) → Bool
  is_map before rest = not (after_opener before) || field_start (drop_while is_space rest)

  abbrev pub label : List ℕ → Option (List ℕ) × List ℕ
  label [] = (none, [])
  label (c ∷ s) =
      if eqb c b'`'
      then named (to_backtick s)
      else if is_operator c
      then (none, c ∷ s)
      else if is_word is_alnum c
      then (some (take_while (is_word is_alnum) (c ∷ s)), drop_while (is_word is_alnum) (c ∷ s))
      else (none, c ∷ s)

  -- The loop over the names behind a colon; `none` is a loop that needs more rounds than the fuel.
  unfoldable pub labels : (fuel : ℕ) → List ℕ → References → Option (References × List ℕ)
  labels zero s refs = none
  labels (suc fuel) s refs =
      let (name, rest) = label (drop_while is_blank s) in
      continue_labels (labels fuel) (add_name name refs) rest (alternative_of name rest)

  -- The body of the outer loop, at the character `c` before `s`.
  abbrev pub scan_step : (cypher : List ℕ) → Scan → ℕ → List ℕ → Option Scan
  scan_step cypher scan c s =
      if eqb c b'/' && is_next b'/' (head s)
      then some (moved scan (to_newline (tail s)))
      else if eqb c b'/' && is_next b'*' (head s)
      then some (moved scan (behind_comment (tail s)))
      else if eqb c b'\'' || eqb c b'"'
      then some (moved scan (behind_quote c false s))
      else if eqb c b'`'
      then some (ticked scan (to_backtick s))
      else if eqb c b'{'
      then some (record scan {
        rest = s;
        suppress_stack = is_map (reversed_before cypher (c ∷ s)) s ∷ scan.suppress_stack;
      })
      else if eqb c b'}'
      then some (record scan { rest = s; suppress_stack = popped scan.suppress_stack })
      else if eqb c b':' && not (suppressed scan.suppress_stack)
      then labelled scan (labels (suc (length s)) s scan.references)
      else some (moved scan s)

  abbrev pub scan_rest : (Scan → Option References) → List ℕ → Scan → List ℕ → Option References
  scan_rest more cypher scan [] = some scan.references
  scan_rest more cypher scan (c ∷ s) = next_scan more (scan_step cypher scan c s)

  -- The outer loop.
  unfoldable pub scan_from : (fuel : ℕ) → (cypher : List ℕ) → Scan → Option References
  scan_from zero cypher scan = none
  scan_from (suc fuel) cypher scan = scan_rest (scan_from fuel cypher) cypher scan scan.rest

  unfoldable pub extract_label_and_type_references : List ℕ → Option References
  extract_label_and_type_references cypher = scan_from (suc (length cypher)) cypher (record {
    rest = cypher;
    suppress_stack = [];
    references = record { names = []; unresolved = false };
  })
