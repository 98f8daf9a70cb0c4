-- ===== src/Python/Regex.antt =====
-- What `re` does with the patterns of this program: a match is tried in the order of the pattern,
-- and a pattern may match at a place in several ways.
use text2cypher_manufacturin.Common.{
  ℕ, Bool, true, false, not, ◌||◌, Option, none, some, String, List, [], ◌∷◌, ◌++◌, eqb, is_empty,
  if◌then◌else◌,
}
use text2cypher_manufacturin.Python.Exceptions.{codes}
use text2cypher_manufacturin.Python.Text.{is_space, fold, is_word}

-- `many` is `[...]*`, `ahead` is `(?=...)`, `text_start` is `^`, `text_end` is `$`.
pub data Regex : Type 0 where
  empty fail boundary text_start text_end : Regex
  char : (ℕ → Bool) → Regex
  many : (ℕ → Bool) → Regex
  seq alt : Regex → Regex → Regex
  opt ahead : Regex → Regex

-- A place in a text: the character before it, and what is left.
pub record At : Type 0 where
  pub before : Option ℕ
  pub rest : List ℕ

abbrev pub stepped : ℕ → List ℕ → At
stepped c s = record { before = some c; rest = s }

abbrev pub one_char : (ℕ → Bool) → List ℕ → List At
one_char p [] = []
one_char p (c ∷ s) = if p c then stepped c s ∷ [] else []

-- The longest run first.
abbrev pub run_of : (ℕ → Bool) → Option ℕ → List ℕ → List At
run_of p before [] = record { before = before; rest = [] } ∷ []
run_of p before (c ∷ s) =
    let rest = run_of p (some c) s in
    if p c
    then rest ++ record { before = before; rest = c ∷ s } ∷ []
    else record { before = before; rest = c ∷ s } ∷ []

-- At the end, or before a line break that ends the text.
abbrev pub at_end : List ℕ → Bool
at_end [] = true
at_end (c ∷ []) = eqb c 10
at_end _ = false

abbrev pub when : Bool → At → List At
when true a = a ∷ []
when false a = []

abbrev pub from_each : (At → List At) → List At → List At
from_each f [] = []
from_each f (a ∷ more) = f a ++ from_each f more

module _ (is_alnum : ℕ → Bool) where
  abbrev pub word_before : Option ℕ → Bool
  word_before none = false
  word_before (some c) = is_word is_alnum c

  abbrev pub word_after : List ℕ → Bool
  word_after [] = false
  word_after (c ∷ s) = is_word is_alnum c

  abbrev pub at_boundary : Bool → Bool → Bool
  at_boundary true b = not b
  at_boundary false b = b

  abbrev pub at_start : Option ℕ → Bool
  at_start none = true
  at_start (some c) = false

  -- The places behind the ways to match.
  unfoldable pub match_at : Regex → At → List At
  match_at empty a = a ∷ []
  match_at fail a = []
  match_at boundary a = when (at_boundary (word_before a.before) (word_after a.rest)) a
  match_at text_start a = when (at_start a.before) a
  match_at text_end a = when (at_end a.rest) a
  match_at (char p) a = one_char p a.rest
  match_at (many p) a = run_of p a.before a.rest
  match_at (seq r q) a = from_each (match_at q) (match_at r a)
  match_at (alt r q) a = match_at r a ++ match_at q a
  match_at (opt r) a = match_at r a ++ a ∷ []
  match_at (ahead r) a = when (not (is_empty (match_at r a))) a

  -- pattern.search(text) is not None, from a place on
  unfoldable pub search_at : Regex → Option ℕ → List ℕ → Bool
  search_at r before [] = not (is_empty (match_at r (record { before = before; rest = [] })))
  search_at r before (c ∷ s) =
      not (is_empty (match_at r (record { before = before; rest = c ∷ s })))
      || search_at r (some c) s

  unfoldable pub search_text : Regex → List ℕ → Bool
  search_text r s = search_at r none s

infixr 4 ◌then◌
abbrev pub ◌then◌ : Regex → Regex → Regex
r then q = seq r q

-- A literal, and one under `(?i)`.
abbrev pub literal : List ℕ → Regex
literal [] = empty
literal (c ∷ s) = seq (char (eqb c)) (literal s)

abbrev pub any_case : List ℕ → Regex
any_case [] = empty
any_case (c ∷ s) = seq (char (λ d. eqb c (fold d))) (any_case s)

abbrev pub one_of : (List ℕ → Regex) → List String → Regex
one_of lit [] = fail
one_of lit (s ∷ ss) = alt (lit (codes s)) (one_of lit ss)

abbrev pub spaces : Regex
spaces = many is_space

abbrev pub some_spaces : Regex
some_spaces = seq (char is_space) spaces
