-- ===== src/Guards/Grammar.antt =====
-- Queries as they are written: code, literals, and references to labels and relationship types. The
-- guard's scan is not used here.
use text2cypher_manufacturin.Common.{
  ℕ, ◌≡◌, Bool, true, false, not, ◌||◌, List, [], ◌∷◌, ◌++◌, All, eqb, map, if◌then◌else◌,
}
use text2cypher_manufacturin.Python.Text.{is_word}
use text2cypher_manufacturin.Guards.Mask.{is_quote}
use text2cypher_manufacturin.Guards.Labels.{is_blank}

-- The character may open a literal, a comment, a map, a block or a name.
abbrev pub is_marked : ℕ → Bool
is_marked c = is_quote c || (eqb c b'/' || (eqb c b'{' || (eqb c b'}' || eqb c b':')))

abbrev pub IsNeutral : ℕ → Type 0
IsNeutral c = is_marked c ≡ false

abbrev pub IsBlank : ℕ → Type 0
IsBlank c = is_blank c ≡ true

-- A name behind blanks.
pub record Named : Type 0 where
  pub gap : List ℕ
  pub first : ℕ
  pub rest : List ℕ

abbrev pub name : Named → List ℕ
name n = n.first ∷ n.rest

-- A further name, behind blanks and an operator.
pub record Alternative : Type 0 where
  pub before : List ℕ
  pub operator : ℕ
  pub named : Named

-- A literal stands between two of the same quote; a reference is a colon, a name and alternatives.
pub data Part : Type 0 where
  code : List ℕ → Part
  literal : (quote : ℕ) (body : List ℕ) → Part
  reference : Named → List Alternative → Part

abbrev pub written_name : Named → List ℕ → List ℕ
written_name n t = n.gap ++ (n.first ∷ (n.rest ++ t))

abbrev pub written_alternatives : List Alternative → List ℕ → List ℕ
written_alternatives [] t = t
written_alternatives (a ∷ rest) t =
    a.before ++ (a.operator ∷ written_name a.named (written_alternatives rest t))

-- The text of the parts, with a text behind it.
abbrev pub written : List Part → List ℕ → List ℕ
written [] t = t
written (code s ∷ parts) t = s ++ written parts t
written (literal quote body ∷ parts) t = quote ∷ (body ++ (quote ∷ written parts t))
written (reference n rest ∷ parts) t =
    b':' ∷ written_name n (written_alternatives rest (written parts t))

abbrev pub names_of : Part → List (List ℕ)
names_of (reference n rest) = name n ∷ map (λ a. name a.named) rest
names_of _ = []

abbrev pub names : List Part → List (List ℕ)
names [] = []
names (part ∷ parts) = names_of part ++ names parts

-- No operator comes next, behind blanks.
abbrev pub no_operator : List ℕ → Bool
no_operator [] = true
no_operator (c ∷ s) =
    let rest = no_operator s in if is_blank c then rest else not (eqb c b'|' || eqb c b'&')

-- The character stands for itself in a literal.
abbrev pub IsInside : (quote : ℕ) → ℕ → Type 0
IsInside quote c = (eqb c quote ≡ false) × (eqb c b'\\' ≡ false)

module _ (is_alnum : ℕ → Bool) where
  abbrev pub IsWordChar : ℕ → Type 0
  IsWordChar c = is_word is_alnum c ≡ true

  -- A name ends here.
  abbrev pub is_end : List ℕ → Bool
  is_end [] = true
  is_end (c ∷ s) = not (is_word is_alnum c)

  abbrev pub IsName : Named → Type 0
  IsName n = All IsBlank n.gap × All IsWordChar (name n)

  abbrev pub IsAlternative : Alternative → Type 0
  IsAlternative a =
      All IsBlank a.before × ((eqb a.operator b'|' || eqb a.operator b'&') ≡ true) × IsName a.named

  -- The part is well formed, with the text that follows it.
  abbrev pub IsPart : Part → (following : List ℕ) → Type 0
  IsPart (code s) following = All IsNeutral s
  IsPart (literal quote body) following =
      ((eqb quote b'\'' || eqb quote b'"') ≡ true) × All (IsInside quote) body
  IsPart (reference n rest) following =
      IsName n × All IsAlternative rest × (is_end following ≡ true) × (no_operator following ≡ true)

  -- Every part is well formed.
  abbrev pub IsWritten : List Part → (following : List ℕ) → Type 0
  IsWritten [] following = Unit
  IsWritten (part ∷ parts) following =
      IsPart part (written parts following) × IsWritten parts following
