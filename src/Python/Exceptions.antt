-- ===== src/Python/Exceptions.antt =====
-- Python exceptions as values: a call returns or raises, and a class is known by its name.
use Prim.Native.Char.{code}
use text2cypher_manufacturin.Common.{
  ℕ, ◌+◌, String, Bool, true, false, ◌&&◌, ◌||◌, Option, List, [], ◌∷◌, leb, eqb, if◌then◌else◌,
  map,
}

pub record Exception : Type 0 where
  pub type_name : String
  pub sqlstate : Option String
  pub text : String

pub data Call {ℓ} (A : Type ℓ) : Type ℓ where
  returns : A → Call A
  raises : Exception → Call A

-- The code points of a text.
unfoldable pub codes : String → List ℕ
codes String.[] = []
codes (String.◌∷◌ c s) = code c ∷ codes s

-- `.lower()` of one ASCII character.
abbrev pub lower_code : ℕ → ℕ
lower_code c = if leb b'A' c && leb c b'Z' then c + 32 else c

abbrev pub prefix_of : List ℕ → List ℕ → Bool
prefix_of [] ys = true
prefix_of (x ∷ xs) [] = false
prefix_of (x ∷ xs) (y ∷ ys) = eqb x y && prefix_of xs ys

-- xs in ys
abbrev pub infix_of : List ℕ → List ℕ → Bool
infix_of xs [] = prefix_of xs []
infix_of xs (y ∷ ys) = prefix_of xs (y ∷ ys) || infix_of xs ys

-- part in type(exc).__name__.lower()
unfoldable pub named_like : String → Exception → Bool
unfolding codes
named_like part exc = infix_of (codes part) (map lower_code (codes exc.type_name))
