-- ===== src/Guards/Keywords.antt =====
-- CYPHER_WRITE_KEYWORDS and `_FORBIDDEN_PATTERN`: the search for `\b(...)\b`, from left to right.
use text2cypher_manufacturin.Common.{
  ℕ, String, Bool, false, not, ◌&&◌, ◌||◌, Option, none, some, List, [], ◌∷◌, map, any, eqb,
  if◌then◌else◌,
}
use text2cypher_manufacturin.Python.Exceptions.{codes}
use text2cypher_manufacturin.Python.Text.{fold, is_word}

abbrev pub cypher_write_keywords : List String
cypher_write_keywords =
    "call" ∷ "create" ∷ "delete" ∷ "detach" ∷ "drop" ∷ "foreach" ∷ "load" ∷ "merge" ∷ "remove"
    ∷ "set" ∷ []

-- What is left of a text behind a keyword.
unfoldable pub behind : List ℕ → List ℕ → Option (List ℕ)
behind [] s = some s
behind (k ∷ keyword) [] = none
behind (k ∷ keyword) (c ∷ s) = let rest = behind keyword s in if eqb (fold c) k then rest else none

module _ (is_alnum : ℕ → Bool) where
  abbrev pub at_word : List ℕ → Bool
  at_word [] = false
  at_word (c ∷ s) = is_word is_alnum c

  abbrev pub ends : Option (List ℕ) → Bool
  ends none = false
  ends (some rest) = not (at_word rest)

  -- The keyword stands here, and no word character behind it.
  abbrev pub matches : List ℕ → List ℕ → Bool
  matches s keyword = ends (behind keyword s)

  -- `inside` says that the character before is a word character.
  unfoldable pub search_from : (keywords : List (List ℕ)) (inside : Bool) → List ℕ → Bool
  search_from keywords inside [] = false
  search_from keywords inside (c ∷ s) =
      (not inside && any (matches (c ∷ s)) keywords) || search_from keywords (is_word is_alnum c) s

  unfoldable pub has_write_keyword : List ℕ → Bool
  has_write_keyword s = search_from (map codes cypher_write_keywords) false s
