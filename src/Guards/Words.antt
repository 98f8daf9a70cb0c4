-- ===== src/Guards/Words.antt =====
-- The search for write keywords against the words of a text.
use text2cypher_manufacturin.Common.{
  ℕ, ◌≡◌, refl, Bool, true, false, not, ◌&&◌, ◌||◌, none, List, [], ◌∷◌, map, any, all, is_empty,
  all→All, arith, eqb, leb, All, if◌then◌else◌,
}
use text2cypher_manufacturin.Python.Exceptions.{codes}
use text2cypher_manufacturin.Python.Text.{fold, is_word, text_eq}
use text2cypher_manufacturin.Guards.Keywords.{
  cypher_write_keywords, behind, ends, matches, search_from, has_write_keyword,
}

abbrev IsLower : ℕ → Type 0
IsLower k = (leb b'a' k && leb k b'z') ≡ true

-- A keyword is lower-case letters, at least one.
abbrev IsKeyword : List ℕ → Type 0
IsKeyword [] = ⊥
IsKeyword (k ∷ keyword) = All IsLower (k ∷ keyword)

abbrev is_lower : ℕ → Bool
is_lower k = leb b'a' k && leb k b'z'

all_keywords :
    (ks : List (List ℕ))
    → all (λ k. not (is_empty k) && all is_lower k) ks ≡ true
    → All IsKeyword ks
all_keywords [] h = tt
all_keywords ([] ∷ ks) h = cc
all_keywords ((k ∷ keyword) ∷ ks) h =
    (all→All is_lower (k ∷ keyword) (ground (arith, h)), all_keywords ks (ground (arith, h)))

write_keywords-IsKeyword : All IsKeyword (map codes cypher_write_keywords)
unfolding codes
write_keywords-IsKeyword = all_keywords (map codes cypher_write_keywords) refl

module _ (is_alnum : ℕ → Bool) where
  -- A text with one more character in front: its first word, which may be empty, and the others.
  abbrev pub add_char : (in_word : Bool) → ℕ → List ℕ × List (List ℕ) → List ℕ × List (List ℕ)
  add_char true c (word, words) = (c ∷ word, words)
  add_char false c (word, words) = ([], word ∷ words)

  abbrev pub split : List ℕ → List ℕ × List (List ℕ)
  split [] = ([], [])
  split (c ∷ s) = add_char (is_word is_alnum c) c (split s)

  -- The maximal runs of word characters, with an empty one between two other characters.
  abbrev pub words : List ℕ → List (List ℕ)
  words s = (split s).0 ∷ (split s).1

  -- The word is one of the keywords, whatever the case of its letters.
  abbrev pub is_keyword : List (List ℕ) → List ℕ → Bool
  is_keyword keywords word = any (text_eq (map fold word)) keywords

  fold-word : (c : ℕ) → IsLower (fold c) → is_word is_alnum c ≡ true
  fold-word c h = ground arith

  first_word :
      (b : Bool) (c : ℕ) (rest : List ℕ × List (List ℕ))
      → not b ≡ text_eq (map fold (add_char b c rest).0) []
  first_word true c rest = refl
  first_word false c rest = refl

  matches-eq :
      (s keyword : List ℕ)
      → All IsLower keyword
      → matches is_alnum s keyword ≡ text_eq (map fold (split s).0) keyword
  unfolding behind
  matches-eq [] [] h = refl
  matches-eq (c ∷ s) [] h = first_word (is_word is_alnum c) c (split s)
  matches-eq [] (k ∷ keyword) h = refl
  matches-eq (c ∷ s) (k ∷ keyword) (letter, h) =
      by_char (eqb (fold c) k) (is_word is_alnum c) refl
        (λ e. fold-word c (ground (arith, e, letter))) (matches-eq s keyword h)
    where
      by_char :
          (e b : Bool)
          → eqb (fold c) k ≡ e
          → (e ≡ true → b ≡ true)
          → matches is_alnum s keyword ≡ text_eq (map fold (split s).0) keyword
          → ends is_alnum (if e then behind keyword s else none)
            ≡ text_eq (map fold (add_char b c (split s)).0) (k ∷ keyword)
      by_char true true same word ih = rw (same, ih)
      by_char true false same word ih = cc (word refl)
      by_char false true same word ih = rw same
      by_char false false same word ih = refl

  any-matches :
      (s : List ℕ) (keywords : List (List ℕ))
      → All IsKeyword keywords
      → any (matches is_alnum s) keywords ≡ is_keyword keywords (split s).0
  any-matches s [] h = refl
  any-matches s (keyword ∷ keywords) (k, h) =
      rw (matches-eq s keyword (letters keyword k), any-matches s keywords h)
    where
      letters : (keyword : List ℕ) → IsKeyword keyword → All IsLower keyword
      letters [] k = absurd k
      letters (x ∷ keyword) k = k

  no_empty : (keywords : List (List ℕ)) → All IsKeyword keywords → is_keyword keywords [] ≡ false
  no_empty [] h = refl
  no_empty ([] ∷ keywords) (k, h) = absurd k
  no_empty ((x ∷ keyword) ∷ keywords) (k, h) = no_empty keywords h

  -- Inside a word the search finds what is behind the word.
  abbrev sought : List (List ℕ) → (inside : Bool) → List ℕ × List (List ℕ) → Bool
  sought keywords true (word, words) = any (is_keyword keywords) words
  sought keywords false (word, words) = is_keyword keywords word || any (is_keyword keywords) words

  search_from-eq :
      (keywords : List (List ℕ)) (inside : Bool) (s : List ℕ)
      → All IsKeyword keywords
      → search_from is_alnum keywords inside s ≡ sought keywords inside (split s)
  unfolding search_from
  search_from-eq keywords true [] h = refl
  search_from-eq keywords false [] h = rw (no_empty keywords h)
  search_from-eq keywords inside (c ∷ s) h =
      by_char inside (is_word is_alnum c) (any-matches (c ∷ s) keywords h)
        (search_from-eq keywords (is_word is_alnum c) s h)
    where
      by_char :
          (inside b : Bool)
          → any (matches is_alnum (c ∷ s)) keywords ≡ is_keyword keywords (add_char b c (split s)).0
          → search_from is_alnum keywords b s ≡ sought keywords b (split s)
          → ((not inside && any (matches is_alnum (c ∷ s)) keywords)
              || search_from is_alnum keywords b s)
            ≡ sought keywords inside (add_char b c (split s))
      by_char true true found rest = rest
      by_char true false found rest = rest
      by_char false true found rest = rw (found, rest)
      by_char false false found rest = rw (found, rest)

  -- The search for a write keyword finds one exactly when some word of the text is one, whatever
  -- the case of its letters.
  pub has_write_keyword-words :
      (s : List ℕ)
      → has_write_keyword is_alnum s ≡ any (is_keyword (map codes cypher_write_keywords)) (words s)
  unfolding has_write_keyword
  has_write_keyword-words s =
      search_from-eq (map codes cypher_write_keywords) false s write_keywords-IsKeyword
