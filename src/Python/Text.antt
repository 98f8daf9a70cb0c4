-- ===== src/Python/Text.antt =====
-- What `str` and `re` say of single characters. A text is the list of its code points where it is
-- walked through.
use text2cypher_manufacturin.Common.{
  ℕ, ◌+◌, Bool, true, false, ◌&&◌, ◌||◌, List, [], ◌∷◌, leb, ltb, eqb, if◌then◌else◌,
}

-- The white space of `str.strip` and of `\s`.
abbrev pub is_space : ℕ → Bool
is_space c =
    (leb 9 c && leb c 13)
    || ((leb 28 c && leb c 32)
        || (eqb c 133
            || (eqb c 160
                || (eqb c 5760
                    || ((leb 8192 c && leb c 8202)
                        || (eqb c 8232
                            || (eqb c 8233 || (eqb c 8239 || (eqb c 8287 || eqb c 12288)))))))))

-- The letter that a character stands for when `re.IGNORECASE` compares it with an ASCII letter: the
-- long s, the Kelvin sign, and the two other i are the only ones beyond ASCII.
abbrev pub fold : ℕ → ℕ
fold c =
    if leb b'A' c && leb c b'Z'
    then c + 32
    else if eqb c 383
    then b's'
    else if eqb c 8490
    then b'k'
    else if eqb c 304 || eqb c 305
    then b'i'
    else c

abbrev pub text_eq : List ℕ → List ℕ → Bool
text_eq [] [] = true
text_eq (c ∷ s) (d ∷ t) = eqb c d && text_eq s t
text_eq _ _ = false

abbrev pub elem_text : List ℕ → List (List ℕ) → Bool
elem_text s [] = false
elem_text s (t ∷ ts) = text_eq s t || elem_text s ts

-- `\w`. Which characters beyond ASCII are alphanumeric is the Unicode database's to say, but for
-- the four above, which are letters.
module _ (is_alnum : ℕ → Bool) where
  abbrev pub is_word : ℕ → Bool
  is_word c =
      if ltb c 128
      then (leb b'a' c && leb c b'z')
        || ((leb b'A' c && leb c b'Z') || ((leb b'0' c && leb c b'9') || eqb c b'_'))
      else (eqb c 383 || (eqb c 8490 || (eqb c 304 || (eqb c 305 || is_alnum c))))
