-- ===== src/Evaluation/Safety.antt =====
-- `_validate_single_statement` and `validate_read_only_cypher`, on a text.
use text2cypher_manufacturin.Common.{
  ℕ, ◌-◌, String, Bool, true, false, not, ◌&&◌, ◌||◌, List, [], ◌∷◌, ◌++◌, map, any, eqb, leb, ltb,
  is_empty, Result, ok, err, ◌>>=◌, if◌then◌else◌,
}
use text2cypher_manufacturin.Python.Exceptions.{codes}
use text2cypher_manufacturin.Python.Text.{is_space, elem_text}
use text2cypher_manufacturin.Guards.{mask_query_text}

pub data QuerySafetyError : Type 0 where
  empty_query nul_character many_statements no_statement wrong_start : QuerySafetyError
  forbidden_keyword : QuerySafetyError

abbrev pub lstrip : List ℕ → List ℕ
lstrip [] = []
lstrip (c ∷ s) = let rest = lstrip s in if is_space c then rest else c ∷ s

abbrev pub rstrip : List ℕ → List ℕ
rstrip [] = []
rstrip (c ∷ s) = let rest = rstrip s in if is_empty rest && is_space c then [] else c ∷ rest

-- Without the last character, where that is a semicolon.
abbrev pub without_semicolon : List ℕ → List ℕ
without_semicolon [] = []
without_semicolon (c ∷ s) =
    let rest = without_semicolon s in if is_empty s && eqb c b';' then [] else c ∷ rest

abbrev pub ends_with_semicolon : List ℕ → Bool
ends_with_semicolon [] = false
ends_with_semicolon (c ∷ []) = eqb c b';'
ends_with_semicolon (c ∷ d ∷ s) = ends_with_semicolon (d ∷ s)

-- masked.strip(), and without a semicolon at its end
abbrev pub cleaned : List ℕ → List ℕ
cleaned masked =
    let stripped = rstrip (lstrip masked) in
    if ends_with_semicolon stripped then rstrip (without_semicolon stripped) else stripped

-- [A-Za-z_]
abbrev pub is_token_char : ℕ → Bool
is_token_char c = (leb b'a' c && leb c b'z') || ((leb b'A' c && leb c b'Z') || eqb c b'_')

-- A run of token characters at the start, which may be empty, and the runs behind it.
abbrev pub add_token_char : Bool → ℕ → List ℕ × List (List ℕ) → List ℕ × List (List ℕ)
add_token_char true c (token, tokens) = (c ∷ token, tokens)
add_token_char false c (token, tokens) = ([], token ∷ tokens)

abbrev pub runs : List ℕ → List ℕ × List (List ℕ)
runs [] = ([], [])
runs (c ∷ s) = add_token_char (is_token_char c) c (runs s)

abbrev pub nonempty : List (List ℕ) → List (List ℕ)
nonempty [] = []
nonempty ([] ∷ runs) = nonempty runs
nonempty ((c ∷ s) ∷ runs) = (c ∷ s) ∷ nonempty runs

-- re.findall(r"[A-Za-z_]+", text)
abbrev pub tokens : List ℕ → List (List ℕ)
tokens text = nonempty ((runs text).0 ∷ (runs text).1)

abbrev pub cypher_start : List String
cypher_start = "MATCH" ∷ "OPTIONAL" ∷ "RETURN" ∷ "UNWIND" ∷ "WITH" ∷ []

-- CYPHER_WRITE_KEYWORDS
abbrev pub upper_write_keywords : List String
upper_write_keywords =
    "CALL" ∷ "CREATE" ∷ "DELETE" ∷ "DETACH" ∷ "DROP" ∷ "FOREACH" ∷ "LOAD" ∷ "MERGE" ∷ "REMOVE"
    ∷ "SET" ∷ []

abbrev pub starts_with : List String → List (List ℕ) → Bool
starts_with start [] = false
starts_with start (token ∷ tokens) = elem_text token (map codes start)

abbrev pub has_forbidden : List String → List (List ℕ) → Bool
has_forbidden keywords tokens = any (λ token. elem_text token (map codes keywords)) tokens

abbrev pub refuse : Bool → QuerySafetyError → Result QuerySafetyError (Unit {0})
refuse b e = if b then err e else ok tt

-- What `str.upper` makes of a character is the Unicode database's to say beyond ASCII, but for the
-- long s, which becomes S.
module _ (upper_other : ℕ → List ℕ) where
  abbrev pub upper : ℕ → List ℕ
  upper c =
      if ltb c 128
      then (if leb b'a' c && leb c b'z' then c - 32 else c) ∷ []
      else if eqb c 383
      then b'S' ∷ []
      else upper_other c

  abbrev pub upper_text : List ℕ → List ℕ
  upper_text [] = []
  upper_text (c ∷ s) = upper c ++ upper_text s

  unfoldable pub validate_single_statement : List ℕ → Result QuerySafetyError (List (List ℕ))
  validate_single_statement query = do
    _ ← refuse (is_empty (lstrip query)) empty_query
    _ ← refuse (any (λ c. eqb c 0) query) nul_character
    _ ← refuse (any (λ c. eqb c b';') (cleaned (mask_query_text query))) many_statements
    _ ← refuse (is_empty (tokens (upper_text (cleaned (mask_query_text query))))) no_statement
    ok (tokens (upper_text (cleaned (mask_query_text query))))

  unfoldable pub validate_read_only_cypher : List ℕ → Result QuerySafetyError (Unit {0})
  validate_read_only_cypher query = do
    found ← validate_single_statement query
    _ ← refuse (not (starts_with cypher_start found)) wrong_start
    refuse (has_forbidden upper_write_keywords found) forbidden_keyword
