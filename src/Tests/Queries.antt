-- ===== src/Tests/Queries.antt =====
-- Cypher queries and the guard.
use text2cypher_manufacturin.Common.{
  ℕ, ◌≡◌, refl, String, Bool, false, Option, some, List, [], ◌∷◌, ◌++◌, map, any, All, arith, ◌||◌,
}
use text2cypher_manufacturin.Python.Exceptions.{codes}
use text2cypher_manufacturin.Python.Text.{is_word}
use text2cypher_manufacturin.Retry.{GuardResult}
use text2cypher_manufacturin.Guards.{
  mask_query_text, mask_from, cypher_guard, passed, blocked_by, has_write_keyword, search_from,
  behind, extract_label_and_type_references, scan_from, labels, cypher_write_keywords, is_newline,
  head,
}
use text2cypher_manufacturin.Guards.Words.{words, is_keyword, has_write_keyword-words}
use text2cypher_manufacturin.Guards.Masking.{
  opens_part, IsCode, mask_query_text-dashes, cypher_guard-blocks_writes,
}
use text2cypher_manufacturin.Evaluation.{
  upper, is_token_char, validate_read_only_cypher, validate_single_statement,
}
use text2cypher_manufacturin.Evaluation.Stricter.{validate_read_only_cypher-has_write_keyword}

abbrev pub ascii_only : ℕ → Bool
ascii_only c = false

abbrev pub schema_names : List (List ℕ)
schema_names = map codes ("Product" ∷ "REQUIRES_COMPONENT" ∷ [])

abbrev pub decided : String → Option GuardResult
decided q = cypher_guard ascii_only schema_names (codes q)

reads :
    decided
      "MATCH (p:Product)-[:REQUIRES_COMPONENT*]->(c:Product) WHERE p.name = 'SET: it' RETURN c {name: c.name}"
    ≡ some passed
unfolding cypher_guard mask_query_text mask_from has_write_keyword search_from behind
    extract_label_and_type_references scan_from labels codes
reads = refl

writes : decided "MATCH (p:Product) ſeT p.name = 'x'" ≡ some (blocked_by "WRITE_KEYWORD_DETECTED")
unfolding cypher_guard mask_query_text mask_from has_write_keyword search_from behind
    extract_label_and_type_references scan_from labels codes
writes = refl

unknown_label :
    decided "MATCH (p) WHERE EXISTS { MATCH (p)-[:OWNS]->(:Product) } RETURN p"
    ≡ some (blocked_by "UNKNOWN_LABEL_OR_RELATIONSHIP")
unfolding cypher_guard mask_query_text mask_from has_write_keyword search_from behind
    extract_label_and_type_references scan_from labels codes
unknown_label = refl

-- An undirected relationship hides what follows it on the line.
undirected : decided "MATCH (a)--(b) DETACH DELETE b" ≡ some passed
unfolding cypher_guard mask_query_text mask_from has_write_keyword search_from behind
    extract_label_and_type_references scan_from labels codes
undirected = refl

-- So does a backslash before a closing backtick.
backslash : decided "MATCH (n) WITH n, n.`a\\` AS x DETACH DELETE n" ≡ some passed
unfolding cypher_guard mask_query_text mask_from has_write_keyword search_from behind
    extract_label_and_type_references scan_from labels codes
backslash = refl

pub All-any {ℓ} :
    {A : Type ℓ} (p : A → Bool) (xs : List A) → any p xs ≡ false → All (λ x. p x ≡ false) xs
All-any p [] h = tt
All-any p (x ∷ xs) h = (ground (arith, h), All-any p xs (ground (arith, h)))

abbrev opens_any : (next : ℕ) → List ℕ → Bool
opens_any next [] = false
opens_any next (c ∷ s) = opens_part c (head (s ++ next ∷ [])) || opens_any next s

IsCode-until : (next : ℕ) (s : List ℕ) → opens_any next s ≡ false → IsCode next s
IsCode-until next [] h = tt
IsCode-until next (c ∷ s) h = (ground (arith, h), IsCode-until next s (ground (arith, h)))

-- "MATCH (a)-[r]->(b) SeT b.x = 6/2" and "(b)-[r]->(c)"
abbrev writing : List ℕ
writing = codes "MATCH (a)-[r]->(b) SeT b.x = 6/2"

abbrev pattern_behind : List ℕ
pattern_behind = codes "(b)-[r]->(c)"

cypher_guard-blocks_writes_example :
    cypher_guard ascii_only schema_names (writing ++ b' ' ∷ pattern_behind)
    ≡ some (blocked_by "WRITE_KEYWORD_DETECTED")
unfolding codes
cypher_guard-blocks_writes_example =
    cypher_guard-blocks_writes ascii_only schema_names writing pattern_behind
      (IsCode-until b' ' writing refl) refl

mask_query_text-dashes_example :
    mask_query_text
      (codes "MATCH (a)" ++ b'-' ∷ b'-' ∷ (codes "(b) DELETE b" ++ 10 ∷ codes "DELETE a"))
    ≡ codes "MATCH (a)"
      ++ (map (λ _. b' ') (codes "(b) DELETE b") ++ 10 ∷ mask_query_text (codes "DELETE a"))
unfolding codes
mask_query_text-dashes_example =
    mask_query_text-dashes (codes "MATCH (a)") (codes "(b) DELETE b") 10 (codes "DELETE a")
      (IsCode-until b'-' (codes "MATCH (a)") refl) (All-any is_newline (codes "(b) DELETE b") refl)
      refl

has_write_keyword-words_example :
    has_write_keyword ascii_only (codes "MATCH (b) SeT b.x = 1")
    ≡ any
        (is_keyword ascii_only (map codes cypher_write_keywords))
        (words ascii_only (codes "MATCH (b) SeT b.x = 1"))
has_write_keyword-words_example = has_write_keyword-words ascii_only (codes "MATCH (b) SeT b.x = 1")

-- Beyond ASCII no character is taken for a letter, and none changes in capitals.
abbrev unchanged : ℕ → List ℕ
unchanged c = c ∷ []

unchanged-apart :
    (c : ℕ)
    → is_word ascii_only c ≡ false
    → (n : ℕ) × (l : List ℕ) × (upper unchanged c ≡ n ∷ l)
      × All (λ d. is_token_char d ≡ false) (n ∷ l)
unchanged-apart c other = (c, [], ground (arith, other), (ground (arith, other), tt))

validate_read_only_cypher-has_write_keyword_example :
    has_write_keyword ascii_only (mask_query_text (codes "MATCH (p) RETURN p;")) ≡ false
unfolding codes mask_query_text mask_from validate_read_only_cypher validate_single_statement
validate_read_only_cypher-has_write_keyword_example =
    validate_read_only_cypher-has_write_keyword ascii_only unchanged unchanged-apart
      (λ c space. ground (arith, space)) (codes "MATCH (p) RETURN p;") refl
