-- ===== src/Pipeline/Request.antt =====
-- `has_write_intent` of backend/orchestrator/nodes/guard_request.py.
use text2cypher_manufacturin.Common.{ℕ, Bool, ◌&&◌, ◌||◌, String, List, [], ◌∷◌, any, leb, eqb}
use text2cypher_manufacturin.Python.Exceptions.{codes}
use text2cypher_manufacturin.Python.Text.{is_space, fold, is_word}
use text2cypher_manufacturin.Python.Regex.{
  Regex, boundary, text_start, text_end, char, many, alt, opt, ahead, search_text, literal,
  any_case, one_of, spaces, some_spaces, ◌then◌,
}

abbrev pub korean : String → Regex
korean s = literal (codes s)

abbrev pub english : String → Regex
english s = any_case (codes s)

abbrev pub write_nouns : List String
write_nouns =
    "삭제" ∷ "제거" ∷ "수정" ∷ "변경" ∷ "추가" ∷ "삽입" ∷ "생성" ∷ "초기화" ∷ "파기" ∷ "폐기" ∷ "갱신" ∷ "등록" ∷ []

abbrev pub korean_formal_write_request : Regex
korean_formal_write_request =
    one_of literal write_nouns
    then alt (korean "해" then spaces then korean "줘" then opt (korean "요")) (
        alt (korean "해" then spaces then korean "주세요") (
          alt (one_of literal ("해라" ∷ "하라" ∷ "하세요" ∷ [])) (
            alt (korean "해" then spaces then one_of literal ("줄래" ∷ "주시겠" ∷ "주십시오" ∷ "바랍니다" ∷ []))
              (one_of literal ("을" ∷ "를" ∷ []) then spaces then korean "부탁"))))

-- [.!?]
abbrev pub is_sentence_end : ℕ → Bool
is_sentence_end c = eqb c b'.' || (eqb c b'!' || eqb c b'?')

abbrev pub korean_colloquial_write_request : Regex
korean_colloquial_write_request =
    alt (one_of literal ("지워" ∷ "없애" ∷ "바꿔" ∷ "넣어" ∷ "만들어" ∷ []))
      (korean "덮어" then spaces then korean "써")
    then opt (
        alt (spaces then korean "줘" then opt (korean "요")) (
          alt (spaces then korean "주세요")
            (alt (korean "라") (spaces then one_of literal ("줄래" ∷ "주시겠" ∷ "주십시오" ∷ [])))))
    then ahead (alt (char is_space) (alt (char is_sentence_end) text_end))

abbrev pub korean_terse_write_request : Regex
korean_terse_write_request =
    one_of literal write_nouns
    then spaces
    then opt (one_of literal ("요청" ∷ "실행" ∷ "처리" ∷ []))
    then spaces
    then opt (char is_sentence_end)
    then text_end

abbrev pub sql_objects : List String
sql_objects = "table" ∷ "database" ∷ "schema" ∷ []

-- SQL_WRITE_KEYWORDS | CYPHER_WRITE_KEYWORDS
abbrev pub shared_write_keywords : List String
shared_write_keywords =
    "alter" ∷ "analyze" ∷ "call" ∷ "cluster" ∷ "comment" ∷ "copy" ∷ "create" ∷ "delete" ∷ "detach"
    ∷ "do" ∷ "drop" ∷ "execute" ∷ "foreach" ∷ "grant" ∷ "insert" ∷ "into" ∷ "load" ∷ "lock"
    ∷ "merge" ∷ "refresh" ∷ "reindex" ∷ "remove" ∷ "revoke" ∷ "set" ∷ "truncate" ∷ "update"
    ∷ "vacuum" ∷ []

abbrev pub shared_write_keyword : Regex
shared_write_keyword =
    text_start then spaces then one_of any_case shared_write_keywords then boundary

abbrev pub english_write_verbs : List String
english_write_verbs =
    "delete" ∷ "remove" ∷ "update" ∷ "insert" ∷ "drop" ∷ "truncate" ∷ "alter" ∷ "modify" ∷ "change"
    ∷ "add" ∷ "create" ∷ "reset" ∷ "destroy" ∷ []

abbrev pub english_write_request : Regex
english_write_request =
    text_start
    then spaces
    then opt (
        alt (one_of any_case ("please" ∷ "kindly" ∷ []) then some_spaces) (
          one_of any_case ("can" ∷ "could" ∷ "would" ∷ "will" ∷ [])
          then some_spaces
          then english "you"
          then some_spaces))
    then one_of any_case english_write_verbs
    then boundary

-- [A-Za-z_] under (?i)
abbrev pub is_name_start : ℕ → Bool
is_name_start c = (leb b'a' (fold c) && leb (fold c) b'z') || eqb c b'_'

module _ (is_alnum : ℕ → Bool) where
  -- [\w.]
  abbrev pub is_name_part : ℕ → Bool
  is_name_part c = is_word is_alnum c || eqb c b'.'

  abbrev pub sql_write_syntax : Regex
  sql_write_syntax =
      boundary
      then alt (english "delete" then some_spaces then english "from") (
          alt
            (english "update"
              then some_spaces
              then char is_name_start
              then many is_name_part
              then some_spaces
              then english "set")
            (alt (english "insert" then some_spaces then english "into") (
              alt (english "drop" then some_spaces then one_of any_case sql_objects) (
                alt
                  (english "truncate" then some_spaces then opt (english "table" then some_spaces))
                  (alt (english "alter" then some_spaces then one_of any_case sql_objects)
                    (english "create" then some_spaces then one_of any_case sql_objects))))))
      then boundary

  abbrev pub write_patterns : List Regex
  write_patterns =
      korean_formal_write_request ∷ korean_colloquial_write_request ∷ korean_terse_write_request
      ∷ sql_write_syntax ∷ shared_write_keyword ∷ english_write_request ∷ []

  unfoldable pub has_write_intent : List ℕ → Bool
  has_write_intent query = any (λ pattern. search_text is_alnum pattern query) write_patterns
