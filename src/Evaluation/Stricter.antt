-- ===== src/Evaluation/Stricter.antt =====
-- `validate_read_only_cypher` and the write keywords of the Cypher guard.
use text2cypher_manufacturin.Common.{
  ℕ, ◌-◌, ◌≡◌, refl, sym, ◌∙◌, ap, Bool, true, false, not, ◌&&◌, ◌||◌, List, [], ◌∷◌, ◌++◌, map,
  any, all, eqb, leb, is_empty, ok, >>=-eq-ok, ok-injective, All, arith,
}
use text2cypher_manufacturin.Python.Exceptions.{codes}
use text2cypher_manufacturin.Python.Text.{is_space, is_word, text_eq, elem_text, fold}
use text2cypher_manufacturin.Guards.{mask_query_text, has_write_keyword, cypher_write_keywords}
use text2cypher_manufacturin.Guards.Words.{add_char, split, is_keyword, has_write_keyword-words}
use text2cypher_manufacturin.Evaluation.Safety.{
  lstrip, cleaned, is_token_char, add_token_char, runs, nonempty, tokens, upper_write_keywords,
  has_forbidden, refuse, upper, upper_text, validate_single_statement, validate_read_only_cypher,
  QuerySafetyError, starts_with, cypher_start, wrong_start, forbidden_keyword, empty_query,
  nul_character, many_statements, no_statement,
}
use text2cypher_manufacturin.Evaluation.Cleaning.{any-cleaned}
use text2cypher_manufacturin.Guards.Unknown.{all-elem_text}

-- The letters of the keywords, none of which is an i or a k.
abbrev plain_letter : ℕ → Bool
plain_letter k = (leb b'a' k && leb k b'z') && not (eqb k b'i' || eqb k b'k')

abbrev is_plain : ℕ → Bool
is_plain c = plain_letter (fold c)

abbrev capital : ℕ → ℕ
capital c = fold c - 32

abbrev keywords : List (List ℕ)
keywords = map codes cypher_write_keywords

abbrev is_forbidden : List ℕ → Bool
is_forbidden token = elem_text token (map codes upper_write_keywords)

-- A keyword in small letters has plain letters, and is forbidden in capital ones.
abbrev is_good : List ℕ → Bool
is_good k = all plain_letter k && is_forbidden (map (λ c. c - 32) k)

small-token : (k : ℕ) → plain_letter k ≡ true → is_token_char (k - 32) ≡ true
small-token k h = ground (arith, h)

all_good : all is_good keywords ≡ true
unfolding codes
all_good = refl

any-elem_text : (y : List ℕ) (ks : List (List ℕ)) → any (text_eq y) ks ≡ elem_text y ks
any-elem_text y [] = refl
any-elem_text y (k ∷ ks) = rw (any-elem_text y ks)

all-fold : (w : List ℕ) → all is_plain w ≡ all plain_letter (map fold w)
all-fold [] = refl
all-fold (c ∷ w) = rw (all-fold w)

map-capital : (w : List ℕ) → map capital w ≡ map (λ c. c - 32) (map fold w)
map-capital [] = refl
map-capital (c ∷ w) = rw (map-capital w)

any-nonempty : (ts : List (List ℕ)) → any is_forbidden (nonempty ts) ≡ any is_forbidden ts
unfolding codes
any-nonempty [] = refl
any-nonempty ([] ∷ ts) = any-nonempty ts
any-nonempty ((c ∷ t) ∷ ts) = ap (λ b. is_forbidden (c ∷ t) || b) (any-nonempty ts)

or_true : (a b : Bool) → b ≡ true → (a || b) ≡ true
or_true a b h = ground (arith, h)

module _ (is_alnum : ℕ → Bool) (upper_other : ℕ → List ℕ) where
  keyword-good : (w : List ℕ) → is_keyword is_alnum keywords w ≡ true → is_good (map fold w) ≡ true
  keyword-good w h =
      all-elem_text is_good (map fold w) keywords (sym (any-elem_text (map fold w) keywords) ∙ h)
        all_good

  keyword-plain : (w : List ℕ) → is_keyword is_alnum keywords w ≡ true → all is_plain w ≡ true
  keyword-plain w h = all-fold w ∙ ground (arith, keyword-good w h)

  keyword-forbidden :
      (w : List ℕ) → is_keyword is_alnum keywords w ≡ true → is_forbidden (map capital w) ≡ true
  keyword-forbidden w h = ap is_forbidden (map-capital w) ∙ ground (arith, keyword-good w h)

  upper-plain : (c : ℕ) → is_plain c ≡ true → upper upper_other c ≡ capital c ∷ []
  upper-plain c h = ground (arith, h)

  capital-token : (c : ℕ) → is_plain c ≡ true → is_token_char (capital c) ≡ true
  capital-token c h = small-token (fold c) h

  plain-word : (c : ℕ) → is_plain c ≡ true → is_word is_alnum c ≡ true
  plain-word c h = ground (arith, h)

  -- The runs behind the first stay, whatever stands in front of the text.
  behind-stays :
      (l r : List ℕ)
      → any is_forbidden (runs r).1 ≡ true
      → any is_forbidden (runs (l ++ r)).1 ≡ true
  behind-stays [] r h = h
  behind-stays (c ∷ l) r h = by_char (is_token_char c) (runs (l ++ r)) (behind-stays l r h)
    where
      by_char :
          (b : Bool) (y : List ℕ × List (List ℕ))
          → any is_forbidden y.1 ≡ true
          → any is_forbidden (add_token_char b c y).1 ≡ true
      by_char true y e = e
      by_char false y e = or_true (is_forbidden y.0) (any is_forbidden y.1) e

  -- Every run is one behind the first, once a character of no token stands in front.
  all-stay :
      (n : ℕ) (l r : List ℕ)
      → All (λ c. is_token_char c ≡ false) (n ∷ l)
      → (is_forbidden (runs r).0 || any is_forbidden (runs r).1) ≡ true
      → ((runs (n ∷ l ++ r)).0 ≡ []) × (any is_forbidden (runs (n ∷ l ++ r)).1 ≡ true)
  all-stay n [] r (other, h) e = rw other (refl, e)
  all-stay n (m ∷ l) r (other, h) e =
      let (first, rest) = all-stay m l r h e in
      rw other (
        refl,
        or_true (is_forbidden (runs (m ∷ l ++ r)).0) (any is_forbidden (runs (m ∷ l ++ r)).1) rest,
      )

  starts-nothing : (n : ℕ) (l r : List ℕ) → is_token_char n ≡ false → (runs (n ∷ l ++ r)).0 ≡ []
  starts-nothing n l r other = rw other

  -- What a character of no word becomes in capitals belongs to no token.
  module _
      (apart : (c : ℕ)
        → is_word is_alnum c ≡ false
        → (n : ℕ) × (l : List ℕ) × (upper upper_other c ≡ n ∷ l)
          × All (λ d. is_token_char d ≡ false) (n ∷ l)) where
    -- The first word, if it is plain, is the first run in capitals, and where one of the other words
    -- is a keyword, one of the other runs is forbidden.
    abbrev Follows : List ℕ × List (List ℕ) → List ℕ × List (List ℕ) → Type 0
    Follows (w, ws) (t, ts) =
        (all is_plain w ≡ true → t ≡ map capital w)
        × (any (is_keyword is_alnum keywords) ws ≡ true → any is_forbidden ts ≡ true)

    Follows-any :
        (x y : List ℕ × List (List ℕ))
        → Follows x y
        → (is_keyword is_alnum keywords x.0 || any (is_keyword is_alnum keywords) x.1) ≡ true
        → (is_forbidden y.0 || any is_forbidden y.1) ≡ true
    Follows-any (w, ws) (t, ts) (first, others) h = by_first (is_keyword is_alnum keywords w) refl h
      where
        by_first :
            (b : Bool)
            → is_keyword is_alnum keywords w ≡ b
            → (b || any (is_keyword is_alnum keywords) ws) ≡ true
            → (is_forbidden t || any is_forbidden ts) ≡ true
        by_first true is_word e =
            ap (λ b. b || any is_forbidden ts)
              (ap is_forbidden (first (keyword-plain w is_word)) ∙ keyword-forbidden w is_word)
        by_first false is_word e = or_true (is_forbidden t) (any is_forbidden ts) (others e)

    word-Follows :
        (c : ℕ) (x : List ℕ × List (List ℕ)) (r : List ℕ)
        → Follows x (runs r)
        → Follows (add_char is_alnum true c x) (runs (upper upper_other c ++ r))
    word-Follows c (w, ws) r (first, others) = (
      λ h.
          let plain : is_plain c ≡ true = ground (arith, h) in
          let rest : all is_plain w ≡ true = ground (arith, h) in
          ap (λ l. (runs (l ++ r)).0) (upper-plain c plain)
          ∙ (ap (λ b. (add_token_char b (capital c) (runs r)).0) (capital-token c plain)
              ∙ ap (λ t. capital c ∷ t) (first rest)),
      λ h. behind-stays (upper upper_other c) r (others h),
    )

    other-Follows :
        (c : ℕ) (x : List ℕ × List (List ℕ)) (r : List ℕ)
        → is_word is_alnum c ≡ false
        → Follows x (runs r)
        → Follows (add_char is_alnum false c x) (runs (upper upper_other c ++ r))
    other-Follows c x r other follows =
        let (n, l, same, none_token) = apart c other in
        (
          λ h. ap (λ u. (runs (u ++ r)).0) same ∙ starts-nothing n l r none_token.0,
          λ h.
              ap (λ u. any is_forbidden (runs (u ++ r)).1) same
              ∙ (all-stay n l r none_token (Follows-any x (runs r) follows h)).1,
        )

    upper_text-Follows : (s : List ℕ) → Follows (split is_alnum s) (runs (upper_text upper_other s))
    upper_text-Follows [] = (λ h. refl, λ h. cc)
    upper_text-Follows (c ∷ s) = by_char (is_word is_alnum c) refl (upper_text-Follows s)
      where
        by_char :
            (b : Bool)
            → is_word is_alnum c ≡ b
            → Follows (split is_alnum s) (runs (upper_text upper_other s))
            → Follows
                (add_char is_alnum b c (split is_alnum s))
                (runs (upper upper_other c ++ upper_text upper_other s))
        by_char true is_char follows =
            word-Follows c (split is_alnum s) (upper_text upper_other s) follows
        by_char false is_char follows =
            other-Follows c (split is_alnum s) (upper_text upper_other s) is_char follows

    module _ (blank : (c : ℕ) → is_space c ≡ true → is_word is_alnum c ≡ false) where
      -- The search of the guard finds nothing where no token is forbidden.
      tokens-has_write_keyword :
          (masked : List ℕ)
          → has_write_keyword is_alnum masked ≡ true
          → has_forbidden upper_write_keywords (tokens (upper_text upper_other (cleaned masked)))
            ≡ true
      unfolding codes
      tokens-has_write_keyword masked h =
          any-nonempty ((runs u).0 ∷ (runs u).1)
          ∙ Follows-any (split is_alnum (cleaned masked)) (runs u)
              (upper_text-Follows (cleaned masked))
              (any-cleaned is_alnum (is_keyword is_alnum keywords) refl blank masked
                ∙ (sym (has_write_keyword-words is_alnum masked) ∙ h))
        where
          u : List ℕ
          u = upper_text upper_other (cleaned masked)

      refuse-ok : (b : Bool) (e : QuerySafetyError) → refuse b e ≡ ok tt → b ≡ false
      refuse-ok true e h = cc
      refuse-ok false e h = refl

      single_statement-tokens :
          (query : List ℕ) (found : List (List ℕ))
          → validate_single_statement upper_other query ≡ ok found
          → tokens (upper_text upper_other (cleaned (mask_query_text query))) ≡ found
      unfolding validate_single_statement
      single_statement-tokens query found h =
          let (_, _, h1) = >>=-eq-ok (refuse (is_empty (lstrip query)) empty_query) _ h in
          let (_, _, h2) = >>=-eq-ok (refuse (any (λ c. eqb c 0) query) nul_character) _ h1 in
          let (_, _, h3) =
            >>=-eq-ok
              (refuse (any (λ c. eqb c b';') (cleaned (mask_query_text query))) many_statements) _
              h2 in
          let (_, _, h4) =
            >>=-eq-ok
              (refuse (is_empty (tokens (upper_text upper_other (cleaned (mask_query_text query)))))
                no_statement)
              _ h3 in
          ok-injective h4

      -- A query that the evaluation lets through has no write keyword for the Cypher guard either,
      -- if no white space is a word character and the capitals of a character that is none are no
      -- letters of a token.
      pub validate_read_only_cypher-has_write_keyword :
          (query : List ℕ)
          → validate_read_only_cypher upper_other query ≡ ok tt
          → has_write_keyword is_alnum (mask_query_text query) ≡ false
      unfolding validate_read_only_cypher validate_single_statement
      validate_read_only_cypher-has_write_keyword query h =
          let masked = mask_query_text query in
          let (found, single, h1) = >>=-eq-ok (validate_single_statement upper_other query) _ h in
          let (_, _, h2) =
            >>=-eq-ok (refuse (not (starts_with cypher_start found)) wrong_start) _ h1 in
          let clean = refuse-ok (has_forbidden upper_write_keywords found) forbidden_keyword h2 in
          by_search (has_write_keyword is_alnum masked) refl (
            ap (has_forbidden upper_write_keywords) (single_statement-tokens query found single)
            ∙ clean)
        where
          by_search :
              (b : Bool)
              → has_write_keyword is_alnum (mask_query_text query) ≡ b
              → has_forbidden upper_write_keywords
                  (tokens (upper_text upper_other (cleaned (mask_query_text query))))
                ≡ false
              → b ≡ false
          by_search false e none_found = refl
          by_search true e none_found =
              sym (tokens-has_write_keyword (mask_query_text query) e) ∙ none_found
