-- ===== src/Guards/Masking.antt =====
-- `mask_query_text` on code and on what it takes for a comment, and the guard behind it.
use text2cypher_manufacturin.Common.{
  ℕ, ◌≡◌, refl, ap, ◌∙◌, Bool, true, false, ◌||◌, Option, some, List, [], ◌∷◌, ◌++◌, map, any,
  arith, eqb, All, sym, ◌&&◌,
}
use text2cypher_manufacturin.Python.Exceptions.{codes}
use text2cypher_manufacturin.Python.Text.{is_word}
use text2cypher_manufacturin.Guards.Mask.{
  plain, line, head, is_next, is_newline, is_quote, plain_step, mask_from, mask_query_text,
}
use text2cypher_manufacturin.Guards.Keywords.{cypher_write_keywords, has_write_keyword}
use text2cypher_manufacturin.Guards.Cypher.{cypher_guard, blocked_by}
use text2cypher_manufacturin.Guards.Words.{
  add_char, split, words, is_keyword, has_write_keyword-words,
}

-- The character opens a literal or, with the next one, a comment.
abbrev pub opens_part : ℕ → Option ℕ → Bool
opens_part c next =
    is_quote c
    || ((eqb c b'-' && is_next b'-' next)
        || (eqb c b'/' && (is_next b'/' next || is_next b'*' next)))

-- No character opens a literal or a comment, with the character `next` behind the last one.
abbrev pub IsCode : (next : ℕ) → List ℕ → Type 0
IsCode next [] = Unit
IsCode next (c ∷ s) = (opens_part c (head (s ++ next ∷ [])) ≡ false) × IsCode next s

-- The character does not end a line comment.
abbrev pub InLine : ℕ → Type 0
InLine c = is_newline c ≡ false

code-plain_step :
    (c : ℕ) (next : Option ℕ) → opens_part c next ≡ false → plain_step c next ≡ (c ∷ [], plain)
code-plain_step c next h = ground arith

head-append : (s : List ℕ) (next : ℕ) (t : List ℕ) → head (s ++ next ∷ []) ≡ head (s ++ next ∷ t)
head-append [] next t = refl
head-append (c ∷ s) next t = refl

mask_from-append :
    (s : List ℕ) (next : ℕ) (t : List ℕ)
    → IsCode next s
    → mask_from plain (s ++ next ∷ t) ≡ s ++ mask_from plain (next ∷ t)
unfolding mask_from
mask_from-append [] next t h = refl
mask_from-append (c ∷ s) next t (code, h) = rw (
  code-plain_step c (head (s ++ next ∷ t)) (ap (opens_part c) (sym (head-append s next t)) ∙ code),
  mask_from-append s next t h,
)

mask_from-line :
    (t : List ℕ) (n : ℕ) (u : List ℕ)
    → All InLine t
    → is_newline n ≡ true
    → mask_from line (t ++ n ∷ u) ≡ map (λ _. b' ') t ++ n ∷ mask_from plain u
unfolding mask_from
mask_from-line [] n u h ends = rw ends
mask_from-line (c ∷ t) n u (same, h) ends = rw (same, mask_from-line t n u h ends)

-- Two dashes behind code hide the rest of their line and no more: the mask keeps the code, drops
-- the dashes, makes a blank of each character behind them up to the line break, and goes on behind
-- the line break, which it keeps, as at the start of a query.
pub mask_query_text-dashes :
    (s t : List ℕ) (n : ℕ) (u : List ℕ)
    → IsCode b'-' s
    → All InLine t
    → is_newline n ≡ true
    → mask_query_text (s ++ b'-' ∷ b'-' ∷ (t ++ n ∷ u))
      ≡ s ++ (map (λ _. b' ') t ++ n ∷ mask_query_text u)
unfolding mask_query_text mask_from
mask_query_text-dashes s t n u code in_line ends =
    mask_from-append s b'-' (b'-' ∷ (t ++ n ∷ u)) code
    ∙ ap (λ l. s ++ l) (mask_from-line t n u in_line ends)

any-append {ℓ} :
    {A : Type ℓ} (p : A → Bool) (xs ys : List A) → any p (xs ++ ys) ≡ (any p xs || any p ys)
any-append p [] ys = refl
any-append p (x ∷ xs) ys = ground (arith, any-append p xs ys)

module _ (is_alnum : ℕ → Bool) where
  split-append :
      (s t : List ℕ)
      → split is_alnum (s ++ b' ' ∷ t)
        ≡ ((split is_alnum s).0, (split is_alnum s).1 ++ words is_alnum t)
  split-append [] t = refl
  split-append (c ∷ s) t =
      ap (add_char is_alnum (is_word is_alnum c) c) (split-append s t)
      ∙ by_char (is_word is_alnum c)
    where
      by_char :
          (b : Bool)
          → add_char is_alnum b c ((split is_alnum s).0, (split is_alnum s).1 ++ words is_alnum t)
            ≡ (
              (add_char is_alnum b c (split is_alnum s)).0,
              (add_char is_alnum b c (split is_alnum s)).1 ++ words is_alnum t,
            )
      by_char true = refl
      by_char false = refl

  words-append :
      (s t : List ℕ) → words is_alnum (s ++ b' ' ∷ t) ≡ words is_alnum s ++ words is_alnum t
  words-append s t = ap (λ (w, ws). w ∷ ws) (split-append s t)

  -- A query that has a write keyword as a word is refused for it, if a space stands somewhere behind
  -- that word and no literal and no comment opens before that space, whatever follows.
  pub cypher_guard-blocks_writes :
      (allowed_names : List (List ℕ)) (s t : List ℕ)
      → IsCode b' ' s
      → any (is_keyword is_alnum (map codes cypher_write_keywords)) (words is_alnum s) ≡ true
      → cypher_guard is_alnum allowed_names (s ++ b' ' ∷ t)
        ≡ some (blocked_by "WRITE_KEYWORD_DETECTED")
  unfolding cypher_guard mask_query_text mask_from
  cypher_guard-blocks_writes allowed_names s t code writes =
      let m = mask_from plain t in
      let found : has_write_keyword is_alnum (mask_from plain (s ++ b' ' ∷ t)) ≡ true =
        ap (has_write_keyword is_alnum) (mask_from-append s b' ' t code)
        ∙ (has_write_keyword-words is_alnum (s ++ b' ' ∷ m)
            ∙ (ap (any (is_keyword is_alnum keywords)) (words-append s m)
                ∙ (any-append (is_keyword is_alnum keywords) (words is_alnum s) (words is_alnum m)
                    ∙ ap (λ b. b || any (is_keyword is_alnum keywords) (words is_alnum m))
                        writes))) in
      rw found
    where
      keywords : List (List ℕ)
      keywords = map codes cypher_write_keywords
