-- ===== src/Evaluation/Cleaning.antt =====
-- The words of a text, without what is stripped of it.
use text2cypher_manufacturin.Common.{
  ℕ, ◌≡◌, refl, sym, ◌∙◌, ap, Bool, true, false, ◌&&◌, ◌||◌, List, [], ◌∷◌, any, eqb, is_empty,
  arith, if◌then◌else◌, if_ind,
}
use text2cypher_manufacturin.Python.Text.{is_space, is_word}
use text2cypher_manufacturin.Guards.Words.{add_char, split, words}
use text2cypher_manufacturin.Evaluation.Safety.{
  lstrip, rstrip, without_semicolon, ends_with_semicolon, cleaned,
}

module _ (is_alnum : ℕ → Bool) (p : List ℕ → Bool) (none_empty : p [] ≡ false)
    (blank : (c : ℕ) → is_space c ≡ true → is_word is_alnum c ≡ false) where
  -- The same first word, and among the others a word of the kind or none.
  abbrev Alike : List ℕ × List (List ℕ) → List ℕ × List (List ℕ) → Type 0
  Alike (w, ws) (v, vs) = (w ≡ v) × (any p ws ≡ any p vs)

  both : {a b : Bool} (x y : List ℕ) → x ≡ y → a ≡ b → (p x || a) ≡ (p y || b)
  both x y same others = rw (same, others)

  add_char-Alike :
      (b : Bool) (c : ℕ) (x y : List ℕ × List (List ℕ))
      → Alike x y
      → Alike (add_char is_alnum b c x) (add_char is_alnum b c y)
  add_char-Alike true c x y (same, others) = (ap (λ w. c ∷ w) same, others)
  add_char-Alike false c x y (same, others) = (refl, both x.0 y.0 same others)

  Alike-words :
      (s t : List ℕ)
      → Alike (split is_alnum s) (split is_alnum t)
      → any p (words is_alnum s) ≡ any p (words is_alnum t)
  Alike-words s t (same, others) = both (split is_alnum s).0 (split is_alnum t).0 same others

  -- A text that is alike to nothing stays so behind a character of no word.
  dropped-Alike :
      (c : ℕ) (x : List ℕ × List (List ℕ))
      → is_word is_alnum c ≡ false
      → Alike ([], []) x
      → Alike ([], []) (add_char is_alnum (is_word is_alnum c) c x)
  dropped-Alike c x other (same, others) =
      rw other (refl, sym (both x.0 [] (sym same) (sym others) ∙ rw none_empty))

  rstrip-Alike : (s : List ℕ) → Alike (split is_alnum (rstrip s)) (split is_alnum s)
  rstrip-Alike [] = (refl, refl)
  rstrip-Alike (c ∷ s) = by_rest (rstrip s) (rstrip-Alike s)
    where
      by_rest :
          (t : List ℕ)
          → Alike (split is_alnum t) (split is_alnum s)
          → Alike
              (split is_alnum (if is_empty t && is_space c then [] else c ∷ t))
              (split is_alnum (c ∷ s))
      by_rest [] h =
          if_ind (λ t. Alike (split is_alnum t) (split is_alnum (c ∷ s))) (is_space c)
            (λ space. dropped-Alike c (split is_alnum s) (blank c space) h)
            (λ _. add_char-Alike (is_word is_alnum c) c ([], []) (split is_alnum s) h)
      by_rest (d ∷ t) h =
          add_char-Alike (is_word is_alnum c) c (split is_alnum (d ∷ t)) (split is_alnum s) h

  without_semicolon-Alike :
      (s : List ℕ) → Alike (split is_alnum (without_semicolon s)) (split is_alnum s)
  without_semicolon-Alike [] = (refl, refl)
  without_semicolon-Alike (c ∷ []) =
      if_ind (λ t. Alike (split is_alnum t) (split is_alnum (c ∷ []))) (eqb c b';')
        (λ semicolon. dropped-Alike c ([], []) (ground (arith, semicolon)) (refl, refl))
        (λ _. (refl, refl))
  without_semicolon-Alike (c ∷ d ∷ s) =
      add_char-Alike (is_word is_alnum c) c (split is_alnum (without_semicolon (d ∷ s)))
        (split is_alnum (d ∷ s)) (without_semicolon-Alike (d ∷ s))

  any-lstrip : (s : List ℕ) → any p (words is_alnum (lstrip s)) ≡ any p (words is_alnum s)
  any-lstrip [] = refl
  any-lstrip (c ∷ s) =
      if_ind (λ t. any p (words is_alnum t) ≡ any p (words is_alnum (c ∷ s))) (is_space c)
        (λ space. any-lstrip s ∙ rw (blank c space, none_empty)) (λ _. refl)

  pub any-cleaned : (s : List ℕ) → any p (words is_alnum (cleaned s)) ≡ any p (words is_alnum s)
  any-cleaned s =
      if_ind (λ t. any p (words is_alnum t) ≡ any p (words is_alnum s))
        (ends_with_semicolon (rstrip (lstrip s)))
        (λ _.
          Alike-words (rstrip (without_semicolon (rstrip (lstrip s))))
            (without_semicolon (rstrip (lstrip s)))
            (rstrip-Alike (without_semicolon (rstrip (lstrip s))))
          ∙ (Alike-words (without_semicolon (rstrip (lstrip s))) (rstrip (lstrip s))
                (without_semicolon-Alike (rstrip (lstrip s)))
              ∙ stripped))
        (λ _. stripped)
    where
      stripped : any p (words is_alnum (rstrip (lstrip s))) ≡ any p (words is_alnum s)
      stripped = Alike-words (rstrip (lstrip s)) (lstrip s) (rstrip-Alike (lstrip s)) ∙ any-lstrip s
