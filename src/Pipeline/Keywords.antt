-- ===== src/Pipeline/Keywords.antt =====
-- `has_write_intent` on a request whose first word is a keyword.
use text2cypher_manufacturin.Common.{
  ℕ, ◌≡◌, refl, ap, subst, Bool, true, false, not, ◌&&◌, ◌||◌, Option, none, some, String, List, [],
  ◌∷◌, ◌++◌, ◌⊎◌, inl, inr, arith, All, is_empty, eqb, map, if_ind, leb, all,
}
use text2cypher_manufacturin.Python.Exceptions.{codes}
use text2cypher_manufacturin.Python.Text.{is_space, fold, text_eq, elem_text}
use text2cypher_manufacturin.Python.Regex.{
  Regex, boundary, seq, At, stepped, run_of, from_each, word_after, word_before, match_at,
  search_at, search_text, any_case, one_of,
}
use text2cypher_manufacturin.Guards.Unknown.{all-elem_text}
use text2cypher_manufacturin.Pipeline.Request.{
  shared_write_keywords, shared_write_keyword, has_write_intent,
}

-- The place is one of the places.
abbrev Among : At → List At → Type 0
Among a [] = ⊥
Among a (b ∷ places) = (a ≡ b) ⊎ Among a places

Among-left : (a : At) (xs ys : List At) → Among a xs → Among a (xs ++ ys)
Among-left a [] ys h = absurd h
Among-left a (x ∷ xs) ys (inl h) = inl h
Among-left a (x ∷ xs) ys (inr h) = inr (Among-left a xs ys h)

Among-right : (a : At) (xs ys : List At) → Among a ys → Among a (xs ++ ys)
Among-right a [] ys h = h
Among-right a (x ∷ xs) ys h = inr (Among-right a xs ys h)

Among-from_each :
    (f : At → List At) (a b : At) (places : List At)
    → Among a places
    → Among b (f a)
    → Among b (from_each f places)
Among-from_each f a b [] h k = absurd h
Among-from_each f a b (x ∷ places) (inl h) k = Among-left b (f x) _ (subst (λ y. Among b (f y)) h k)
Among-from_each f a b (x ∷ places) (inr h) k =
    Among-right b (f x) _ (Among-from_each f a b places h k)

Among-is_empty : (a : At) (places : List At) → Among a places → is_empty places ≡ false
Among-is_empty a [] h = absurd h
Among-is_empty a (x ∷ places) h = refl

abbrev at : Option ℕ → List ℕ → At
at before rest = record { before = before; rest = rest }

-- The last character of a text, or the one before it.
abbrev last_of : Option ℕ → List ℕ → Option ℕ
last_of before [] = before
last_of before (c ∷ s) = last_of (some c) s

run_of-start :
    (p : ℕ → Bool) (before : Option ℕ) (t : List ℕ) → Among (at before t) (run_of p before t)
run_of-start p before [] = inl refl
run_of-start p before (c ∷ t) =
    if_ind (Among (at before (c ∷ t))) (p c) (λ _. Among-right _ (run_of p (some c) t) _ (inl refl))
      (λ _. inl refl)

run_of-All :
    (p : ℕ → Bool) (before : Option ℕ) (s t : List ℕ)
    → All (λ c. p c ≡ true) s
    → Among (at (last_of before s) t) (run_of p before (s ++ t))
run_of-All p before [] t h = run_of-start p before t
run_of-All p before (c ∷ s) t (first, h) =
    rw first (Among-left _ (run_of p (some c) (s ++ t)) _ (run_of-All p (some c) s t h))

-- What the letters of a keyword are.
abbrev is_letters : List ℕ → Bool
is_letters [] = false
is_letters (k ∷ []) = leb b'a' k && leb k b'z'
is_letters (k ∷ l ∷ ks) = is_letters (l ∷ ks)

letters : all is_letters (map codes shared_write_keywords) ≡ true
unfolding codes
letters = refl

module _ (is_alnum : ℕ → Bool) where
  -- A way to match.
  abbrev Reaches : Regex → At → At → Type 0
  Reaches r a b = Among b (match_at is_alnum r a)

  any_case-Reaches :
      (k w t : List ℕ) (before : Option ℕ)
      → text_eq (map fold w) k ≡ true
      → Reaches (any_case k) (at before (w ++ t)) (at (last_of before w) t)
  unfolding match_at
  any_case-Reaches [] [] t before h = inl refl
  any_case-Reaches [] (d ∷ w) t before h = cc
  any_case-Reaches (c ∷ k) [] t before h = cc
  any_case-Reaches (c ∷ k) (d ∷ w) t before h =
      let same : eqb c (fold d) ≡ true = ground (arith, h) in
      let rest = any_case-Reaches k w t (some d) (ground (arith, h)) in
      rw same (Among-left _ (match_at is_alnum (any_case k) (stepped d (w ++ t))) [] rest)

  one_of-Reaches :
      (keywords : List String) (w t : List ℕ) (before : Option ℕ)
      → elem_text (map fold w) (map codes keywords) ≡ true
      → Reaches (one_of any_case keywords) (at before (w ++ t)) (at (last_of before w) t)
  unfolding match_at
  one_of-Reaches [] w t before h = cc
  one_of-Reaches (k ∷ keywords) w t before h =
      by_first (text_eq (map fold w) (codes k)) refl h (one_of-Reaches keywords w t before)
    where
      by_first :
          (b : Bool)
          → text_eq (map fold w) (codes k) ≡ b
          → (b || elem_text (map fold w) (map codes keywords)) ≡ true
          → (elem_text (map fold w) (map codes keywords) ≡ true
              → Reaches (one_of any_case keywords) (at before (w ++ t)) (at (last_of before w) t))
          → Reaches (one_of any_case (k ∷ keywords)) (at before (w ++ t)) (at (last_of before w) t)
      by_first true same e ih = Among-left _ _ _ (any_case-Reaches (codes k) w t before same)
      by_first false same e ih =
          Among-right _ (match_at is_alnum (any_case (codes k)) (at before (w ++ t))) _ (ih e)

  word_before-letters :
      (w : List ℕ) (before : Option ℕ)
      → is_letters (map fold w) ≡ true
      → word_before is_alnum (last_of before w) ≡ true
  word_before-letters [] before h = cc
  word_before-letters (c ∷ []) before h = ground (arith, h)
  word_before-letters (c ∷ d ∷ w) before h = word_before-letters (d ∷ w) (some c) h

  search_text-Reaches :
      (r : Regex) (s : List ℕ) (b : At) → Reaches r (at none s) b → search_text is_alnum r s ≡ true
  unfolding search_text search_at
  search_text-Reaches r [] b h = ap not (Among-is_empty b _ h)
  search_text-Reaches r (c ∷ s) b h = rw (Among-is_empty b _ h)

  seq-Reaches : (r q : Regex) (a b c : At) → Reaches r a b → Reaches q b c → Reaches (seq r q) a c
  unfolding match_at
  seq-Reaches r q a b c h k = Among-from_each (match_at is_alnum q) b c (match_at is_alnum r a) h k

  boundary-Reaches :
      (before : Option ℕ) (t : List ℕ)
      → word_before is_alnum before ≡ true
      → word_after is_alnum t ≡ false
      → Reaches boundary (at before t) (at before t)
  unfolding match_at
  boundary-Reaches before t b a = rw (b, a) (inl refl)

  shared_write_keyword-Reaches :
      (gap w t : List ℕ)
      → All (λ c. is_space c ≡ true) gap
      → elem_text (map fold w) (map codes shared_write_keywords) ≡ true
      → word_after is_alnum t ≡ false
      → Reaches shared_write_keyword
          (at none (gap ++ (w ++ t)))
          (at (last_of (last_of none gap) w) t)
  unfolding match_at
  shared_write_keyword-Reaches gap w t blank keyword end =
      let before = last_of none gap in
      let behind = last_of before w in
      Among-left _ _ [] (
        Among-from_each (match_at is_alnum (seq (one_of any_case shared_write_keywords) boundary))
          (at before (w ++ t)) (at behind t) _ (run_of-All is_space none gap (w ++ t) blank)
          (seq-Reaches (one_of any_case shared_write_keywords) boundary (at before (w ++ t))
            (at behind t) (at behind t) (one_of-Reaches shared_write_keywords w t before keyword)
            (boundary-Reaches behind t
              (word_before-letters w before (
                all-elem_text is_letters (map fold w) (map codes shared_write_keywords) keyword
                  letters))
              end)))

  -- A request whose first word is a write keyword of SQL or Cypher counts as a request to write,
  -- whatever follows and whatever the case of the keyword.
  pub has_write_intent-keyword :
      (gap w t : List ℕ)
      → All (λ c. is_space c ≡ true) gap
      → elem_text (map fold w) (map codes shared_write_keywords) ≡ true
      → word_after is_alnum t ≡ false
      → has_write_intent is_alnum (gap ++ (w ++ t)) ≡ true
  unfolding has_write_intent
  has_write_intent-keyword gap w t blank keyword end =
      let found : search_text is_alnum shared_write_keyword (gap ++ (w ++ t)) ≡ true =
        search_text-Reaches shared_write_keyword (gap ++ (w ++ t)) _
          (shared_write_keyword-Reaches gap w t blank keyword end) in
      ground (arith, found)
