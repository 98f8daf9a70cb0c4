-- ===== src/Planning/Counting.antt =====
-- The native Korean numbers, written and read.
use text2cypher_manufacturin.Common.{
  ℕ, zero, suc, ◌+◌, ◌*◌, ◌<◌, ◌≡◌, refl, ap, ◌∙◌, String, Bool, true, false, ◌&&◌, ◌||◌, Option,
  none, some, List, [], ◌∷◌, ◌++◌, eqb, if◌then◌else◌, arith, eqb_iff,
}
use text2cypher_manufacturin.Python.Exceptions.{codes}
use text2cypher_manufacturin.Planning.Counters.{korean_counter_quantity}

-- The words for the tens and for the ones. Some numbers have two forms.
abbrev pub tens_words : (short : Bool) → List String
tens_words short =
    "" ∷ "열" ∷ (if short then "스무" else "스물") ∷ "서른" ∷ "마흔" ∷ "쉰" ∷ "예순" ∷ "일흔" ∷ "여든" ∷ "아흔" ∷ []

abbrev pub ones_words : (short : Bool) → List String
ones_words short =
    ""
    ∷ (if short then "한" else "하나")
    ∷ (if short then "두" else "둘")
    ∷ (if short then "세" else "셋")
    ∷ (if short then "네" else "넷")
    ∷ "다섯"
    ∷ "여섯"
    ∷ "일곱"
    ∷ "여덟"
    ∷ "아홉"
    ∷ []

abbrev pub word_at : ℕ → List String → List ℕ
word_at n [] = []
word_at zero (w ∷ ws) = codes w
word_at (suc n) (w ∷ ws) = word_at n ws

-- The number with these digits, in words.
abbrev pub written : (short_tens short_ones : Bool) → (tens ones : ℕ) → List ℕ
written short_tens short_ones tens ones =
    word_at tens (tens_words short_tens) ++ word_at ones (ones_words short_ones)

reads_as : Option ℕ → ℕ → Bool
reads_as none n = false
reads_as (some m) n = eqb m n

all_below : ℕ → (ℕ → Bool) → Bool
all_below zero p = true
all_below (suc n) p = p n && all_below n p

all_below-lt : (n : ℕ) (p : ℕ → Bool) (k : ℕ) → all_below n p ≡ true → k < n → p k ≡ true
unfolding all_below
all_below-lt zero p k h less = absurd (omega arith)
all_below-lt (suc n) p k h less =
    by_eq (eqb k n) refl (λ less. all_below-lt n p k (ground (arith, h)) less)
  where
    by_eq : (b : Bool) → eqb k n ≡ b → (k < n → p k ≡ true) → p k ≡ true
    by_eq true same ih = ap p ((eqb_iff k n).0 same) ∙ ground (arith, h)
    by_eq false other ih = ih (ground (arith, other, less))

reads_as-eq : (o : Option ℕ) (n : ℕ) → reads_as o n ≡ true → o ≡ some n
unfolding reads_as
reads_as-eq none n h = cc
reads_as-eq (some m) n h = ap some ((eqb_iff m n).0 h)

-- The four forms of the number with these digits are read back.
forms : (tens ones : ℕ) → Bool
forms tens ones =
    eqb (tens + ones) 0
    || (form true true && (form true false && (form false true && form false false)))
  where
    form : Bool → Bool → Bool
    form a b = reads_as (korean_counter_quantity (written a b tens ones)) (tens * 10 + ones)

all_forms : all_below 10 (λ tens. all_below 10 (forms tens)) ≡ true
unfolding all_below forms reads_as korean_counter_quantity codes
all_forms = refl

form_of :
    (a b : Bool) (tens ones : ℕ)
    → forms tens ones ≡ true
    → 0 < tens + ones
    → reads_as (korean_counter_quantity (written a b tens ones)) (tens * 10 + ones) ≡ true
unfolding forms
form_of true true tens ones h positive = ground (arith, h, positive)
form_of true false tens ones h positive = ground (arith, h, positive)
form_of false true tens ones h positive = ground (arith, h, positive)
form_of false false tens ones h positive = ground (arith, h, positive)

-- A number from 1 to 99 that is written in native Korean words, in any of their forms, is read back.
pub korean_counter_quantity-written :
    (short_tens short_ones : Bool) (tens ones : ℕ)
    → tens < 10
    → ones < 10
    → 0 < tens + ones
    → korean_counter_quantity (written short_tens short_ones tens ones) ≡ some (tens * 10 + ones)
korean_counter_quantity-written a b tens ones t o positive = reads_as-eq _ _ (
    form_of a b tens ones
      (all_below-lt 10 (forms tens) ones
        (all_below-lt 10 (λ tens. all_below 10 (forms tens)) tens all_forms t) o)
      positive)
