-- ===== src/Planning/Counters.antt =====
-- `_korean_counter_quantity`: the native Korean numbers.
use text2cypher_manufacturin.Common.{
  ℕ, ◌+◌, Option, none, some, List, [], ◌∷◌, eqb, Dict, if◌then◌else◌,
}
use text2cypher_manufacturin.Python.Exceptions.{codes}
use text2cypher_manufacturin.Python.Text.{text_eq}

abbrev pub korean_counter_ones : Dict ℕ
korean_counter_ones =
    ("한", 1)
    ∷ ("하나", 1)
    ∷ ("두", 2)
    ∷ ("둘", 2)
    ∷ ("세", 3)
    ∷ ("셋", 3)
    ∷ ("네", 4)
    ∷ ("넷", 4)
    ∷ ("다섯", 5)
    ∷ ("여섯", 6)
    ∷ ("일곱", 7)
    ∷ ("여덟", 8)
    ∷ ("아홉", 9)
    ∷ []

abbrev pub korean_counter_tens : Dict ℕ
korean_counter_tens =
    ("열", 10)
    ∷ ("스물", 20)
    ∷ ("스무", 20)
    ∷ ("서른", 30)
    ∷ ("마흔", 40)
    ∷ ("쉰", 50)
    ∷ ("예순", 60)
    ∷ ("일흔", 70)
    ∷ ("여든", 80)
    ∷ ("아흔", 90)
    ∷ []

-- _KOREAN_COUNTER_ONES.get(value)
abbrev pub lookup_text : List ℕ → Dict ℕ → Option ℕ
lookup_text s [] = none
lookup_text s ((k, n) ∷ d) =
    let rest = lookup_text s d in if text_eq s (codes k) then some n else rest

-- value[len(prefix):], where value.startswith(prefix)
abbrev pub without_prefix : List ℕ → List ℕ → Option (List ℕ)
without_prefix [] s = some s
without_prefix (c ∷ p) [] = none
without_prefix (c ∷ p) (d ∷ s) = let rest = without_prefix p s in if eqb c d then rest else none

-- What a prefix and its remainder stand for; `next` is the search of the other prefixes.
abbrev pub add_ones : ℕ → Option ℕ → Option ℕ → Option ℕ
add_ones tens none next = next
add_ones tens (some ones) next = some (tens + ones)

abbrev pub with_remainder : ℕ → Option (List ℕ) → Option ℕ → Option ℕ
with_remainder tens none next = next
with_remainder tens (some []) next = some tens
with_remainder tens (some (c ∷ s)) next =
    add_ones tens (lookup_text (c ∷ s) korean_counter_ones) next

abbrev pub by_prefix : List ℕ → Dict ℕ → Option ℕ
by_prefix s [] = none
by_prefix s ((prefix, tens) ∷ d) =
    with_remainder tens (without_prefix (codes prefix) s) (by_prefix s d)

abbrev pub or_by_prefix : List ℕ → Option ℕ → Option ℕ
or_by_prefix s none = by_prefix s korean_counter_tens
or_by_prefix s (some n) = some n

unfoldable pub korean_counter_quantity : List ℕ → Option ℕ
korean_counter_quantity s = or_by_prefix s (lookup_text s korean_counter_ones)
