-- ===== src/Guards/Mask.antt =====
-- `mask_query_text` of backend/orchestrator/guards/shared.py, one character at a time: the inner
-- loops of the function are modes, and the character after the current one is looked at.
use text2cypher_manufacturin.Common.{
  ℕ, Bool, true, false, ◌&&◌, ◌||◌, Option, none, some, List, [], ◌∷◌, ◌++◌, eqb, if◌then◌else◌,
}

-- `skip m` drops a character that an index has already passed.
pub data Mode : Type 0 where
  plain line block : Mode
  quoted : (quote : ℕ) → Mode
  skip : Mode → Mode

abbrev pub head : List ℕ → Option ℕ
head [] = none
head (c ∷ s) = some c

-- next_char == d
abbrev pub is_next : ℕ → Option ℕ → Bool
is_next d none = false
is_next d (some c) = eqb c d

abbrev pub has_next : Option ℕ → Bool
has_next none = false
has_next (some c) = true

abbrev pub is_newline : ℕ → Bool
is_newline c = eqb c 13 || eqb c 10

abbrev pub is_quote : ℕ → Bool
is_quote c = eqb c b'\'' || (eqb c b'"' || eqb c b'`')

abbrev pub plain_step : ℕ → Option ℕ → List ℕ × Mode
plain_step c next =
    if eqb c b'-' && is_next b'-' next
    then ([], skip line)
    else if eqb c b'/' && is_next b'/' next
    then ([], skip line)
    else if eqb c b'/' && is_next b'*' next
    then ([], skip block)
    else if is_quote c
    then (b' ' ∷ [], quoted c)
    else (c ∷ [], plain)

abbrev pub quoted_step : ℕ → ℕ → Option ℕ → List ℕ × Mode
quoted_step quote c next =
    if eqb c quote
    then (if is_next quote next
        then (b' ' ∷ b' ' ∷ [], skip (quoted quote))
        else (b' ' ∷ [], plain))
    else if eqb c b'\\' && has_next next
    then (b' ' ∷ b' ' ∷ [], skip (quoted quote))
    else (b' ' ∷ [], quoted quote)

-- What is appended to the output, and how the scan goes on. A line comment ends before the line
-- break, which is then an ordinary character.
abbrev pub mask_step : Mode → ℕ → Option ℕ → List ℕ × Mode
mask_step plain c next = plain_step c next
mask_step line c next = if is_newline c then (c ∷ [], plain) else (b' ' ∷ [], line)
mask_step block c next =
    if eqb c b'*' && is_next b'/' next then (b' ' ∷ b' ' ∷ [], skip plain) else (b' ' ∷ [], block)
mask_step (quoted quote) c next = quoted_step quote c next
mask_step (skip mode) c next = ([], mode)

unfoldable pub mask_from : Mode → List ℕ → List ℕ
mask_from mode [] = []
mask_from mode (c ∷ s) = let (out, mode') = mask_step mode c (head s) in out ++ mask_from mode' s

unfoldable pub mask_query_text : List ℕ → List ℕ
mask_query_text query = mask_from plain query
