-- ===== src/Tests/References.antt =====
-- Queries that are written in parts, the guard on them, and a subgraph behind the guard.
use text2cypher_manufacturin.Common.{
  ℕ, zero, suc, ◌≡◌, refl, false, String, Option, none, some, List, [], ◌∷◌, all→All, inr,
}
use text2cypher_manufacturin.Python.Exceptions.{codes, Call, returns, raises}
use text2cypher_manufacturin.Python.Text.{is_word}
use text2cypher_manufacturin.Retry.{GuardResult, Config, run, max_attempts}
use text2cypher_manufacturin.Guards.{mask_query_text, mask_from, cypher_guard, passed}
use text2cypher_manufacturin.Guards.Grammar.{
  is_marked, Part, code, literal, reference, written, IsWritten,
}
use text2cypher_manufacturin.Guards.Unknown.{cypher_guard-refuses_unknown}
use text2cypher_manufacturin.Guards.Decision.{
  NeverExecutes, cypher_guard-decides, run-NeverExecutes,
}
use text2cypher_manufacturin.Tests.Samples.{stock_config, fresh_state}
use text2cypher_manufacturin.Tests.Queries.{ascii_only, schema_names, decided, All-any}

-- MATCH (n:Product:Secret | Owner) WHERE n.x = 'a:b' RETURN n {.name}
abbrev unknown_parts : List Part
unknown_parts =
    code (codes "MATCH (n")
    ∷ reference (record { gap = []; first = b'P'; rest = codes "roduct" }) []
    ∷ reference (record { gap = []; first = b'S'; rest = codes "ecret" })
        (record {
          before = b' ' ∷ [];
          operator = b'|';
          named = record { gap = b' ' ∷ []; first = b'O'; rest = codes "wner" };
        }
          ∷ [])
    ∷ code (codes ") WHERE n.x = ")
    ∷ literal b'\'' (codes "a:b")
    ∷ []

abbrev behind_parts : List ℕ
behind_parts = codes " RETURN n {.name}"

abbrev unknown_query : String
unknown_query = "MATCH (n:Product:Secret | Owner) WHERE n.x = 'a:b' RETURN n {.name}"

unknown_written : codes unknown_query ≡ written unknown_parts behind_parts
unfolding codes
unknown_written = refl

unknown_parts-IsWritten : IsWritten ascii_only unknown_parts behind_parts
unfolding codes
unknown_parts-IsWritten = (
  All-any is_marked (codes "MATCH (n") refl,
  (
    ((tt, all→All (is_word ascii_only) (b'P' ∷ codes "roduct") refl), tt, refl, refl),
    (
      (
        (tt, all→All (is_word ascii_only) (b'S' ∷ codes "ecret") refl),
        (
          ((refl, tt), refl, ((refl, tt), all→All (is_word ascii_only) (b'O' ∷ codes "wner") refl)),
          tt,
        ),
        refl,
        refl,
      ),
      (
        All-any is_marked (codes ") WHERE n.x = ") refl,
        ((refl, ((refl, refl), ((refl, refl), ((refl, refl), tt)))), tt),
      ),
    ),
  ),
)

cypher_guard-refuses_unknown_example :
    (r : GuardResult) × (cypher_guard ascii_only schema_names (written unknown_parts behind_parts)
      ≡ some r)
    × (r.allowed ≡ false)
unfolding codes
cypher_guard-refuses_unknown_example =
    cypher_guard-refuses_unknown ascii_only schema_names unknown_parts behind_parts
      unknown_parts-IsWritten refl

-- MATCH (n:Product|REQUIRES_COMPONENT) RETURN n
abbrev known_parts : List Part
known_parts =
    code (codes "MATCH (n")
    ∷ reference (record { gap = []; first = b'P'; rest = codes "roduct" })
        (record {
          before = [];
          operator = b'|';
          named = record { gap = []; first = b'R'; rest = codes "EQUIRES_COMPONENT" };
        }
          ∷ [])
    ∷ code (codes ") RETURN n")
    ∷ []

known_parts-IsWritten : IsWritten ascii_only known_parts []
unfolding codes
known_parts-IsWritten = (
  All-any is_marked (codes "MATCH (n") refl,
  (
    (
      (tt, all→All (is_word ascii_only) (b'P' ∷ codes "roduct") refl),
      ((tt, refl, (tt, all→All (is_word ascii_only) (b'R' ∷ codes "EQUIRES_COMPONENT") refl)), tt),
      refl,
      refl,
    ),
    (All-any is_marked (codes ") RETURN n") refl, tt),
  ),
)

cypher_guard-decides_example :
    cypher_guard ascii_only schema_names (written known_parts []) ≡ some passed
unfolding codes mask_query_text mask_from
cypher_guard-decides_example =
    cypher_guard-decides ascii_only schema_names known_parts known_parts-IsWritten

-- The guard as the subgraph calls it, and a subgraph whose first query has unknown names.
abbrev to_call : Option GuardResult → Call GuardResult
to_call none = raises (record { type_name = "RuntimeError"; sqlstate = none; text = "" })
to_call (some r) = returns r

abbrev cypher_call : String → Call GuardResult
cypher_call q = to_call (decided q)

abbrev graph_query : ℕ → String
graph_query zero = unknown_query
graph_query (suc n) = "MATCH (p:Product) RETURN p"

abbrev graph_config : Config
graph_config = record stock_config {
  generate = λ s last feedback. returns (graph_query s.attempt_count);
  guard = some cypher_call;
}

to_call-returns : (o : Option GuardResult) (r : GuardResult) → to_call o ≡ returns r → o ≡ some r
to_call-returns none r h = cc
to_call-returns (some s) r h = cc

run-NeverExecutes_example :
    NeverExecutes
      (written unknown_parts behind_parts)
      (run graph_config max_attempts fresh_state [])
unfolding codes
run-NeverExecutes_example =
    run-NeverExecutes ascii_only schema_names graph_config cypher_call refl
      (λ q r h. to_call-returns (decided q) r h) unknown_parts behind_parts unknown_parts-IsWritten
      (inr refl) max_attempts fresh_state
