-- ===== src/Plan.antt =====
-- The execution plan of backend/orchestrator/planning.py: a subquery, and what refers to one.
use Prim.Native.Char.{code}
use text2cypher_manufacturin.Common.{String, Option, none, some, List, eqb, Dict, if◌then◌else◌}
use text2cypher_manufacturin.Failures.{Tool}

pub record Subquery : Type 0 where
  pub id : String
  pub tool : Tool
  pub question : String
  pub depends_on : List String
  pub required_outputs : List String
  pub join_keys : List String
  pub input_bindings : Dict String
  pub generator_rules : List String

-- source.split(".", 1), where there is a dot.
unfoldable pub split_dot : String → Option (String × String)
split_dot String.[] = none
split_dot (String.◌∷◌ c s) =
    if eqb (code c) b'.'
    then some (String.[], s)
    else elim (split_dot s) [ none ↦ none | some (a, b) ↦ some (String.◌∷◌ c a, b) ]
