-- ===== src/Pipeline/State.antt =====
-- OrchestratorState of backend/orchestrator/state.py, and what Python does with a value of it.
use text2cypher_manufacturin.Common.{
  String, Bool, not, Option, none, some, [], ◌∷◌, Dict, lookup, insert,
}
use text2cypher_manufacturin.Python.{Value, none_value, is_none}
use text2cypher_manufacturin.Python.Exceptions.{Exception, Call, returns, raises}

-- A TypedDict is a dict.
abbrev pub OrchestratorState : Type 0
OrchestratorState = Dict Value

abbrev pub or_none : Option Value → Value
or_none none = none_value
or_none (some v) = v

-- state.get(k)
abbrev pub get : String → Dict Value → Value
get k d = or_none (lookup k d)

abbrev pub key_error : Exception
key_error = record { type_name = "KeyError"; sqlstate = none; text = "" }

abbrev pub attribute_error : Exception
attribute_error = record { type_name = "AttributeError"; sqlstate = none; text = "" }

abbrev pub or_key_error : Option Value → Call Value
or_key_error none = raises key_error
or_key_error (some v) = returns v

-- state[k]
abbrev pub required : String → Dict Value → Call Value
required k d = or_key_error (lookup k d)

-- d.update(e), but for the order of the keys, which nothing reads.
unfoldable pub update : Dict Value → Dict Value → Dict Value
update d [] = d
update d ((k, v) ∷ e) = insert k v (update d e)

-- state.get("query_failure") is not None
abbrev pub has_failure : OrchestratorState → Bool
has_failure state = not (is_none (get "query_failure" state))
