-- ===== src/Planning/Texts.antt =====
-- `_SAFE_IDENTIFIER`, `_string_list`, and the ways in which a plan is invalid.
use text2cypher_manufacturin.Common.{
  ℕ, String, Bool, true, false, not, ◌&&◌, ◌||◌, Option, none, some, List, [], ◌∷◌, leb, eqb, any,
  elem, Result, ok, err, if◌then◌else◌,
}
use text2cypher_manufacturin.Python.{Value, str, list, to_list}
use text2cypher_manufacturin.Python.Exceptions.{codes}
use text2cypher_manufacturin.Python.Text.{is_space}

-- The ValueErrors, with the subquery that they name. `unfinished` is a topological order that needs
-- more rounds than the fuel.
pub data PlanError : Type 0 where
  not_an_array too_many ids_not_unique tools_not_unique cyclic unfinished : PlanError
  not_an_object unknown_fields unsafe_id : (index : ℕ) → PlanError
  unsupported_tool empty_question no_outputs keys_not_outputs : (id : String) → PlanError
  bindings_not_object invalid_binding unknown_dependency : (id : String) → PlanError
  not_strings duplicates : (id field : String) → PlanError
  binding_not_dependency binding_not_output dependencies_unbound : (id : String) → PlanError
  keys_on_one_side keys_differ : PlanError
  keys_not_shared bindings_not_array : (id : String) → PlanError
  binding_shape binding_values : (id : String) (index : ℕ) → PlanError
  binding_twice binding_not_owned : (id name : String) → PlanError
  route_shape transform_invalid quantity_mismatch : PlanError

abbrev pub is_letter : ℕ → Bool
is_letter c = (leb b'a' c && leb c b'z') || ((leb b'A' c && leb c b'Z') || eqb c b'_')

abbrev pub is_word : ℕ → Bool
is_word c = is_letter c || (leb b'0' c && leb c b'9')

abbrev pub all_word : List ℕ → Bool
all_word [] = true
all_word (c ∷ cs) = is_word c && all_word cs

abbrev pub is_identifier : List ℕ → Bool
is_identifier [] = false
is_identifier (c ∷ cs) = is_letter c && all_word cs

-- _SAFE_IDENTIFIER.fullmatch(s)
unfoldable pub is_safe_identifier : String → Bool
is_safe_identifier s = is_identifier (codes s)

-- s.strip()
unfoldable pub has_text : String → Bool
has_text s = any (λ c. not (is_space c)) (codes s)

abbrev pub strings : List Value → Option (List String)
strings [] = some []
strings (str s ∷ vs) = elim (strings vs) [
  | none ↦ none
  | some ss ↦ if has_text s then some (s ∷ ss) else none
]
strings (v ∷ vs) = none

abbrev pub has_duplicates : List String → Bool
has_duplicates [] = false
has_duplicates (s ∷ ss) = elem s ss || has_duplicates ss

abbrev pub strings_given : String → String → Option (List String) → Result PlanError (List String)
strings_given field id none = err (not_strings id field)
strings_given field id (some ss) = if has_duplicates ss then err (duplicates id field) else ok ss

unfoldable pub string_list : Value → (field id : String) → Result PlanError (List String)
string_list (list vs) field id = strings_given field id (strings (to_list vs))
string_list _ field id = err (not_strings id field)
