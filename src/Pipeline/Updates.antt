-- ===== src/Pipeline/Updates.antt =====
-- What an update changes of a state.
use text2cypher_manufacturin.Common.{
  ◌≡◌, refl, ◌∙◌, Bool, true, false, Option, none, some, String, [], ◌∷◌, ◌==◌, Dict, lookup,
  lookup-insert, if◌then◌else◌,
}
use text2cypher_manufacturin.Python.{Value}
use text2cypher_manufacturin.Pipeline.State.{update}

abbrev pub or_else : Option Value → Option Value → Option Value
or_else none w = w
or_else (some v) w = some v

pub lookup-update :
    (k : String) (d e : Dict Value) → lookup k (update d e) ≡ or_else (lookup k e) (lookup k d)
unfolding update
lookup-update k d [] = refl
lookup-update k d ((j, v) ∷ e) =
    lookup-insert j k v (update d e) ∙ by_key (j == k) (lookup-update k d e)
  where
    by_key :
        (b : Bool)
        → lookup k (update d e) ≡ or_else (lookup k e) (lookup k d)
        → (if b then some v else lookup k (update d e))
          ≡ or_else (if b then some v else lookup k e) (lookup k d)
    by_key true ih = refl
    by_key false ih = ih

-- A key stays.
pub has_value-update :
    (k : String) (d e : Dict Value) (v : Value)
    → lookup k d ≡ some v
    → (w : Value) × (lookup k (update d e) ≡ some w)
has_value-update k d e v h = by_change (lookup k e) (lookup-update k d e)
  where
    by_change :
        (o : Option Value)
        → lookup k (update d e) ≡ or_else o (lookup k d)
        → (w : Value) × (lookup k (update d e) ≡ some w)
    by_change none same = (v, same ∙ h)
    by_change (some w) same = (w, same)
