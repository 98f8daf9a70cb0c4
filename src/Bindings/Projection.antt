-- ===== src/Bindings/Projection.antt =====
-- `collect_input_bindings` against the columns that the bindings name.
use text2cypher_manufacturin.Common.{
  ℕ, ◌+◌, ◌≡◌, refl, String, Bool, true, false, Option, none, some, List, [], ◌∷◌, ◌==◌, Dict,
  lookup, ok, >>=-eq-ok, ok-injective, some_inj, subst, if◌then◌else◌,
}
use text2cypher_manufacturin.Python.{Value, Row, as_row}
use text2cypher_manufacturin.Plan.{split_dot}
use text2cypher_manufacturin.Bindings.{
  project_field, project_row, project_rows, project_result, project_source, collect_input_bindings,
}

-- The values of one field in each row, in order and as often.
pub data IsColumn (field : String) : List Value → List Value → Type 0 where
  none_left : IsColumn field [] []
  next :
      {row v : Value} {rows vs : List Value} (r : Row)
      → as_row row ≡ some r
      → lookup field r ≡ some v
      → IsColumn field rows vs
      → IsColumn field (row ∷ rows) (v ∷ vs)

-- What a binding's source stands for.
pub record IsProjected (upstream : Dict (Option (List Value))) (source : String) (vs : List Value)
    : Type 0 where
  pub dependency_id : String
  pub field : String
  pub rows : List Value
  pub parsed : split_dot source ≡ some (dependency_id, field)
  pub found : lookup dependency_id upstream ≡ some (some rows)
  pub column : IsColumn field rows vs

project_row-inv :
    (dependency_id field : String) (row_index : ℕ) (o : Option Row) (v : Value)
    → project_row dependency_id field row_index o ≡ ok v
    → (r : Row) × (o ≡ some r) × (lookup field r ≡ some v)
project_row-inv dependency_id field row_index none v h = cc
project_row-inv dependency_id field row_index (some r) v h = by_field (lookup field r) refl h
  where
    by_field :
        (f : Option Value)
        → lookup field r ≡ f
        → project_field dependency_id field row_index f ≡ ok v
        → (r' : Row) × (some r ≡ some r') × (lookup field r' ≡ some v)
    by_field none e k = cc
    by_field (some w) e k = (r, refl, cc)

module _ (dependency_id field : String) where
  project_rows-IsColumn :
      (row_index : ℕ) (rows vs : List Value)
      → project_rows dependency_id field row_index rows ≡ ok vs
      → IsColumn field rows vs
  unfolding project_rows
  project_rows-IsColumn row_index [] vs h = subst (IsColumn field []) (ok-injective h) none_left
  project_rows-IsColumn row_index (row ∷ rows) vs h =
      let (v, first, more) =
        >>=-eq-ok (project_row dependency_id field row_index (as_row row)) _ h in
      let (ws, others, same) =
        >>=-eq-ok (project_rows dependency_id field (row_index + 1) rows) _ more in
      let (r, object, has) = project_row-inv dependency_id field row_index (as_row row) v first in
      subst (IsColumn field (row ∷ rows)) (ok-injective same)
        (next r object has (project_rows-IsColumn (row_index + 1) rows ws others))

  project_result-inv :
      (o : Option (Option (List Value))) (vs : List Value)
      → project_result dependency_id field o ≡ ok vs
      → (rows : List Value) × (o ≡ some (some rows)) × IsColumn field rows vs
  project_result-inv none vs h = cc
  project_result-inv (some none) vs h = cc
  project_result-inv (some (some rows)) vs h = (rows, refl, project_rows-IsColumn 0 rows vs h)

project_source-IsProjected :
    (upstream : Dict (Option (List Value))) (source : String) (o : Option (String × String))
    (vs : List Value)
    → split_dot source ≡ o
    → project_source upstream source o ≡ ok vs
    → IsProjected upstream source vs
project_source-IsProjected upstream source none vs e h = cc
project_source-IsProjected upstream source (some (dependency_id, field)) vs e h =
    let (rows, found, column) =
      project_result-inv dependency_id field (lookup dependency_id upstream) vs h in
    record {
      dependency_id = dependency_id;
      field = field;
      rows = rows;
      parsed = e;
      found = found;
      column = column;
    }

-- If the inputs can be collected, then each binding's source names a finished dependency and a
-- field that every row of its result has, and the input that the binding names is the list of that
-- field's values: one for each row, in the order of the rows.
pub collect_input_bindings-IsProjected :
    (bindings : Dict String) (upstream : Dict (Option (List Value))) (inputs : Dict (List Value))
    (name source : String)
    → collect_input_bindings bindings upstream ≡ ok inputs
    → lookup name bindings ≡ some source
    → (vs : List Value) × (lookup name inputs ≡ some vs) × IsProjected upstream source vs
unfolding collect_input_bindings
collect_input_bindings-IsProjected [] upstream inputs name source h named = cc
collect_input_bindings-IsProjected ((key, source') ∷ bindings) upstream inputs name source h named =
    let (vs, first, more) = >>=-eq-ok (project_source upstream source' (split_dot source')) _ h in
    let (rest, others, same) = >>=-eq-ok (collect_input_bindings bindings upstream) _ more in
    by_name vs first rest (ok-injective same) (key == name) refl named
      (collect_input_bindings-IsProjected bindings upstream rest name source others)
  where
    by_name :
        (vs : List Value)
        → project_source upstream source' (split_dot source') ≡ ok vs
        → (rest : Dict (List Value)) → (key, vs) ∷ rest ≡ inputs
        → (b : Bool) → (key == name) ≡ b
        → (if b then some source' else lookup name bindings) ≡ some source
        → (lookup name bindings ≡ some source
            → (ws : List Value) × (lookup name rest ≡ some ws) × IsProjected upstream source ws)
        → (ws : List Value) × (lookup name inputs ≡ some ws) × IsProjected upstream source ws
    by_name vs first rest same true b e ih = (
      vs,
      rw (← same) (rw b),
      subst (λ s. IsProjected upstream s vs) (some_inj e)
          (project_source-IsProjected upstream source' (split_dot source') vs refl first),
    )
    by_name vs first rest same false b e ih =
        let (ws, found, projected) = ih e in (ws, rw (← same) (rw b found), projected)
