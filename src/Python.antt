-- ===== src/Python.antt =====
-- The Python values that the pipeline passes around as `Any`: what the database drivers return and
-- what the nodes put under their dictionary keys. A float is not among them; a Decimal is `dec m k`,
-- the number m / 10 ^ k. The strings of a value are texts, compared as a whole.
pub mod Exceptions
pub mod Text
pub mod Regex
use text2cypher_manufacturin.Common.{
  ℕ, zero, suc, ◌*◌, ◌^◌, String, ◌≡◌, refl, Bool, true, false, ◌&&◌, not, Option, none, some, List,
  [], ◌∷◌, ◌==◌, eqb, Dict,
}

-- `negsuc n` is -(n + 1).
pub data ℤ : Type 0 where
  pos : ℕ → ℤ
  negsuc : ℕ → ℤ

mutual
  pub data Value : Type 0 where
    none_value : Value
    bool : Bool → Value
    int : ℤ → Value
    dec : ℤ → ℕ → Value
    str : String → Value
    list : Values → Value
    dict : Fields → Value

  pub data Values : Type 0 where
    nil : Values
    cons : Value → Values → Values

  pub data Fields : Type 0 where
    end : Fields
    field : String → Value → Fields → Fields

-- A row of a query result.
abbrev pub Row : Type 0
Row = Dict Value

unfoldable pub to_list : Values → List Value
to_list nil = []
to_list (cons v vs) = v ∷ to_list vs

unfoldable pub to_dict : Fields → Dict Value
to_dict end = []
to_dict (field k v fs) = (k, v) ∷ to_dict fs

-- isinstance(v, dict)
unfoldable pub as_row : Value → Option Row
as_row (dict fs) = some (to_dict fs)
as_row _ = none

-- bool(v)
abbrev pub truthy : Value → Bool
truthy none_value = false
truthy (bool b) = b
truthy (int (pos n)) = not (eqb n 0)
truthy (int (negsuc n)) = true
truthy (dec (pos n) k) = not (eqb n 0)
truthy (dec (negsuc n) k) = true
truthy (str s) = not (s == "")
truthy (list nil) = false
truthy (list (cons v vs)) = true
truthy (dict end) = false
truthy (dict (field k v fs)) = true

-- v is None
unfoldable pub is_none : Value → Bool
is_none none_value = true
is_none _ = false

abbrev pub times_ten : ℤ → ℕ → ℤ
times_ten (pos n) k = pos (n * 10 ^ k)
times_ten (negsuc n) k = negsuc ((suc n) * 10 ^ k)

abbrev pub int_eq : ℤ → ℤ → Bool
int_eq (pos m) (pos n) = eqb m n
int_eq (negsuc m) (negsuc n) = eqb m n
int_eq _ _ = false

-- m / 10 ^ j == n / 10 ^ k
abbrev pub scaled_eq : ℤ → ℕ → ℤ → ℕ → Bool
scaled_eq m j n k = int_eq (times_ten m k) (times_ten n j)

-- A number with its scale; `True` is 1 and `False` is 0.
abbrev pub number : Value → Option (ℤ × ℕ)
number (bool true) = some (pos 1, 0)
number (bool false) = some (pos 0, 0)
number (int n) = some (n, 0)
number (dec m k) = some (m, k)
number _ = none

abbrev pub number_eq : Option (ℤ × ℕ) → Option (ℤ × ℕ) → Bool
number_eq (some (m, j)) (some (n, k)) = scaled_eq m j n k
number_eq _ _ = false

abbrev pub lookup_field : String → Fields → Option Value
lookup_field k end = none
lookup_field k (field j v fs) = elim (j == k) [ true ↦ some v | false ↦ lookup_field k fs ]

abbrev count_fields : Fields → ℕ
count_fields end = 0
count_fields (field k v fs) = suc (count_fields fs)

-- v == w; lists are compared item by item, and dicts as mappings.
unfoldable mutual
  pub val_eq : Value → Value → Bool
  val_eq none_value none_value = true
  val_eq (str s) (str t) = s == t
  val_eq (list vs) (list ws) = items_eq vs ws
  val_eq (dict fs) (dict gs) = eqb (count_fields fs) (count_fields gs) && fields_in fs gs
  val_eq v w = number_eq (number v) (number w)

  pub items_eq : Values → Values → Bool
  items_eq nil nil = true
  items_eq (cons v vs) (cons w ws) = val_eq v w && items_eq vs ws
  items_eq _ _ = false

  pub fields_in : Fields → Fields → Bool
  fields_in end gs = true
  fields_in (field k v fs) gs =
      elim (lookup_field k gs) [ none ↦ false | some w ↦ val_eq v w ] && fields_in fs gs

true_is_one : val_eq (list (cons (bool true) nil)) (list (cons (int (pos 1)) nil)) ≡ true
unfolding val_eq
true_is_one = refl

scaled : val_eq (dec (pos 250) 2) (dec (pos 25) 1) ≡ true
unfolding val_eq
scaled = refl
