-- ===== src/Compose/Scalars.antt =====
-- Python's `==` on the values that a join key can hold is symmetric and transitive.
use native.Mathlib.Nat.{mul_comm, mul_assoc, eq_of_mul-eq-mul_right}
use text2cypher_manufacturin.Common.{
  ℕ, zero, suc, ◌*◌, ◌^◌, ◌<◌, ◌≡◌, refl, ap, sym, ◌∙◌, true, String, Option, none, some, arith,
  eqb, eq_iff, subst,
}
use text2cypher_manufacturin.Python.{
  ℤ, pos, negsuc, Value, none_value, bool, int, dec, str, list, dict, val_eq, number, number_eq,
  scaled_eq,
}
use text2cypher_manufacturin.Compose.Join.{is_hashable}

pow_pos : (k : ℕ) → 0 < 10 ^ k
pow_pos zero = omega arith
pow_pos (suc k) = omega (arith, pow_pos k)

swap : (m J L : ℕ) → (m * J) * L ≡ (m * L) * J
swap m J L = mul_assoc m J L ∙ ap (λ x. m * x) (mul_comm J L) ∙ sym (mul_assoc m L J)

crossed : (m n p J K L : ℕ) → 0 < K → m * K ≡ n * J → n * L ≡ p * K → m * L ≡ p * J
crossed m n p J K L positive e f =
    eq_of_mul-eq-mul_right K positive (m * L) (p * J)
      (swap m L K ∙ ap (λ x. x * L) e ∙ swap n J L ∙ ap (λ x. x * J) f ∙ swap p K J)

eqb-eq : (m n : ℕ) → eqb m n ≡ true → m ≡ n
eqb-eq m n h = ground (arith, h)

eqb-intro : (m n : ℕ) → m ≡ n → eqb m n ≡ true
eqb-intro m n h = ground (arith, h)

scaled_sym : (m : ℤ) (j : ℕ) (n : ℤ) (k : ℕ) → scaled_eq m j n k ≡ true → scaled_eq n k m j ≡ true
scaled_sym (pos m) j (pos n) k h = eqb-intro _ _ (sym (eqb-eq _ _ h))
scaled_sym (negsuc m) j (negsuc n) k h = eqb-intro _ _ (sym (eqb-eq _ _ h))
scaled_sym (pos m) j (negsuc n) k h = cc
scaled_sym (negsuc m) j (pos n) k h = cc

scaled_trans :
    (m : ℤ) (j : ℕ) (n : ℤ) (k : ℕ) (p : ℤ) (l : ℕ)
    → scaled_eq m j n k ≡ true
    → scaled_eq n k p l ≡ true
    → scaled_eq m j p l ≡ true
scaled_trans (pos m) j (pos n) k (pos p) l h g =
    eqb-intro _ _
      (crossed m n p (10 ^ j) (10 ^ k) (10 ^ l) (pow_pos k) (eqb-eq _ _ h) (eqb-eq _ _ g))
scaled_trans (negsuc m) j (negsuc n) k (negsuc p) l h g = eqb-intro _ _ (
    crossed (suc m) (suc n) (suc p) (10 ^ j) (10 ^ k) (10 ^ l) (pow_pos k) (eqb-eq _ _ h)
      (eqb-eq _ _ g))
scaled_trans (pos m) j (negsuc n) k p l h g = cc
scaled_trans (negsuc m) j (pos n) k p l h g = cc
scaled_trans (pos m) j (pos n) k (negsuc p) l h g = cc
scaled_trans (negsuc m) j (negsuc n) k (pos p) l h g = cc

number_eq_sym : (o q : Option (ℤ × ℕ)) → number_eq o q ≡ true → number_eq q o ≡ true
number_eq_sym (some (m, j)) (some (n, k)) h = scaled_sym m j n k h
number_eq_sym none q h = cc
number_eq_sym (some (m, j)) none h = cc

number_eq_trans :
    (o q r : Option (ℤ × ℕ)) → number_eq o q ≡ true → number_eq q r ≡ true → number_eq o r ≡ true
number_eq_trans (some (m, j)) (some (n, k)) (some (p, l)) h g = scaled_trans m j n k p l h g
number_eq_trans none q r h g = cc
number_eq_trans (some (m, j)) none r h g = cc
number_eq_trans (some (m, j)) (some (n, k)) none h g = cc

number_eq-none : (o : Option (ℤ × ℕ)) → number_eq o none ≡ true → ⊥
number_eq-none none h = cc
number_eq-none (some (m, j)) h = cc

none-eq : (v : Value) → is_hashable v ≡ true → val_eq none_value v ≡ true → v ≡ none_value
unfolding val_eq
none-eq none_value s h = refl
none-eq (str t) s h = cc
none-eq (list vs) s h = cc
none-eq (dict fs) s h = cc
none-eq (bool b) s h = cc
none-eq (int n) s h = cc
none-eq (dec n k) s h = cc

str-eq : (t : String) (v : Value) → is_hashable v ≡ true → val_eq (str t) v ≡ true → v ≡ str t
unfolding val_eq
str-eq t none_value s h = cc
str-eq t (str u) s h = ap str (sym ((eq_iff t u).0 h))
str-eq t (list vs) s h = cc
str-eq t (dict fs) s h = cc
str-eq t (bool b) s h = cc
str-eq t (int n) s h = cc
str-eq t (dec n k) s h = cc

-- A value equal to a number.
number_sym :
    (u v : Value)
    → is_hashable v ≡ true
    → number_eq (number u) (number v) ≡ true
    → (val_eq v u ≡ number_eq (number v) (number u)) × (number_eq (number v) (number u) ≡ true)
unfolding val_eq
number_sym u none_value s h = absurd (number_eq-none (number u) h)
number_sym u (str t) s h = absurd (number_eq-none (number u) h)
number_sym u (list vs) s h = cc
number_sym u (dict fs) s h = cc
number_sym u (bool b) s h = (refl, number_eq_sym (number u) (number (bool b)) h)
number_sym u (int n) s h = (refl, number_eq_sym (number u) (number (int n)) h)
number_sym u (dec n k) s h = (refl, number_eq_sym (number u) (number (dec n k)) h)

pub val_eq_sym :
    (u v : Value)
    → is_hashable u ≡ true
    → is_hashable v ≡ true
    → val_eq u v ≡ true
    → val_eq v u ≡ true
unfolding val_eq
val_eq_sym none_value v su sv h =
    subst (λ w. val_eq w none_value ≡ true) (sym (none-eq v sv h)) refl
val_eq_sym (str t) v su sv h =
    subst (λ w. val_eq w (str t) ≡ true) (sym (str-eq t v sv h)) ((eq_iff t t).1 refl)
val_eq_sym (list vs) v su sv h = cc
val_eq_sym (dict fs) v su sv h = cc
val_eq_sym (bool b) v su sv h = let (e, f) = number_sym (bool b) v sv h in e ∙ f
val_eq_sym (int n) v su sv h = let (e, f) = number_sym (int n) v sv h in e ∙ f
val_eq_sym (dec n k) v su sv h = let (e, f) = number_sym (dec n k) v sv h in e ∙ f

number_trans :
    (o : Option (ℤ × ℕ)) (v w : Value)
    → is_hashable v ≡ true
    → number_eq o (number v) ≡ true
    → val_eq v w ≡ true
    → number_eq o (number w) ≡ true
unfolding val_eq
number_trans o none_value w s h g = absurd (number_eq-none o h)
number_trans o (str t) w s h g = absurd (number_eq-none o h)
number_trans o (list vs) w s h g = cc
number_trans o (dict fs) w s h g = cc
number_trans o (bool b) w s h g = number_eq_trans o (number (bool b)) (number w) h g
number_trans o (int n) w s h g = number_eq_trans o (number (int n)) (number w) h g
number_trans o (dec n k) w s h g = number_eq_trans o (number (dec n k)) (number w) h g

pub val_eq_trans :
    (u v w : Value)
    → is_hashable u ≡ true
    → is_hashable v ≡ true
    → val_eq u v ≡ true
    → val_eq v w ≡ true
    → val_eq u w ≡ true
unfolding val_eq
val_eq_trans none_value v w su sv h g = subst (λ x. val_eq x w ≡ true) (none-eq v sv h) g
val_eq_trans (str t) v w su sv h g = subst (λ x. val_eq x w ≡ true) (str-eq t v sv h) g
val_eq_trans (list vs) v w su sv h g = cc
val_eq_trans (dict fs) v w su sv h g = cc
val_eq_trans (bool b) v w su sv h g = number_trans (number (bool b)) v w sv h g
val_eq_trans (int n) v w su sv h g = number_trans (number (int n)) v w sv h g
val_eq_trans (dec n k) v w su sv h g = number_trans (number (dec n k)) v w sv h g
