-- ===== src/Common/Keeping.antt =====
-- Facts about `keep` and `All`.
use Prim.Native.Nat.{suc, ◌+◌, ◌≤◌}
use Prim.Native.String.{String}
use mathlib.Core.Path.{◌≡◌, refl}
use mathlib.Core.Bool.{Bool, true, false}
use mathlib.Core.List.{List, [], ◌∷◌, map}
use native.Mathlib.Omega.{arith}
use text.Mathlib.TextPositions.{eq_refl}
use text2cypher_manufacturin.Common.Lists.{length, keep, All, elem}
use text2cypher_manufacturin.Common.Tests.{if◌then◌else◌}

module _ {ℓ} {A : Type ℓ} where
  pub All-mono {κ μ} :
      (P : A → Type κ) (Q : A → Type μ) (xs : List A) → ((x : A) → P x → Q x) → All P xs → All Q xs
  All-mono P Q [] f h = tt
  All-mono P Q (x ∷ xs) f h = (f x h.0, All-mono P Q xs f h.1)

  -- What `q` keeps and what `p` keeps do not overlap.
  pub length-keep-add :
      (p q : A → Bool) (xs : List A)
      → All (λ x. q x ≡ true → p x ≡ false) xs
      → length (keep p xs) + length (keep q xs) ≤ length xs
  length-keep-add p q [] h = omega arith
  length-keep-add p q (x ∷ xs) h = by_tests (p x) (q x) h.0 (length-keep-add p q xs h.1)
    where
      by_tests :
          (a b : Bool)
          → (b ≡ true → a ≡ false)
          → length (keep p xs) + length (keep q xs) ≤ length xs
          → length (let rest = keep p xs in if a then x ∷ rest else rest)
              + length (let rest = keep q xs in if b then x ∷ rest else rest)
            ≤ suc (length xs)
      by_tests true true e ih = cc (e refl)
      by_tests true false e ih = omega arith
      by_tests false true e ih = omega arith
      by_tests false false e ih = omega arith

  -- What is kept is among the names of what is kept.
  pub elem-map-keep :
      (name : A → String) (q : A → Bool) (xs : List A)
      → All (λ x. q x ≡ true → elem (name x) (map name (keep q xs)) ≡ true) xs
  elem-map-keep name q [] = tt
  elem-map-keep name q (x ∷ xs) = by_test (q x) (elem-map-keep name q xs)
    where
      by_test :
          (b : Bool)
          → All (λ y. q y ≡ true → elem (name y) (map name (keep q xs)) ≡ true) xs
          → (b ≡ true
              → elem (name x) (map name (let rest = keep q xs in if b then x ∷ rest else rest))
                ≡ true)
            × All
                (λ y.
                  q y ≡ true
                  → elem (name y) (map name (let rest = keep q xs in if b then x ∷ rest else rest))
                    ≡ true)
                xs
      by_test false ih = (λ e. cc, ih)
      by_test true ih = (λ e. simp eq_refl, All-mono _ _ xs (λ y h e. ground (arith, h e)) ih)
