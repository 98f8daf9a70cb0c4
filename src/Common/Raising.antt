-- ===== src/Common/Raising.antt =====
-- A call that may raise ValueError.
use mathlib.Core.Path.{◌≡◌, refl}
use mathlib.Core.Option.{some}
use mathlib.Core.Bool.{Bool, true, false}
use text2cypher_manufacturin.Common.Tests.{if◌then◌else◌}

pub data Result {ℓ κ} (E : Type ℓ) (A : Type κ) : Type (ℓ ⊔ κ) where
  ok : A → Result E A
  err : E → Result E A

-- The first error ends a chain.
infixl 5 ◌>>=◌
abbrev pub ◌>>=◌ {ℓ κ μ} :
    {E : Type ℓ} {A : Type κ} {B : Type μ} → Result E A → (A → Result E B) → Result E B
err raised >>= next = err raised
ok returned >>= next = next returned

-- A chain that succeeds has a first step that succeeds.
pub >>=-eq-ok {ℓ κ μ} :
    {E : Type ℓ} {A : Type κ} {B : Type μ} (first : Result E A) (next : A → Result E B) {b : B}
    → (first >>= next) ≡ ok b
    → (returned : A) × (first ≡ ok returned) × (next returned ≡ ok b)
>>=-eq-ok (err raised) next same = cc
>>=-eq-ok (ok returned) next same = (returned, refl, same)

pub ok-injective {ℓ κ} :
    {E : Type ℓ} {A : Type κ} {a b : A} → ◌≡◌ {A = Result E A} (ok a) (ok b) → a ≡ b
ok-injective h = cc

pub some_inj {ℓ} : {A : Type ℓ} {a b : A} → some a ≡ some b → a ≡ b
some_inj h = cc

-- A guarded result is one whose test has passed.
pub guarded-eq-ok {ℓ κ} :
    {E : Type ℓ} {A : Type κ} (b : Bool) {a c : A} (e : E)
    → ◌≡◌ {A = Result E A} (if b then ok a else err e) (ok c)
    → (b ≡ true) × (a ≡ c)
guarded-eq-ok true e h = (refl, ok-injective h)
guarded-eq-ok false e h = cc
