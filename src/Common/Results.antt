-- ===== src/Common/Results.antt =====
-- Fallible code: a value, or the error that the source throws.
use mathlib.Core.Path.{◌≡◌, refl}
use mathlib.Core.Bool.{Bool, true, false}
use mathlib.Core.Logic.{◌⊎◌, inl, inr}

pub data Result {ℓ κ} (E : Type ℓ) (A : Type κ) : Type (ℓ ⊔ κ) where
  err : (thrown : E) → Result E A
  ok : (value : A) → Result E A

-- `if (!test) throw new Error(…)`.
abbrev pub guard {ℓ} : {E : Type ℓ} → (test : Bool) (thrown : E) → Result E (Unit {0})
guard false thrown = err thrown
guard true thrown = ok tt

-- A call whose result is used, and one that may only throw.
module _ {ℓ κ} {E : Type ℓ} {B : Type κ} where
  infixl 5 ◌>>◌
  abbrev pub ◌>>◌ : Result E (Unit {0}) → Result E B → Result E B
  err thrown >> next = err thrown
  ok tt >> next = next

  module _ {μ} {A : Type μ} where
    infixl 5 ◌>>=◌
    abbrev pub ◌>>=◌ : Result E A → (A → Result E B) → Result E B
    err thrown >>= next = err thrown
    ok value >>= next = next value

    pub >>=-eq-ok :
        (m : Result E A) (f : A → Result E B) {b : B}
        → (m >>= f) ≡ ok b
        → (a : A) × (m ≡ ok a) × (f a ≡ ok b)
    >>=-eq-ok (err thrown) f h = cc
    >>=-eq-ok (ok value) f h = (value, refl, h)

pub >>-eq-ok {ℓ κ} :
    {E : Type ℓ} {B : Type κ} (m : Result E (Unit {0})) (k : Result E B) {b : B}
    → (m >> k) ≡ ok b
    → (m ≡ ok tt) × (k ≡ ok b)
>>-eq-ok (ok tt) k h = (refl, h)
>>-eq-ok (err e) k h = cc

pub guard-eq-ok {ℓ} : {E : Type ℓ} (t : Bool) (e : E) → guard t e ≡ ok tt → t ≡ true
guard-eq-ok true e h = refl
guard-eq-ok false e h = cc

pub Result-cases {ℓ κ} :
    {E : Type ℓ} {A : Type κ} (r : Result E A) → ((a : A) × (r ≡ ok a)) ⊎ ((e : E) × (r ≡ err e))
Result-cases (ok a) = inl (a, refl)
Result-cases (err e) = inr (e, refl)

pub ok-injective {ℓ κ} :
    {E : Type ℓ} {A : Type κ} {a b : A} → (m : Result E A) → m ≡ ok a → m ≡ ok b → a ≡ b
ok-injective m h h' = cc
