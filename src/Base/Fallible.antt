-- ===== src/Base/Fallible.antt =====
-- The outcome of a C function that can fail: `failed` is the code's own error return, and
-- `undefined` stands for a failed assertion, an `abort` or behaviour that C leaves undefined.
use mathlib.Core.Path.{◌≡◌, refl}

pub data Outcome {ℓ} (A : Type ℓ) : Type ℓ where
  ok : A → Outcome A
  failed : Outcome A
  undefined : Outcome A

infixl 5 ◌>>=◌
abbrev pub ◌>>=◌ {ℓ κ} : {A : Type ℓ} {B : Type κ} → Outcome A → (A → Outcome B) → Outcome B
ok a >>= f = f a
failed >>= f = failed
undefined >>= f = undefined

-- The call returns normally, in a value that satisfies `Q`.
abbrev pub Returns {ℓ κ} : {A : Type ℓ} → Outcome A → (A → Type κ) → Type (ℓ ⊔ κ)
Returns call Q = (result : _) × (call ≡ ok result) × Q result

-- Of a bind that succeeds, both calls did.
pub >>=-ok {ℓ κ} :
    {A : Type ℓ} {B : Type κ} (call : Outcome A) (rest : A → Outcome B) (b : B)
    → (call >>= rest) ≡ ok b
    → Returns call (λ result. rest result ≡ ok b)
>>=-ok failed rest b h = cc
>>=-ok undefined rest b h = cc
>>=-ok (ok result) rest b h = (result, refl, h)
