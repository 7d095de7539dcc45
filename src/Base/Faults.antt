-- ===== src/Base/Faults.antt =====
-- What a call of C code comes to: a value, undefined behaviour, or the end of the process.
use Prim.Native.Nat.{ℕ}
use mathlib.Core.Path.{◌≡◌, refl}
use mathlib.Core.Option.{Option, none, some}

-- `fault` is a null pointer that is read through, an access outside an array, or a division by
-- zero; `exited n` is `exit(n)`, or `main` that returns `n`.
pub data Outcome {ℓ} (A : Type ℓ) : Type ℓ where
  ok : A → Outcome A
  fault : Outcome A
  exited : ℕ → Outcome A

infixl 5 ◌>>=◌
abbrev pub ◌>>=◌ {ℓ κ} : {A : Type ℓ} {B : Type κ} → Outcome A → (A → Outcome B) → Outcome B
fault >>= rest = fault
exited status >>= rest = exited status
ok value >>= rest = rest value

infixl 5 ◌>>◌
abbrev pub ◌>>◌ {ℓ κ} : {A : Type ℓ} {B : Type κ} → Outcome A → Outcome B → Outcome B
first >> rest = first >>= λ _. rest

-- A pointer that is read through.
abbrev pub deref {ℓ} : {A : Type ℓ} → Option A → Outcome A
deref none = fault
deref (some a) = ok a

-- A run of two parts that returns has a first part that returns.
pub >>=-eq-ok {ℓ κ} :
    {A : Type ℓ} {B : Type κ} (first : Outcome A) (rest : A → Outcome B) {result : B}
    → (first >>= rest) ≡ ok result
    → (value : A) × (first ≡ ok value) × (rest value ≡ ok result)
>>=-eq-ok fault rest returns = cc
>>=-eq-ok (exited status) rest returns = cc
>>=-eq-ok (ok value) rest returns = (value, refl, returns)

pub ok-injective {ℓ} : {A : Type ℓ} {a b : A} → ok a ≡ ok b → a ≡ b
ok-injective e = cc

pub deref-eq-ok {ℓ} : {A : Type ℓ} (o : Option A) {a : A} → deref o ≡ ok a → o ≡ some a
deref-eq-ok none h = cc
deref-eq-ok (some b) h = cc

pub >>=-assoc {ℓ κ μ} :
    {A : Type ℓ} {B : Type κ} {C : Type μ} (first : Outcome A) (f : A → Outcome B)
    (g : B → Outcome C)
    → (first >>= f >>= g) ≡ (first >>= λ a. f a >>= g)
>>=-assoc fault f g = refl
>>=-assoc (exited status) f g = refl
>>=-assoc (ok value) f g = refl
