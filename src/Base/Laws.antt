-- ===== src/Base/Laws.antt =====
-- Partial correctness of code that may fault: what holds of the result if there is one.
use Prim.Native.Nat.{ℕ}
use mathlib.Core.Path.{◌≡◌, refl, subst}
use mathlib.Core.Bool.{Bool, true, false}
use pal_ft.Base.Checks.{if◌then◌else◌}
use pal_ft.Base.Faults.{Outcome, ok, fault, exited, ◌>>=◌}

-- If the code returns, the result has the property.
unfoldable pub Ensures {ℓ κ} : {A : Type ℓ} → (A → Type κ) → Outcome A → Type κ
Ensures P (ok a) = P a
Ensures P fault = Unit
Ensures P (exited n) = Unit

pub ok-Ensures {ℓ κ} : {A : Type ℓ} (P : A → Type κ) (a : A) → P a → Ensures P (ok a)
unfolding Ensures
ok-Ensures P a h = h

pub exited-Ensures {ℓ κ} : {A : Type ℓ} (P : A → Type κ) (n : ℕ) → Ensures P (exited n)
unfolding Ensures
exited-Ensures P n = tt

pub >>=-Ensures {ℓ κ} :
    {A B : Type ℓ} (P : B → Type κ) (m : Outcome A) (f : A → Outcome B)
    → ((a : A) → Ensures P (f a))
    → Ensures P (m >>= f)
unfolding Ensures
>>=-Ensures P (ok a) f h = h a
>>=-Ensures P fault f h = tt
>>=-Ensures P (exited n) f h = tt

-- The same where more is known of what the first part returns.
pub >>=-Ensures_of {ℓ κ μ} :
    {A B : Type ℓ} (Q : A → Type μ) (P : B → Type κ) (m : Outcome A) (f : A → Outcome B)
    → Ensures Q m
    → ((a : A) → Q a → Ensures P (f a))
    → Ensures P (m >>= f)
unfolding Ensures
>>=-Ensures_of Q P (ok a) f q h = h a q
>>=-Ensures_of Q P fault f q h = tt
>>=-Ensures_of Q P (exited n) f q h = tt

pub >>=-Ensures_eq {ℓ κ} :
    {A B : Type ℓ} (P : B → Type κ) (m : Outcome A) (f : A → Outcome B)
    → ((a : A) → m ≡ ok a → Ensures P (f a))
    → Ensures P (m >>= f)
unfolding Ensures
>>=-Ensures_eq P (ok a) f h = h a refl
>>=-Ensures_eq P fault f h = tt
>>=-Ensures_eq P (exited n) f h = tt

pub if-Ensures {ℓ κ} :
    {A : Type ℓ} (P : A → Type κ) (test : Bool) (x y : Outcome A)
    → Ensures P x
    → Ensures P y
    → Ensures P (if test then x else y)
if-Ensures P true x y h k = h
if-Ensures P false x y h k = k

pub Ensures-ok {ℓ κ} :
    {A : Type ℓ} (P : A → Type κ) (m : Outcome A) {a : A} → Ensures P m → m ≡ ok a → P a
unfolding Ensures
Ensures-ok P (ok b) h e = subst P (cc) h
Ensures-ok P fault h e = absurd (cc)
Ensures-ok P (exited n) h e = absurd (cc)
