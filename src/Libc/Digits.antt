-- ===== src/Libc/Digits.antt =====
-- Printed numbers and `atoi`: how long they are, which characters they hold, and their range.
use native.Mathlib.Nat.{pow-suc}
use pal_ft.Base.{
  ℕ, zero, suc, ◌+◌, ◌/◌, ◌%◌, ◌^◌, ◌≤◌, ◌<◌, ◌≡◌, Bool, true, false, [], ◌∷◌, arith, ◌==◌,
  Bool-cases, inl, inr, length,
}
use pal_ft.Libc.{
  Bytes, ℤ, pos, negsuc, decimal_loop, decimal, print_int, wrap_int, to_int, skip_space, signed,
  atoi,
}

abbrev pub AllDigits : Bytes → Type 0
AllDigits [] = Unit
AllDigits (c ∷ s) = (b'0' ≤ c) × (c ≤ b'9') × AllDigits s

decimal_loop-AllDigits :
    (fuel n : ℕ) (acc : Bytes) → AllDigits acc → AllDigits (decimal_loop fuel n acc)
unfolding decimal_loop
decimal_loop-AllDigits zero n acc h = h
decimal_loop-AllDigits (suc fuel) n acc h =
    let here : AllDigits ((b'0' + n % 10) ∷ acc) = (omega arith, omega arith, h) in
    ground (arith, decimal_loop-AllDigits fuel (n / 10) ((b'0' + n % 10) ∷ acc) here)

pub decimal-AllDigits : (n : ℕ) → AllDigits (decimal n)
unfolding decimal
decimal-AllDigits n = decimal_loop-AllDigits (suc n) n [] tt

decimal_loop-length :
    (k fuel n : ℕ) (acc : Bytes)
    → n < 10 ^ suc k
    → length (decimal_loop fuel n acc) ≤ suc k + length acc
unfolding decimal_loop
decimal_loop-length k zero n acc h = omega arith
decimal_loop-length zero (suc fuel) n acc h = let small : n / 10 ≡ 0 = omega arith in ground arith
decimal_loop-length (suc k) (suc fuel) n acc h =
    let step : n / 10 < 10 ^ suc k = omega (arith, pow-suc 10 (suc k)) in
    ground (arith, decimal_loop-length k fuel (n / 10) ((b'0' + n % 10) ∷ acc) step)

pub decimal-length : (k n : ℕ) → n < 10 ^ suc k → length (decimal n) ≤ suc k
unfolding decimal
decimal-length k n h = omega (arith, decimal_loop-length k (suc n) n [] h)

-- The range of an `int`.
abbrev pub IsInt : ℤ → Type 0
IsInt (pos n) = n < 2 ^ 31
IsInt (negsuc n) = n < 2 ^ 31

pub wrap_int-IsInt : (w : ℕ) → IsInt (wrap_int w)
unfolding wrap_int
wrap_int-IsInt w = ground arith

to_int-IsInt : (negative : Bool) (n : ℕ) → IsInt (to_int negative n)
unfolding to_int
to_int-IsInt true n = wrap_int-IsInt _
to_int-IsInt false n = wrap_int-IsInt _

signed-IsInt : (s : Bytes) → IsInt (signed s)
unfolding signed
signed-IsInt [] = omega arith
signed-IsInt (c ∷ s) = elim (Bool-cases (c == b'-')) [
  | inl e ↦ rw e (to_int-IsInt true _)
  | inr e ↦ rw e (to_int-IsInt false _)
]

-- `atoi` gives an `int`, whatever the text.
pub atoi-IsInt : (s : Bytes) → IsInt (atoi s)
unfolding atoi
atoi-IsInt s = signed-IsInt (skip_space s)

pub print_int-length : (z : ℤ) → IsInt z → length (print_int z) ≤ 11
unfolding print_int
print_int-length (pos n) h = omega (arith, decimal-length 9 n (omega arith))
print_int-length (negsuc n) h = omega (arith, decimal-length 9 (suc n) (omega arith))
