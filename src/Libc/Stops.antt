-- ===== src/Libc/Stops.antt =====
-- `atoi` reads no further than the digits of a number.
use pal_ft.Base.{ℕ, ◌+◌, ◌-◌, ◌*◌, ◌≤◌, ◌≡◌, refl, ap, false, [], ◌∷◌, ◌++◌, arith, length, ◌==◌}
use pal_ft.Libc.{Bytes, atoi, signed, skip_space, is_space, is_digit, read_digits, to_int}
use pal_ft.Libc.Digits.{AllDigits}

read_digits-stop :
    (n : ℕ) (v w : Bytes) → AllDigits v → read_digits n (v ++ (13 ∷ w)) ≡ read_digits n v
unfolding read_digits
read_digits-stop n [] w h = unfold is_digit in refl
read_digits-stop n (c ∷ v) w (low, high, h) = rw (read_digits-stop (n * 10 + (c - b'0')) v w h) refl

-- What follows the line of a number does not matter.
pub atoi-line : (v w : Bytes) → AllDigits v → 1 ≤ length v → atoi (v ++ (13 ∷ w)) ≡ atoi v
unfolding atoi skip_space signed
atoi-line [] w h some_digit = absurd (omega arith)
atoi-line (c ∷ v) w (low, high, h) some_digit =
    let no_space : is_space c ≡ false = unfold is_space in ground arith in
    let no_minus : (c == b'-') ≡ false = ground arith in
    let no_plus : (c == b'+') ≡ false = ground arith in
    rw (no_space, no_minus, no_plus)
      (ap (to_int false) (read_digits-stop 0 (c ∷ v) w (low, high, h)))
