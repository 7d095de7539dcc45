-- ===== src/Libc.antt =====
-- What the program uses of the C library, over byte strings: a `char *` is the list of its bytes up
-- to the terminator. `str_eq` is `strcmp(a, b) == 0`, `starts_with` is `strncmp` of a literal's
-- length. A literal of the program with letters outside ASCII occurs only in log messages.
pub mod Digits
pub mod Stops
use Prim.Native.Char.{code}
use Prim.Native.String.{String}
use Prim.Native.Nat.{min}
use pal_ft.Base.{
  ℕ, zero, suc, ◌+◌, ◌-◌, ◌*◌, ◌/◌, ◌%◌, ◌^◌, ◌≡◌, refl, ◌↔◌, Bool, true, false, ◌&&◌, ◌||◌, List,
  [], ◌∷◌, arith, ltb, leb, ◌==◌, if◌then◌else◌, take, Outcome, ok, fault,
}

abbrev pub Bytes : Type 0
Bytes = List ℕ

abbrev pub codes : String → Bytes
codes String.[] = []
codes (String.◌∷◌ c s) = code c ∷ codes s

-- `strcmp(a, b) == 0`
unfoldable pub str_eq : Bytes → Bytes → Bool
str_eq [] [] = true
str_eq [] (_ ∷ _) = false
str_eq (_ ∷ _) [] = false
str_eq (a ∷ xs) (b ∷ ys) = a == b && str_eq xs ys

-- `strncmp(s, prefix, strlen(prefix)) == 0`
unfoldable pub starts_with : Bytes → Bytes → Bool
starts_with [] s = true
starts_with (_ ∷ _) [] = false
starts_with (a ∷ xs) (b ∷ ys) = a == b && starts_with xs ys

-- What `snprintf` leaves in a buffer of `size` bytes: the text, cut before the terminator.
unfoldable pub snprintf : ℕ → Bytes → Bytes
snprintf size text = take (size - 1) text

-- A C `int`, and the numbers that `strtol` ranges over; `negsuc n` is -(n + 1).
pub data ℤ : Type 0 where
  pos : ℕ → ℤ
  negsuc : ℕ → ℤ

-- `a + b` on `int`, where an overflow is undefined.
unfoldable pub add_int : ℤ → ℤ → Outcome ℤ
add_int (pos a) (pos b) = if ltb (a + b) (2 ^ 31) then ok (pos (a + b)) else fault
add_int (pos a) (negsuc b) = if ltb b a then ok (pos (a - (b + 1))) else ok (negsuc (b - a))
add_int (negsuc a) (pos b) = if ltb a b then ok (pos (b - (a + 1))) else ok (negsuc (a - b))
add_int (negsuc a) (negsuc b) = if ltb (a + b + 1) (2 ^ 31) then ok (negsuc (a + b + 1)) else fault

decimal_loop : ℕ → ℕ → Bytes → Bytes
decimal_loop zero n acc = acc
decimal_loop (suc fuel) n acc =
    let here = (b'0' + n % 10) ∷ acc in
    let rest = decimal_loop fuel (n / 10) here in if n / 10 == 0 then here else rest

-- `%d`, `%zu` of a number that is not negative. It has at most `n + 1` digits.
unfoldable pub decimal : ℕ → Bytes
unfolding decimal_loop
decimal n = decimal_loop (suc n) n []

-- `%d`
unfoldable pub print_int : ℤ → Bytes
unfolding decimal
print_int (pos n) = decimal n
print_int (negsuc n) = b'-' ∷ decimal (suc n)

-- `isspace` in the C locale
is_space : ℕ → Bool
is_space c = c == 32 || leb 9 c && leb c 13

is_digit : ℕ → Bool
is_digit c = leb b'0' c && leb c b'9'

skip_space : Bytes → Bytes
unfolding is_space
skip_space [] = []
skip_space (c ∷ s) = if is_space c then skip_space s else c ∷ s

read_digits : ℕ → Bytes → ℕ
unfolding is_digit
read_digits n [] = n
read_digits n (c ∷ s) =
    let rest = read_digits (n * 10 + (c - b'0')) s in if is_digit c then rest else n

-- The low 32 bits of a `long`, as an `int`.
unfoldable pub wrap_int : ℕ → ℤ
wrap_int w = let v = w % 2 ^ 32 in if ltb v (2 ^ 31) then pos v else negsuc (2 ^ 32 - v - 1)

-- `strtol` stops at the ends of the 64-bit `long`; the cast to `int` keeps 32 bits.
to_int : Bool → ℕ → ℤ
unfolding wrap_int
to_int false n = wrap_int (min n (2 ^ 63 - 1))
to_int true n = wrap_int (2 ^ 64 - min n (2 ^ 63))

signed : Bytes → ℤ
unfolding to_int read_digits
signed [] = pos 0
signed (c ∷ s) =
    if c == b'-'
    then to_int true (read_digits 0 s)
    else to_int false (read_digits 0 (if c == b'+' then s else c ∷ s))

-- `atoi`, which glibc computes as `(int) strtol(s, NULL, 10)`
unfoldable pub atoi : Bytes → ℤ
unfolding skip_space signed
atoi s = signed (skip_space s)

-- The value of a digit to the base 16; 16 for any other character.
unfoldable pub hex_digit : ℕ → ℕ
hex_digit c =
    if leb b'0' c && leb c b'9'
    then c - b'0'
    else if leb b'a' c && leb c b'f'
    then c - b'a' + 10
    else if leb b'A' c && leb c b'F'
    then c - b'A' + 10
    else 16

unfoldable pub read_hex : ℕ → Bytes → ℕ
unfolding hex_digit
read_hex n [] = n
read_hex n (c ∷ s) =
    let rest = read_hex (n * 16 + hex_digit c) s in if ltb (hex_digit c) 16 then rest else n

-- The prefix `0x` before a digit.
unfoldable pub skip_0x : Bytes → Bytes
unfolding hex_digit
skip_0x (z ∷ x ∷ d ∷ s) =
    if z == b'0' && (x == b'x' || x == b'X') && ltb (hex_digit d) 16 then d ∷ s else z ∷ x ∷ d ∷ s
skip_0x s = s

minus : ℕ → ℤ
minus zero = pos 0
minus (suc n) = negsuc n

-- `strtol(s, NULL, 16)` of up to four characters
unfoldable pub hex_long : Bytes → ℤ
unfolding skip_space read_hex skip_0x minus
hex_long s = elim (skip_space s) [
  | [] ↦ pos 0
  | c ∷ text ↦
      if c == b'-'
      then minus (read_hex 0 (skip_0x text))
      else pos (read_hex 0 (skip_0x (if c == b'+' then text else c ∷ text)))
]

pub str_eq_iff : (a b : Bytes) → (str_eq a b ≡ true) ↔ (a ≡ b)
unfolding str_eq
str_eq_iff [] [] = ground arith
str_eq_iff [] (_ ∷ _) = ground arith
str_eq_iff (_ ∷ _) [] = ground arith
str_eq_iff (a ∷ xs) (b ∷ ys) = ground (arith, str_eq_iff xs ys)

pub str_eq_refl : (a : Bytes) → str_eq a a ≡ true
str_eq_refl a = (str_eq_iff a a).1 refl
