-- ===== src/Main/Quotes.antt =====
-- Quotes in the statements of server/main.c: how a statement falls into pieces at its single quotes,
-- and what `normalize_string` and `normalize_query_value` do to a value.
use pal_ft.Base.{
  ℕ, zero, suc, ◌+◌, ◌-◌, ◌≤◌, ◌≡◌, refl, ap, ◌∙◌, ◌≢◌, Bool, true, false, List, [], ◌∷◌, ◌++◌, map,
  arith, ◌==◌, ==_iff, Bool-cases, inl, inr, if◌then◌else◌, length, length-append, length-map, take,
}
use pal_ft.Libc.{Bytes, snprintf, ℤ, pos, negsuc, print_int}
use pal_ft.Libc.Digits.{AllDigits, decimal-AllDigits}
use pal_ft.Main.{normalize_string, normalize_query_value}

abbrev pub quote : ℕ
quote = b'\''

-- No single quote.
abbrev pub IsClean : Bytes → Type 0
IsClean [] = Unit
IsClean (c ∷ s) = (c ≢ quote) × IsClean s

unfoldable pub cons_head : ℕ → List Bytes → List Bytes
cons_head c [] = (c ∷ []) ∷ []
cons_head c (piece ∷ pieces) = (c ∷ piece) ∷ pieces

-- The pieces between the single quotes. With `standard_conforming_strings`, the default of
-- PostgreSQL, the pieces at odd places are the literals of the statement, as long as none between
-- two literals is empty.
unfoldable pub split_quotes : Bytes → List Bytes
unfolding cons_head
split_quotes [] = [] ∷ []
split_quotes (c ∷ s) = if c == quote then [] ∷ split_quotes s else cons_head c (split_quotes s)

pub split_quotes-append :
    (a rest : Bytes) → IsClean a → split_quotes (a ++ quote ∷ rest) ≡ a ∷ split_quotes rest
unfolding split_quotes
split_quotes-append [] rest clean = refl
split_quotes-append (c ∷ a) rest (ne, clean) = ground (arith, split_quotes-append a rest clean)

pub split_quotes_end : (a : Bytes) → IsClean a → split_quotes a ≡ a ∷ []
unfolding split_quotes
split_quotes_end [] clean = refl
split_quotes_end (c ∷ a) (ne, clean) = ground (arith, split_quotes_end a clean)

-- A value that was normalised holds no single quote.
pub normalize_string-IsClean : (s : Bytes) → IsClean (normalize_string s)
unfolding normalize_string
normalize_string-IsClean [] = tt
normalize_string-IsClean (c ∷ s) = (ground arith, normalize_string-IsClean s)

pub normalize_query_value-IsClean : (s : Bytes) → IsClean s → IsClean (normalize_query_value s)
unfolding normalize_query_value
normalize_query_value-IsClean [] h = tt
normalize_query_value-IsClean (c ∷ s) (ne, h) = (ground arith, normalize_query_value-IsClean s h)

pub length-normalize_string : (s : Bytes) → length (normalize_string s) ≡ length s
unfolding normalize_string
length-normalize_string s = length-map s _

pub length-normalize_query_value : (s : Bytes) → length (normalize_query_value s) ≡ length s
unfolding normalize_query_value
length-normalize_query_value s = length-map s _

take_all {ℓ} : {A : Type ℓ} (n : ℕ) (xs : List A) → length xs ≤ n → take n xs ≡ xs
take_all zero [] h = refl
take_all zero (x ∷ xs) h = absurd (omega arith)
take_all (suc n) [] h = refl
take_all (suc n) (x ∷ xs) h = ap (λ ys. x ∷ ys) (take_all n xs (omega arith))

-- A text that fits is not cut.
pub snprintf_whole : (size : ℕ) (text : Bytes) → length text + 1 ≤ size → snprintf size text ≡ text
unfolding snprintf
snprintf_whole size text h = take_all (size - 1) text (omega arith)

-- Through the buffer, the pieces of a text that fits.
pub split_quotes-snprintf :
    (size : ℕ) (text : Bytes) {pieces : List Bytes}
    → length text + 1 ≤ size
    → split_quotes text ≡ pieces
    → split_quotes (snprintf size text) ≡ pieces
split_quotes-snprintf size text fits h = ap split_quotes (snprintf_whole size text fits) ∙ h

-- A normalised value before a quote is a piece.
pub split_quotes-string :
    (s rest : Bytes)
    → split_quotes (normalize_string s ++ quote ∷ rest) ≡ normalize_string s ∷ split_quotes rest
split_quotes-string s rest =
    split_quotes-append (normalize_string s) rest (normalize_string-IsClean s)

pub split_quotes-query_value :
    (s rest : Bytes)
    → split_quotes (normalize_query_value (normalize_string s) ++ quote ∷ rest)
      ≡ normalize_query_value (normalize_string s) ∷ split_quotes rest
split_quotes-query_value s rest =
    split_quotes-append _ rest
      (normalize_query_value-IsClean (normalize_string s) (normalize_string-IsClean s))

-- The lengths in a statement.
pub ruleset lengths = (length-append, length-normalize_string, length-normalize_query_value)

AllDigits-IsClean : (s : Bytes) → AllDigits s → IsClean s
AllDigits-IsClean [] h = tt
AllDigits-IsClean (c ∷ s) (low, high, h) = (omega arith, AllDigits-IsClean s h)

-- A printed number holds no quote.
pub print_int-IsClean : (z : ℤ) → IsClean (print_int z)
unfolding print_int
print_int-IsClean (pos n) = AllDigits-IsClean _ (decimal-AllDigits n)
print_int-IsClean (negsuc n) = (omega arith, AllDigits-IsClean _ (decimal-AllDigits (suc n)))

pub append-IsClean : (a b : Bytes) → IsClean a → IsClean b → IsClean (a ++ b)
append-IsClean [] b h k = k
append-IsClean (c ∷ a) b (ne, h) k = (ne, append-IsClean a b h k)
