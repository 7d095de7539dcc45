-- ===== src/HttpParser/Text.antt =====
-- The text of a request, and what server/libs/httpparser.c cuts out of it.
use pal_ft.Base.{
  ℕ, ◌+◌, ◌-◌, ◌≤◌, ◌<◌, ◌≡◌, refl, ap, ◌∙◌, List, [], ◌∷◌, ◌++◌, map, arith, length, length-append,
  take, Bool, true, false, if◌then◌else◌, lt→ltb, le→leb, ok,
}
use pal_ft.HttpParser.{slice, copy, c_text, to_lower_case}
use pal_ft.HttpServer.{Header}
use pal_ft.Libc.{Bytes, codes, str_eq, ℤ, atoi}
use pal_ft.Libc.Digits.{AllDigits}
use pal_ft.Libtstr.Finds.{Without, NoZero, drop-append}
use pal_ft.Libtstr.Finds.Blank.{lines, crlf, AreLines}

abbrev pub request_line : Bytes → Bytes → Bytes
request_line method path = method ++ (32 ∷ (path ++ codes " HTTP/1.1"))

abbrev pub header_line : Header → Bytes
header_line (key, value) = key ++ (codes ": " ++ value)

-- A request up to its blank line, with what follows it in the buffer.
abbrev pub request_text : Bytes → Bytes → List Header → Bytes → Bytes
request_text method path headers rest =
    lines (request_line method path ∷ map header_line headers) ++ (crlf ++ rest)

abbrev pub is_length : Header → Bool
is_length h = str_eq (to_lower_case h.0) (codes "content-length")

-- The length of the body that the headers announce, where `n` is the one so far.
abbrev pub announced : ℤ → List Header → ℤ
announced n [] = n
announced n (h ∷ hs) = announced (if is_length h then atoi h.1 else n) hs

-- A header that fits. The body is not in chunks, and its length is a number.
pub record IsPlain (h : Header) : Type 0 where
  pub key_text : Without 58 h.0
  pub key_line : Without 13 h.0
  pub value_line : Without 13 h.1
  pub key_some : 1 ≤ length h.0
  pub key_fits : length h.0 < 64
  pub value_fits : length h.1 < 1024
  pub number : is_length h ≡ true → AllDigits h.1 × (1 ≤ length h.1)
  pub no_encoding : str_eq (to_lower_case h.0) (codes "transfer-encoding") ≡ false

abbrev pub ArePlain : List Header → Type 0
ArePlain [] = Unit
ArePlain (h ∷ hs) = IsPlain h × ArePlain hs

pub Without-append : (x : ℕ) (a b : Bytes) → Without x a → Without x b → Without x (a ++ b)
Without-append x [] b h k = k
Without-append x (c ∷ a) b (z, n, h) k = (z, n, Without-append x a b h k)

pub Without-NoZero : (x : ℕ) (a : Bytes) → Without x a → NoZero a
Without-NoZero x [] h = tt
Without-NoZero x (c ∷ a) (z, n, h) = (z, Without-NoZero x a h)

pub header_line-Without : (h : Header) → IsPlain h → Without 13 (header_line h)
header_line-Without (key, value) p =
    Without-append 13 key _ p.key_line (refl, refl, (refl, refl, p.value_line))

nonempty_line :
    (l : Bytes) (ls : List Bytes) → 1 ≤ length l → Without 13 l → AreLines ls → AreLines (l ∷ ls)
nonempty_line [] ls h w good = absurd (omega arith)
nonempty_line (c ∷ l) ls h w good = (w, good)

pub header_lines-AreLines : (hs : List Header) → ArePlain hs → AreLines (map header_line hs)
header_lines-AreLines [] h = tt
header_lines-AreLines (h ∷ hs) (p, ps) =
    nonempty_line (header_line h) (map header_line hs)
      (omega (arith, p.key_some, length-append h.0 (codes ": " ++ h.1))) (header_line-Without h p)
      (header_lines-AreLines hs ps)

pub c_text-NoZero : (t : Bytes) → NoZero t → c_text t ≡ t
unfolding c_text
c_text-NoZero [] h = refl
c_text-NoZero (c ∷ t) (z, h) = rw (z, c_text-NoZero t h) refl

take-append : (a b : Bytes) → take (length a) (a ++ b) ≡ a
take-append [] b = refl
take-append (c ∷ a) b = ap (λ s. c ∷ s) (take-append a b)

pub c_text-append : (t b : Bytes) → NoZero t → c_text (t ++ b) ≡ t ++ c_text b
unfolding c_text
c_text-append [] b h = refl
c_text-append (c ∷ t) b (z, h) = rw (z, c_text-append t b h) refl

pub slice-append : (a t b : Bytes) → slice (a ++ (t ++ b)) (length a) (length a + length t) ≡ ok t
unfolding slice
slice-append a t b =
    rw
      (
        le→leb (length a) (length a + length t) (omega arith),
        le→leb (length a + length t) (length (a ++ (t ++ b)))
            (omega (arith, length-append a (t ++ b), length-append t b)),
        drop-append a (t ++ b),
      )
      (ap (λ n. ok (take n (t ++ b)))
          (let e : length a + length t - length a ≡ length t = omega arith in e)
        ∙ ap ok (take-append t b))

pub copy-append :
    (size : ℕ) (a t b : Bytes)
    → NoZero t
    → length t < size
    → copy size (a ++ (t ++ b)) (length a) (length a + length t) ≡ ok t
unfolding copy
copy-append size a t b h fits =
    rw
      (
        slice-append a t b,
        lt→ltb (length a + length t - length a) size (omega (arith, fits)),
        c_text-NoZero t h,
      )
      refl
