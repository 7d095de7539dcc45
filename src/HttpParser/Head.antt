-- ===== src/HttpParser/Head.antt =====
-- The head of a request in server/libs/httpparser.c: where its method and its blank line are found.
use pal_ft.Base.{
  ◌+◌, ◌≤◌, ◌≡◌, refl, sym, ap, subst, ◌∙◌, List, [], ◌∷◌, ◌++◌, arith, length, Bool-cases, inl,
  inr, true, ok,
}
use pal_ft.HttpParser.{find, blank_line, methods, among}
use pal_ft.HttpParser.Text.{request_line, Without-append}
use pal_ft.Libc.{Bytes, codes, str_eq, str_eq_iff}
use pal_ft.Libtstr.Finds.{Without, tstr_find_between_first}
use pal_ft.Libtstr.Finds.Blank.{lines, crlf, AreLines, tstr_find_between-blank}

-- What the parser needs of a method besides its length.
abbrev pub IsWord : Bytes → Type 0
IsWord m = Without 32 m × Without 13 m × (1 ≤ length m)

abbrev AllWords : List Bytes → Type 0
AllWords [] = Unit
AllWords (m ∷ ms) = IsWord m × AllWords ms

pub methods_words : AllWords methods
methods_words = ground arith

pub among-IsWord : (m : Bytes) (ms : List Bytes) → AllWords ms → among m ms ≡ true → IsWord m
among-IsWord m [] h e = cc
among-IsWord m (k ∷ ms) (w, ws) e = elim (Bool-cases (str_eq m k)) [
  | inl same ↦ subst IsWord (sym ((str_eq_iff m k).0 same)) w
  | inr other ↦ among-IsWord m ms ws (rw other at e)
]

pub find_head :
    (l : Bytes) (ls : List Bytes) (rest : Bytes)
    → AreLines (l ∷ ls)
    → find (lines (l ∷ ls) ++ (crlf ++ rest)) 0 blank_line 0
      ≡ ok (record { start = 0; stop = length l + length (lines ls) })
find_head [] ls rest h = absurd h
find_head (c ∷ l) ls rest h = tstr_find_between-blank c l ls rest h

pub request_line-AreLines :
    (m p : Bytes) (ls : List Bytes)
    → IsWord m
    → Without 13 p
    → AreLines ls
    → AreLines (request_line m p ∷ ls)
request_line-AreLines [] p ls w h good = absurd (omega (arith, w.2))
request_line-AreLines (c ∷ m) p ls w h good = (
  Without-append 13 (c ∷ m) _ w.1
      (refl, refl, Without-append 13 p (codes " HTTP/1.1") h (ground arith)),
  good,
)

pub find_method :
    (m b : Bytes)
    → IsWord m
    → find (m ++ (32 ∷ b)) 0 (codes " ") 0 ≡ ok (record { start = 0; stop = length m })
find_method m b is =
    tstr_find_between_first [] m b 32 [] 0 (refl, tt) is.0 (omega (arith, is.2))
    ∙ ap (λ n. ok (record { start = 0; stop = n })) (omega arith)
