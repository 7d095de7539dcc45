-- ===== src/Libtstr/Finds/Blank.antt =====
-- The blank line behind the head of a request, as server/libs/httpparser.c looks for it.
use pal_ft.Base.{
  ℕ, suc, ◌+◌, ◌≤◌, ◌≡◌, refl, ap, ◌∙◌, none, some, List, [], ◌∷◌, ◌++◌, arith, length,
  append_assoc, length-append, ok,
}
use pal_ft.Libc.{Bytes}
use pal_ft.Libtstr.{pattern_at, tstr_find_between}
use pal_ft.Libtstr.Finds.{
  Without, at, find, find_skip, find_here, find_more, find_other, find_start, NoZero-Tail,
}

-- The end of a head of lines, none of which but the first is empty: a blank line.
abbrev pub crlf : Bytes
crlf = 13 ∷ 10 ∷ []

abbrev pub lines : List Bytes → Bytes
lines [] = []
lines (l ∷ ls) = l ++ (crlf ++ lines ls)

abbrev pub AreLines : List Bytes → Type 0
AreLines [] = Unit
AreLines ([] ∷ ls) = ⊥
AreLines ((c ∷ l) ∷ ls) = Without 13 (c ∷ l) × AreLines ls

find_blank :
    (ls : List Bytes) (l : Bytes) (i : ℕ) (rest : Bytes)
    → Without 13 l
    → AreLines ls
    → 1 ≤ i
    → find 13 (10 ∷ crlf) 0 0 (at 0 0 0) i (l ++ (crlf ++ (lines ls ++ (crlf ++ rest))))
      ≡ ok (record { start = 0; stop = i + length l + length (lines ls) })
unfolding pattern_at
find_blank [] l i rest w good h =
    find_skip 13 (10 ∷ crlf) 0 0 l i (crlf ++ (crlf ++ rest)) w
    ∙ find_here 13 (10 ∷ crlf) 0 0 (i + length l) rest
        (NoZero-Tail 13 (10 ∷ crlf) 0 0 [] (13 ∷ 10 ∷ crlf) 0 refl refl
          (refl, (refl, (refl, (refl, tt)))))
        (ground arith)
    ∙ ap (λ k. ok (record { start = 0; stop = k })) (omega arith)
find_blank ([] ∷ ls) l i rest w good h = absurd good
find_blank ((c ∷ m) ∷ ls) l i rest w ((z, n, m_clear), good) h =
    find_skip 13 (10 ∷ crlf) 0 0 l i _ w
    ∙ find_more 13 (10 ∷ crlf) 0 0 0 0 (i + length l) 13 10 _ refl refl refl refl
    ∙ find_more 13 (10 ∷ crlf) 0 0 (i + length l) 1 (i + length l + 1) 10 13 _ refl refl refl refl
    ∙ find_other 13 (10 ∷ crlf) 0 0 _ 2 (i + length l + 1 + 1) c 13 _ refl z n
    ∙ ap (find 13 (10 ∷ crlf) 0 0 (at 0 0 0) (i + length l + 1 + 1 + 1))
        (append_assoc m (crlf ++ lines ls) (crlf ++ rest))
    ∙ find_blank ls m (i + length l + 1 + 1 + 1) rest m_clear good (omega arith)
    ∙ ap (λ k. ok (record { start = 0; stop = k })) (simp length-append (omega arith))

-- The head of a request, up to the blank line.
pub tstr_find_between-blank :
    (c : ℕ) (l : Bytes) (ls : List Bytes) (rest : Bytes)
    → AreLines ((c ∷ l) ∷ ls)
    → tstr_find_between (lines ((c ∷ l) ∷ ls) ++ (crlf ++ rest)) none 0 (some (13 ∷ 10 ∷ crlf)) 0
      ≡ ok (record { start = 0; stop = suc (length l) + length (lines ls) })
unfolding tstr_find_between
tstr_find_between-blank c l ls rest ((z, n, w), good) =
    find_start 13 (10 ∷ crlf) 0 0 _
    ∙ ap (find 13 (10 ∷ crlf) 0 0 (at 0 0 0) 0)
        (ap (λ t. c ∷ t) (append_assoc l (crlf ++ lines ls) (crlf ++ rest)))
    ∙ find_skip 13 (10 ∷ crlf) 0 0 (c ∷ []) 0 _ (z, n, tt)
    ∙ find_blank ls l 1 rest w good (omega arith)
    ∙ ap (λ k. ok (record { start = 0; stop = k })) (omega arith)
