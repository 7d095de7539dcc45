-- ===== src/Libtstr.antt =====
-- server/libs/libtstr.c: the searches in a C string. The string stands at the front of a buffer, and
-- a read past the buffer is a fault. `tstr_append` is with the responses in HttpServer.
pub mod Finds
use pal_ft.Base.{
  ℕ, zero, suc, ◌+◌, Option, none, some, List, [], ◌∷◌, ltb, ◌==◌, not, Bool, true, false,
  if◌then◌else◌, length, drop, get_or, Outcome, ok, fault, ◌>>=◌,
}
use pal_ft.Libc.{Bytes}

-- struct tstr_string_token
pub record Token : Type 0 where
  pub start : ℕ
  pub stop : ℕ

-- Where the function stands at a character: at the head of the outer loop, inside the start pattern,
-- or in the inner loop, which looks for the end pattern.
pub data Mode : Type 0 where
  seeking matching scanning : Mode

pub record Finder : Type 0 where
  pub mode : Mode
  pub start : ℕ
  pub stop : ℕ
  pub j : ℕ

-- What a character leads to: `return`, the next character, or a `break` to the end of the outer loop.
pub data Turn : Type 0 where
  done : Finder → Turn
  advance : Finder → Turn
  leave : Finder → Turn

-- `pattern[j]`, the terminator included
unfoldable pub pattern_at : Bytes → ℕ → Outcome ℕ
pattern_at [] zero = ok 0
pattern_at [] (suc j) = fault
pattern_at (c ∷ pattern) zero = ok c
pattern_at (c ∷ pattern) (suc j) = pattern_at pattern j

-- The body of the inner loop.
unfoldable pub scan_char : Option Bytes → Finder → ℕ → ℕ → Outcome Turn
scan_char none f i c = ok (if c == 0 then leave f else advance (record f { stop = i + 1 }))
scan_char (some pattern) f i c = if c == 0 then ok (leave f) else (do
  wanted ← pattern_at pattern f.j
  if c == wanted
      then (do
        after ← pattern_at pattern (f.j + 1)
        let g : Finder = record f { stop = if f.stop == 0 then i else f.stop; j = f.j + 1 }
        ok (if after == 0 then done g else advance g))
      else ok (advance (record f { stop = 0; j = 0 })))

-- The body of `while (1)`; where the start pattern is complete, the inner loop begins at its last
-- character.
unfoldable pub match_char : Bytes → Option Bytes → Finder → ℕ → ℕ → Outcome Turn
match_char pattern end f i c = do
  wanted ← pattern_at pattern f.j
  if not (c == wanted) then ok (leave (record f { j = 0; start = 0 })) else (do
    after ← pattern_at pattern (f.j + 1)
    if after == 0
        then scan_char end (record f { mode = scanning; start = i + 1; j = 0 }) i c
        else ok (advance (record f { mode = matching; j = f.j + 1 })))

unfoldable pub seek_char : Option Bytes → Option Bytes → Finder → ℕ → ℕ → Outcome Turn
seek_char none end f i c = scan_char end (record f { mode = scanning; start = i }) i c
seek_char (some pattern) end f i c = do
  first ← pattern_at pattern 0
  if c == first then match_char pattern end f i c else ok (leave f)

unfoldable pub find_char : Option Bytes → Option Bytes → Finder → ℕ → ℕ → Outcome Turn
find_char start end f i c = elim f.mode [
  | seeking ↦ seek_char start end f i c
  | matching ↦ elim start [ none ↦ fault | some pattern ↦ match_char pattern end f i c ]
  | scanning ↦ scan_char end f i c
]

abbrev pub token : Finder → Token
token f = record { start = f.start; stop = f.stop }

-- The test behind the loops.
unfoldable pub find_end : Finder → ℕ → Bytes → Outcome Token
find_end f i rest =
    if f.stop == 0
    then (elim rest [
      | [] ↦ fault
      | c ∷ _ ↦ ok (if c == 0 then record { start = f.start; stop = i } else token f)
    ])
    else ok (token f)

-- The rest of the function after a character.
abbrev pub turn : Turn → (Finder → Outcome Token) → (Finder → Outcome Token) → Outcome Token
turn (done f) more break = ok (token f)
turn (advance f) more break = more f
turn (leave f) more break = break f

-- The loops from index `i` on, where `text` is the buffer from there.
unfoldable pub find_loop : Option Bytes → Option Bytes → ℕ → Finder → ℕ → Bytes → Outcome Token
find_loop start end len f i [] = fault
find_loop start end len f i (c ∷ text) = find_char start end f i c >>= λ t.
    turn t (λ g. find_loop start end len g (i + 1) text)
      (λ g.
        let again = find_loop start end len (record g { mode = seeking }) (i + 1) text in
        if (if len == 0 then not (c == 0) else ltb (i + 1) len)
        then again
        else find_end g (i + 1) text)

unfoldable pub tstr_find_between : Bytes → Option Bytes → ℕ → Option Bytes → ℕ → Outcome Token
tstr_find_between str start start_index end len =
    find_loop start end len (record { mode = seeking; start = 0; stop = 0; j = 0 }) start_index
      (drop start_index str)

-- `tstr_find_amount` from the index on at which `str` begins.
unfoldable pub find_amount : Bytes → ℕ → ℕ → Bytes → Outcome ℕ
find_amount find j amount [] = fault
find_amount find j amount (c ∷ str) = if c == 0 then ok amount else (do
  wanted ← pattern_at find j
  if c == wanted
      then (do
        after ← pattern_at find (j + 1)
        if after == 0
            then find_amount find 0 (amount + 1) str
            else find_amount find (j + 1) amount str)
      else find_amount find 0 amount str)

unfoldable pub tstr_find_amount : Bytes → Bytes → Outcome ℕ
tstr_find_amount str find = find_amount find 0 0 str
