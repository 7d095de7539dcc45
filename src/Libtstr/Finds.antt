-- ===== src/Libtstr/Finds.antt =====
-- The calls of `tstr_find_between` in server/libs/httpparser.c: no start pattern.
pub mod Blank
use pal_ft.Base.{
  ℕ, zero, suc, ◌+◌, ◌≤◌, ◌<◌, ◌≡◌, ◌≢◌, refl, sym, ap, subst, ◌∙◌, Option, none, some, List, [],
  ◌∷◌, ◌++◌, arith, length, drop, Bool, true, false, ◌&&◌, not, ◌==◌, ==_iff, ==_refl, Bool-cases,
  inl, inr, append_assoc, append-nil, length-append, if◌then◌else◌, Outcome, ok, fault, ◌>>=◌,
}
use pal_ft.Libc.{Bytes}
use pal_ft.Libtstr.{
  Token, Mode, seeking, matching, scanning, Finder, Turn, done, advance, leave, pattern_at,
  scan_char, match_char, seek_char, find_char, token, find_end, turn, find_loop, tstr_find_between,
}

-- No byte of the text is the terminator or the given one.
abbrev pub Without : ℕ → Bytes → Type 0
Without x [] = Unit
Without x (c ∷ s) = ((c == 0) ≡ false) × ((c == x) ≡ false) × Without x s

abbrev pub NoZero : Bytes → Type 0
NoZero [] = Unit
NoZero (c ∷ s) = ((c == 0) ≡ false) × NoZero s

abbrev at : ℕ → ℕ → ℕ → Finder
at start stop j = record { mode = scanning; start = start; stop = stop; j = j }

module _ (x : ℕ) (pattern : Bytes) (len start : ℕ) where
  abbrev find : Finder → ℕ → Bytes → Outcome Token
  find = find_loop none (some (x ∷ pattern)) len

  find_skip :
      (s : Bytes) (i : ℕ) (rest : Bytes)
      → Without x s
      → find (at start 0 0) i (s ++ rest) ≡ find (at start 0 0) (i + length s) rest
  unfolding find_loop find_char scan_char pattern_at
  find_skip [] i rest h = rw (let e : i + 0 ≡ i = omega arith in e) refl
  find_skip (c ∷ s) i rest (z, n, h) =
      rw (z, n) (find_skip s (i + 1) rest h ∙ ap (λ k. find (at start 0 0) k rest) (omega arith))

  -- One character: of the pattern and not its last, the last one, or another one.
  find_more :
      (stop j i c d : ℕ) (text : Bytes)
      → pattern_at (x ∷ pattern) j ≡ ok c
      → (c == 0) ≡ false
      → pattern_at (x ∷ pattern) (j + 1) ≡ ok d
      → (d == 0) ≡ false
      → find (at start stop j) i (c ∷ text)
        ≡ find (at start (if stop == 0 then i else stop) (j + 1)) (i + 1) text
  unfolding find_loop find_char scan_char
  find_more stop j i c d text here z after z' = rw (z, here, ==_refl c, after, z') refl

  find_last :
      (stop j i c : ℕ) (text : Bytes)
      → pattern_at (x ∷ pattern) j ≡ ok c
      → (c == 0) ≡ false
      → pattern_at (x ∷ pattern) (j + 1) ≡ ok 0
      → find (at start stop j) i (c ∷ text)
        ≡ ok (record { start = start; stop = if stop == 0 then i else stop })
  unfolding find_loop find_char scan_char
  find_last stop j i c text here z after = rw (z, here, ==_refl c, after) refl

  find_other :
      (stop j i c w : ℕ) (text : Bytes)
      → pattern_at (x ∷ pattern) j ≡ ok w
      → (c == 0) ≡ false
      → (c == w) ≡ false
      → find (at start stop j) i (c ∷ text) ≡ find (at start 0 0) (i + 1) text
  unfolding find_loop find_char scan_char
  find_other stop j i c w text here z ne = rw (z, here, ne) refl

  -- What is left of the end pattern from index `j` on.
  abbrev pub Tail : ℕ → Bytes → Type 0
  Tail j [] = pattern_at (x ∷ pattern) j ≡ ok 0
  Tail j (c ∷ p) = (pattern_at (x ∷ pattern) j ≡ ok c) × ((c == 0) ≡ false) × Tail (j + 1) p

  find-Tail :
      (p : Bytes) (c stop j i : ℕ) (rest : Bytes)
      → Tail j (c ∷ p)
      → (stop == 0) ≡ false
      → find (at start stop j) i (c ∷ (p ++ rest)) ≡ ok (record { start = start; stop = stop })
  find-Tail [] c stop j i rest (here, z, end) s =
      find_last stop j i c rest here z end
      ∙ ap (λ (b : Bool). ok (record { start = start; stop = if b then i else stop })) s
  find-Tail (d ∷ p) c stop j i rest (here, z, (after, z', t)) s =
      find_more stop j i c d (d ∷ (p ++ rest)) here z after z'
      ∙ ap (λ (b : Bool). find (at start (if b then i else stop) (j + 1)) (i + 1) (d ∷ (p ++ rest)))
          s
      ∙ find-Tail p d stop (j + 1) (i + 1) rest (after, z', t) s

  -- The pattern stands here.
  pub find_here :
      (i : ℕ) (rest : Bytes)
      → Tail 0 (x ∷ pattern)
      → (i == 0) ≡ false
      → find (at start 0 0) i (x ∷ (pattern ++ rest)) ≡ ok (record { start = start; stop = i })
  find_here i rest t h = go pattern t
    where
      go :
          (p : Bytes)
          → (pattern_at (x ∷ pattern) 0 ≡ ok x) × ((x == 0) ≡ false) × Tail 1 p
          → find (at start 0 0) i (x ∷ (p ++ rest)) ≡ ok (record { start = start; stop = i })
      go [] (here, z, end) = find_last 0 0 i x rest here z end
      go (d ∷ p) (here, z, (after, z', t)) =
          find_more 0 0 i x d (d ∷ (p ++ rest)) here z after z'
          ∙ find-Tail p d i 1 (i + 1) rest (after, z', t) h

  find_start :
      (text : Bytes)
      → find_loop none
          (some (x ∷ pattern))
          len
          (record { mode = seeking; start = 0; stop = 0; j = 0 })
          start
          text
        ≡ find (at start 0 0) start text
  unfolding find_loop find_char seek_char
  find_start [] = refl
  find_start (c ∷ text) = refl

pattern_at_here : (a b : Bytes) (c : ℕ) → pattern_at (a ++ c ∷ b) (length a) ≡ ok c
unfolding pattern_at
pattern_at_here [] b c = refl
pattern_at_here (d ∷ a) b c = pattern_at_here a b c

pattern_at_end : (a : Bytes) → pattern_at a (length a) ≡ ok 0
unfolding pattern_at
pattern_at_end [] = refl
pattern_at_end (d ∷ a) = pattern_at_end a

NoZero-Tail :
    (x : ℕ) (pattern : Bytes) (len start : ℕ) (a b : Bytes) (j : ℕ)
    → x ∷ pattern ≡ a ++ b
    → j ≡ length a
    → NoZero b
    → Tail x pattern len start j b
NoZero-Tail x pattern len start a [] j e at_j h =
    subst (λ w. pattern_at w j ≡ ok 0) (sym (e ∙ append-nil a))
      (subst (λ k. pattern_at a k ≡ ok 0) (sym at_j) (pattern_at_end a))
NoZero-Tail x pattern len start a (c ∷ b) j e at_j (z, h) = (
  subst (λ w. pattern_at w j ≡ ok c) (sym e)
      (subst (λ k. pattern_at (a ++ c ∷ b) k ≡ ok c) (sym at_j) (pattern_at_here a b c)),
  z,
  NoZero-Tail x pattern len start (a ++ c ∷ []) b (j + 1) (e ∙ sym (append_assoc a (c ∷ []) b))
      (omega (arith, at_j, length-append a (c ∷ []))) h,
)

pub drop-append : (a b : Bytes) → drop (length a) (a ++ b) ≡ b
drop-append [] b = refl
drop-append (c ∷ a) b = drop-append a b

-- The search from an index on, with no start pattern, returns that index and where the end pattern
-- first begins, if the text before it has none of its first character and no zero byte, the
-- pattern is not empty, and it does not begin at index 0.
pub tstr_find_between_first :
    (before p rest : Bytes) (x : ℕ) (pattern : Bytes) (len : ℕ)
    → NoZero (x ∷ pattern)
    → Without x p
    → 1 ≤ length before + length p
    → tstr_find_between
        (before ++ (p ++ (x ∷ (pattern ++ rest))))
        none
        (length before)
        (some (x ∷ pattern))
        len
      ≡ ok (record { start = length before; stop = length before + length p })
unfolding tstr_find_between
tstr_find_between_first before p rest x pattern len good clear positive =
    ap
      (find_loop none (some (x ∷ pattern)) len
        (record { mode = seeking; start = 0; stop = 0; j = 0 }) (length before))
      (drop-append before (p ++ (x ∷ (pattern ++ rest))))
    ∙ find_start x pattern len (length before) (p ++ (x ∷ (pattern ++ rest)))
    ∙ find_skip x pattern len (length before) p (length before) (x ∷ (pattern ++ rest)) clear
    ∙ find_here x pattern len (length before) (length before + length p) rest
        (NoZero-Tail x pattern len (length before) [] (x ∷ pattern) 0 refl refl good) (ground arith)
