-- ===== src/QueryParser/Spelled.antt =====
-- What the arrays of server/libs/queryparser.c spell, and what a key finds in them.
use mathlib.Core.Option
use pal_ft.Base.{
  ℕ, zero, suc, ◌+◌, ◌≤◌, ◌<◌, ◌≡◌, refl, subst, sym, ap, ◌∙◌, false, Option, none, some, List, [],
  ◌∷◌, ◌++◌, arith, length, ◌==◌, ==_refl, Bool-cases, inl, inr, if◌then◌else◌,
}
use pal_ft.Libc.{Bytes, str_eq}
use pal_ft.QueryParser.{Query, update, c_string, value_of, matches, find_query}

-- A character that the parser copies.
abbrev pub IsText : ℕ → Type 0
IsText c =
    ((c == b'?') ≡ false) × ((c == b'=') ≡ false) × ((c == b'&') ≡ false) × ((c == 0) ≡ false)

abbrev pub AreText : Bytes → Type 0
AreText [] = Unit
AreText (c ∷ s) = IsText c × AreText s

abbrev pub Spells : (ℕ → ℕ) → ℕ → Bytes → Type 0
Spells f i [] = Unit
Spells f i (c ∷ s) = (f i ≡ c) × Spells f (i + 1) s

abbrev pub Pair : Type 0
Pair = Bytes × Bytes

-- The arrays of a query hold a key and a value, each with its terminator.
pub record Reads (q : Query) (pair : Pair) : Type 0 where
  pub key : Spells q.key 0 pair.0
  pub key_end : q.key (length pair.0) ≡ 0
  pub value : Spells q.value 0 pair.1
  pub value_end : q.value (length pair.1) ≡ 0

abbrev pub Entries : (ℕ → Query) → ℕ → List Pair → Type 0
Entries queries i [] = Unit
Entries queries i (pair ∷ pairs) = Reads (queries i) pair × Entries queries (i + 1) pairs

pub update-at {ℓ} : {A : Type ℓ} (f : ℕ → A) (i : ℕ) (a : A) → update f i a i ≡ a
unfolding update
update-at f i a = rw (==_refl i) refl

pub update-below {ℓ} :
    {A : Type ℓ} (f : ℕ → A) (i : ℕ) (a : A) (j : ℕ) → j < i → update f i a j ≡ f j
unfolding update
update-below f i a j h = let other : (i == j) ≡ false = ground arith in rw other refl

-- A write behind a text does not change it, and one at its end adds to it.
pub update-Spells :
    (f : ℕ → ℕ) (i c o : ℕ) (s : Bytes)
    → o + length s ≤ i
    → Spells f o s
    → Spells (update f i c) o s
update-Spells f i c o [] h k = tt
update-Spells f i c o (d ∷ s) h (e, k) =
    (update-below f i c o (omega arith) ∙ e, update-Spells f i c (o + 1) s (omega arith) k)

pub Spells-snoc :
    (f : ℕ → ℕ) (i c o : ℕ) (s : Bytes)
    → o + length s ≡ i
    → Spells f o s
    → Spells (update f i c) o (s ++ c ∷ [])
Spells-snoc f i c o [] h k =
    (subst (λ j. update f j c o ≡ c) (let e : o ≡ i = omega (arith, h) in e) (update-at f o c), tt)
Spells-snoc f i c o (d ∷ s) h (e, k) =
    (update-below f i c o (omega (arith, h)) ∙ e, Spells-snoc f i c (o + 1) s (omega (arith, h)) k)

pub update-Entries :
    (queries : ℕ → Query) (n : ℕ) (q : Query) (i : ℕ) (pairs : List Pair)
    → i + length pairs ≤ n
    → Entries queries i pairs
    → Entries (update queries n q) i pairs
update-Entries queries n q i [] h k = tt
update-Entries queries n q i (pair ∷ pairs) h (r, k) = (
  subst (λ x. Reads x pair) (sym (update-below queries n q i (omega arith))) r,
  update-Entries queries n q (i + 1) pairs (omega arith) k,
)

pub Entries-snoc :
    (queries : ℕ → Query) (i n : ℕ) (pairs : List Pair) (pair : Pair)
    → i + length pairs ≡ n
    → Entries queries i pairs
    → Reads (queries n) pair
    → Entries queries i (pairs ++ pair ∷ [])
Entries-snoc queries i n [] pair h k r =
    (subst (λ j. Reads (queries j) pair) (let e : n ≡ i = omega (arith, h) in e) r, tt)
Entries-snoc queries i n (x ∷ pairs) pair h (rx, k) r =
    (rx, Entries-snoc queries (i + 1) n pairs pair (omega (arith, h)) k r)

c_string-Spells :
    (n : ℕ) (f : ℕ → ℕ) (i : ℕ) (s : Bytes)
    → length s < n
    → AreText s
    → Spells f i s
    → f (i + length s) ≡ 0
    → c_string n f i ≡ s
unfolding c_string
c_string-Spells zero f i s h t k e = absurd (omega arith)
c_string-Spells (suc n) f i [] h t k e =
    let here : f i ≡ 0 = subst (λ j. f j ≡ 0) (omega arith) e in rw here refl
c_string-Spells (suc n) f i (c ∷ s) h ((_, _, _, nonzero), t) (here, k) e =
    rw
      (
        here,
        nonzero,
        c_string-Spells n f (i + 1) s (omega arith) t k (subst (λ j. f j ≡ 0) (omega arith) e),
      )
      refl

-- A parameter of a path: neither its key nor its value is empty, and both fit.
pub record IsPair (pair : Pair) : Type 0 where
  pub key_text : AreText pair.0
  pub key_some : 1 ≤ length pair.0
  pub key_fits : length pair.0 < 64
  pub value_text : AreText pair.1
  pub value_some : 1 ≤ length pair.1
  pub value_fits : length pair.1 < 1024

abbrev pub ArePairs : List Pair → Type 0
ArePairs [] = Unit
ArePairs (pair ∷ pairs) = IsPair pair × ArePairs pairs

-- The first parameter with a key.
abbrev pub lookup : Bytes → List Pair → Option Bytes
lookup key [] = none
lookup key ((k, v) ∷ pairs) = if str_eq k key then some v else lookup key pairs

pub Spells-nonzero :
    (f : ℕ → ℕ) (s : Bytes) → 1 ≤ length s → AreText s → Spells f 0 s → (f 0 == 0) ≡ false
Spells-nonzero f [] h t k = absurd (omega arith)
Spells-nonzero f (c ∷ s) h ((_, _, _, nonzero), t) (here, k) = rw here nonzero

matches-Reads :
    (key : Bytes) (q : Query) (pair : Pair)
    → IsPair pair
    → Reads q pair
    → matches key q ≡ str_eq pair.0 key
unfolding matches
matches-Reads key q pair is r =
    rw
      (
        Spells-nonzero q.key pair.0 is.key_some is.key_text r.key,
        c_string-Spells 64 q.key 0 pair.0 is.key_fits is.key_text r.key
            (subst (λ j. q.key j ≡ 0) (omega arith) r.key_end),
      )
      refl

pub find_query-lookup :
    (queries : ℕ → Query) (i n : ℕ) (key : Bytes) (pairs : List Pair)
    → length pairs ≡ n
    → ArePairs pairs
    → Entries queries i pairs
    → Option.map value_of (find_query queries i n key) ≡ lookup key pairs
unfolding find_query
find_query-lookup queries i zero key [] h are k = refl
find_query-lookup queries i (suc n) key [] h are k = absurd (omega (arith, h))
find_query-lookup queries i zero key (pair ∷ pairs) h are k = absurd (omega (arith, h))
find_query-lookup queries i (suc n) key (pair ∷ pairs) h (is, are) (r, k) =
    elim (Bool-cases (str_eq pair.0 key)) [
      | inl e ↦
          rw (matches-Reads key (queries i) pair is r, e)
            (ap some (
              c_string-Spells 1024 (queries i).value 0 pair.1 is.value_fits is.value_text r.value
                (subst (λ j. (queries i).value j ≡ 0) (omega arith) r.value_end)))
      | inr e ↦
          rw (matches-Reads key (queries i) pair is r, e)
            (find_query-lookup queries (i + 1) n key pairs (omega (arith, h)) are k)
    ]
