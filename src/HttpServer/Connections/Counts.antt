-- ===== src/HttpServer/Connections/Counts.antt =====
-- How often a number stands in a list, and the searches of server/libs/httpserver.c.
use pal_ft.Base.{
  one_if, ℕ, zero, suc, ◌+◌, ◌≤◌, ◌≡◌, refl, ap, ◌∙◌, ◌⊎◌, inl, inr, none, some, List, [], ◌∷◌,
  ◌++◌, arith, length, set, get_elem?, ◌==◌, ltb, ◌&&◌, not, if◌then◌else◌, Bool-cases, ok,
}
use pal_ft.HttpServer.Connections.{first_zero, first_nonzero, new_entries}

abbrev pub uses : ℕ → List ℕ → ℕ
uses v [] = 0
uses v (slot ∷ slots) = one_if (v == slot) + uses v slots

-- The list without the first occurrence.
abbrev pub remove : ℕ → List ℕ → List ℕ
remove a [] = []
remove a (x ∷ xs) = if a == x then xs else x ∷ remove a xs

pub uses-append :
    (v : ℕ) (slots more : List ℕ) → uses v (slots ++ more) ≡ uses v slots + uses v more
uses-append v [] more = omega arith
uses-append v (slot ∷ slots) more = omega (arith, uses-append v slots more)

pub uses-set :
    (a : ℕ) (xs : List ℕ) (i old new : ℕ)
    → get_elem? xs i ≡ some old
    → uses a (set xs i new) + one_if (a == old) ≡ uses a xs + one_if (a == new)
uses-set a [] i old new h = cc
uses-set a (x ∷ xs) zero old new h = ground arith
uses-set a (x ∷ xs) (suc i) old new h = omega (arith, uses-set a xs i old new h)

pub uses-remove :
    (a b : ℕ) (xs : List ℕ) → 1 ≤ uses a xs → uses b (remove a xs) + one_if (b == a) ≡ uses b xs
uses-remove a b [] h = absurd (omega arith)
uses-remove a b (x ∷ xs) h = ground (arith, uses-remove a b xs)

pub length-remove : (a : ℕ) (xs : List ℕ) → 1 ≤ uses a xs → suc (length (remove a xs)) ≡ length xs
length-remove a [] h = absurd (omega arith)
length-remove a (x ∷ xs) h = ground (arith, length-remove a xs)

pub uses-le-length : (a : ℕ) (xs : List ℕ) → uses a xs ≤ length xs
uses-le-length a [] = omega arith
uses-le-length a (x ∷ xs) = ground (arith, uses-le-length a xs)

pub length-new_entries : (i n : ℕ) → length (new_entries i n) ≡ n
unfolding new_entries
length-new_entries i zero = refl
length-new_entries i (suc n) = ap suc (length-new_entries (i + 1) n)

-- Every slot of the new ones stands there once.
pub uses-new_entries :
    (v i n : ℕ) → uses (suc v) (new_entries i n) ≡ one_if (not (ltb v i) && ltb v (i + n))
unfolding new_entries
uses-new_entries v i zero = ground arith
uses-new_entries v i (suc n) = ground (arith, uses-new_entries v (i + 1) n)

pub zero-new_entries : (i n : ℕ) → uses 0 (new_entries i n) ≡ 0
unfolding new_entries
zero-new_entries i zero = refl
zero-new_entries i (suc n) = ground (arith, zero-new_entries (i + 1) n)

-- The search for an entry that is 0 finds one, or there is none.
pub first_zero_cases :
    (n : ℕ) (xs : List ℕ) (i : ℕ)
    → length xs ≡ n
    → ((k : ℕ) × (first_zero n xs i ≡ ok (some (i + k))) × (get_elem? xs k ≡ some 0))
      ⊎ ((first_zero n xs i ≡ ok none) × (uses 0 xs ≡ 0))
unfolding first_zero
first_zero_cases zero [] i h = inr (refl, refl)
first_zero_cases zero (x ∷ xs) i h = absurd (omega (arith, h))
first_zero_cases (suc n) [] i h = absurd (omega (arith, h))
first_zero_cases (suc n) (x ∷ xs) i h = elim (Bool-cases (x == 0)) [
  | inl e ↦ inl (0, rw e (ap (λ k. ok (some k)) (omega arith)), ground arith)
  | inr e ↦ elim (first_zero_cases n xs (i + 1) (omega (arith, h))) [
    | inl (k, found, there) ↦ inl (suc k, rw e (found ∙ ap (λ k. ok (some k)) (omega arith)), there)
    | inr (missing, none_there) ↦ inr (rw e missing, ground (arith, e, none_there))
  ]
]

-- The search for another one likewise: if there is none, all are 0.
pub first_nonzero_cases :
    (n : ℕ) (xs : List ℕ) (i : ℕ)
    → length xs ≡ n
    → ((k : ℕ) × (v : ℕ) × (first_nonzero n xs i ≡ ok (some (i + k, suc v)))
        × (get_elem? xs k ≡ some (suc v)))
      ⊎ ((first_nonzero n xs i ≡ ok none)
          × (uses 0 xs ≡ length xs)
          × ((v : ℕ) → uses (suc v) xs ≡ 0))
unfolding first_nonzero
first_nonzero_cases zero [] i h = inr (refl, refl, λ v. refl)
first_nonzero_cases zero (x ∷ xs) i h = absurd (omega (arith, h))
first_nonzero_cases (suc n) [] i h = absurd (omega (arith, h))
first_nonzero_cases (suc n) (suc x ∷ xs) i h = inl (0, x, ground arith, refl)
first_nonzero_cases (suc n) (zero ∷ xs) i h =
    elim (first_nonzero_cases n xs (i + 1) (omega (arith, h))) [
      | inl (k, v, found, there) ↦
          inl (suc k, v, found ∙ ap (λ k. ok (some (k, suc v))) (omega arith), there)
      | inr (missing, all, none_there) ↦
          inr (missing, omega (arith, all), λ v. ground (arith, none_there v))
    ]
