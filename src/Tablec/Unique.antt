-- ===== src/Tablec/Unique.antt =====
-- How many slots of a bucket of server/libs/tablec.c hold a key, under a write and a removal.
use pal_ft.Base.{
  one_if, ℕ, zero, suc, ◌+◌, ◌<◌, ◌≡◌, refl, ap, ◌∙◌, true, false, none, some, List, [], ◌∷◌, ◌++◌,
  arith, length, get_or, set, replicate,
}
use pal_ft.Libc.{Bytes, str_eq, str_eq_iff}
use pal_ft.Tablec.{Slot, holds_key}
use pal_ft.Tablec.Slots.{occupied, last_match}

module _ {ℓ} {V : Type ℓ} where
  unfoldable pub matches : Bytes → List (Slot V) → ℕ
  matches key [] = 0
  matches key (s ∷ ss) = one_if (holds_key key s) + matches key ss

  pub matches-append_free :
      (key : Bytes) (ss : List (Slot V)) (n : ℕ)
      → matches key (ss ++ replicate n none) ≡ matches key ss
  unfolding matches holds_key
  matches-append_free key [] zero = refl
  matches-append_free key [] (suc n) = omega (arith, matches-append_free key [] n)
  matches-append_free key (s ∷ ss) n = rw (matches-append_free key ss n) refl

  pub matches-set :
      (key : Bytes) (ss : List (Slot V)) (i : ℕ) (new : Slot V)
      → i < length ss
      → matches key (set ss i new) + one_if (holds_key key (get_or ss i none))
        ≡ matches key ss + one_if (holds_key key new)
  unfolding matches
  matches-set key [] i new h = absurd (omega arith)
  matches-set key (s ∷ ss) zero new h = omega arith
  matches-set key (s ∷ ss) (suc i) new h = omega (arith, matches-set key ss i new (omega arith))

  -- A scan meets an entry if and only if there is one.
  pub matches-eq-zero :
      (key : Bytes) (ss : List (Slot V)) → matches key ss ≡ 0 → last_match key ss ≡ none
  unfolding matches last_match
  matches-eq-zero key [] h = refl
  matches-eq-zero key (s ∷ ss) h = ground (arith, matches-eq-zero key ss)

  pub last_match-none :
      (key : Bytes) (ss : List (Slot V)) → last_match key ss ≡ none → matches key ss ≡ 0
  unfolding matches last_match holds_key
  last_match-none key [] h = refl
  last_match-none key (none ∷ ss) h = ground (arith, last_match-none key ss)
  last_match-none key (some (k, v) ∷ ss) h = ground (arith, last_match-none key ss)

  -- A slot that another key does not hold is removed for it without a trace.
  pub last_match-remove :
      (other : Bytes) (ss : List (Slot V)) (i : ℕ)
      → holds_key other (get_or ss i none) ≡ false
      → last_match other (set ss i none) ≡ last_match other ss
  unfolding last_match holds_key
  last_match-remove other [] i h = refl
  last_match-remove other (none ∷ ss) zero h = refl
  last_match-remove other (some (k, v) ∷ ss) zero h = ground arith
  last_match-remove other (s ∷ ss) (suc i) h = rw (last_match-remove other ss i h) refl

  pub occupied-remove :
      (ss : List (Slot V)) (i : ℕ) (k : Bytes)
      → holds_key k (get_or ss i none) ≡ true
      → occupied (set ss i none) + 1 ≡ occupied ss
  unfolding occupied holds_key
  occupied-remove [] i k h = cc
  occupied-remove (none ∷ ss) zero k h = cc
  occupied-remove (some e ∷ ss) zero k h = omega arith
  occupied-remove (none ∷ ss) (suc i) k h = occupied-remove ss i k h
  occupied-remove (some e ∷ ss) (suc i) k h = omega (arith, occupied-remove ss i k h)

  -- Two keys in one slot are the same.
  pub holds_key-ne :
      (key other : Bytes) (s : Slot V)
      → str_eq key other ≡ false
      → holds_key key s ≡ true
      → holds_key other s ≡ false
  unfolding holds_key
  holds_key-ne key other none ne held = refl
  holds_key-ne key other (some (k, v)) ne held =
      ap (λ l. str_eq l other) ((str_eq_iff k key).0 held) ∙ ne
