-- ===== src/Tablec/Slots.antt =====
-- The slots of one bucket of server/libs/tablec.c as a list: how many are taken, which entry a
-- downward scan meets first for a key, and what a write into a free slot does to both.
use pal_ft.Base.{
  ℕ, zero, suc, ◌+◌, ◌≤◌, ◌<◌, ◌≡◌, refl, false, none, some, List, [], ◌∷◌, ◌++◌, ◌⊎◌, inl, arith,
  if◌then◌else◌, length, get_or, set, replicate,
}
use pal_ft.Libc.{Bytes, str_eq, str_eq_refl}
use pal_ft.Tablec.{Slot, holds_key}

module _ {ℓ} {V : Type ℓ} where
  unfoldable pub occupied : List (Slot V) → ℕ
  occupied [] = 0
  occupied (none ∷ ss) = occupied ss
  occupied (some _ ∷ ss) = suc (occupied ss)

  -- The entry for a key at the highest index.
  unfoldable pub last_match : Bytes → List (Slot V) → Slot V
  unfolding holds_key
  last_match key [] = none
  last_match key (s ∷ ss) = elim (last_match key ss) [
    | some e ↦ some e
    | none ↦ if holds_key key s then s else none
  ]

  pub occupied-le-length : (ss : List (Slot V)) → occupied ss ≤ length ss
  unfolding occupied
  occupied-le-length [] = omega arith
  occupied-le-length (none ∷ ss) = omega (arith, occupied-le-length ss)
  occupied-le-length (some e ∷ ss) = omega (arith, occupied-le-length ss)

  pub last_match-eq-none :
      (key : Bytes) (ss : List (Slot V)) → occupied ss ≡ 0 → last_match key ss ≡ none
  unfolding occupied last_match
  last_match-eq-none key [] h = refl
  last_match-eq-none key (none ∷ ss) h = rw (last_match-eq-none key ss h)
  last_match-eq-none key (some e ∷ ss) h = absurd (omega arith)

  pub get_or-eq-none : (ss : List (Slot V)) (i : ℕ) → occupied ss ≡ 0 → get_or ss i none ≡ none
  unfolding occupied
  get_or-eq-none [] i h = refl
  get_or-eq-none (none ∷ ss) zero h = refl
  get_or-eq-none (none ∷ ss) (suc i) h = get_or-eq-none ss i h
  get_or-eq-none (some e ∷ ss) i h = absurd (omega arith)

  pub occupied-append_free :
      (ss : List (Slot V)) (n : ℕ) → occupied (ss ++ replicate n none) ≡ occupied ss
  unfolding occupied
  occupied-append_free [] zero = refl
  occupied-append_free [] (suc n) = occupied-append_free [] n
  occupied-append_free (none ∷ ss) n = occupied-append_free ss n
  occupied-append_free (some e ∷ ss) n = omega (arith, occupied-append_free ss n)

  pub last_match-append_free :
      (key : Bytes) (ss : List (Slot V)) (n : ℕ)
      → last_match key (ss ++ replicate n none) ≡ last_match key ss
  unfolding last_match
  last_match-append_free key [] zero = refl
  last_match-append_free key [] (suc n) = rw (last_match-append_free key [] n)
  last_match-append_free key (s ∷ ss) n = rw (last_match-append_free key ss n)

  pub get_or-append_free :
      (ss : List (Slot V)) (n : ℕ) → get_or (ss ++ replicate n none) (length ss) none ≡ none
  get_or-append_free [] zero = refl
  get_or-append_free [] (suc n) = refl
  get_or-append_free (s ∷ ss) n = get_or-append_free ss n

  -- A write into a free slot.
  module _ (key : Bytes) (v : V) where
    pub occupied-set :
        (ss : List (Slot V)) (i : ℕ)
        → i < length ss
        → get_or ss i none ≡ none
        → occupied (set ss i (some (key, v))) ≡ occupied ss + 1
    unfolding occupied
    occupied-set [] i h e = absurd (omega arith)
    occupied-set (none ∷ ss) zero h e = omega arith
    occupied-set (some _ ∷ ss) zero h e = cc
    occupied-set (none ∷ ss) (suc i) h e = occupied-set ss i (omega arith) e
    occupied-set (some _ ∷ ss) (suc i) h e = omega (arith, occupied-set ss i (omega arith) e)

    pub last_match-set_ne :
        (other : Bytes) (ss : List (Slot V)) (i : ℕ)
        → str_eq key other ≡ false
        → get_or ss i none ≡ none
        → last_match other (set ss i (some (key, v))) ≡ last_match other ss
    unfolding last_match
    last_match-set_ne other [] i ne e = refl
    last_match-set_ne other (none ∷ ss) zero ne e = ground arith
    last_match-set_ne other (some _ ∷ ss) zero ne e = cc
    last_match-set_ne other (s ∷ ss) (suc i) ne e = rw (last_match-set_ne other ss i ne e)

    pub last_match-set_self :
        (ss : List (Slot V)) (i : ℕ)
        → i < length ss
        → last_match key ss ≡ none
        → last_match key (set ss i (some (key, v))) ≡ some (key, v)
    unfolding last_match
    last_match-set_self [] i h absent = absurd (omega arith)
    last_match-set_self (s ∷ ss) zero h absent = ground (arith, str_eq_refl key)
    last_match-set_self (s ∷ ss) (suc i) h absent = ground (arith, last_match-set_self ss i)

    -- For any key the write changes nothing, or it is what the scan meets.
    pub last_match-set_either :
        (other : Bytes) (ss : List (Slot V)) (i : ℕ)
        → get_or ss i none ≡ none
        → (last_match other (set ss i (some (key, v))) ≡ last_match other ss)
          ⊎ (last_match other (set ss i (some (key, v))) ≡ some (key, v))
    unfolding last_match
    last_match-set_either other [] i e = inl refl
    last_match-set_either other (none ∷ ss) zero e = ground arith
    last_match-set_either other (some _ ∷ ss) zero e = cc
    last_match-set_either other (s ∷ ss) (suc i) e =
        ground (arith, last_match-set_either other ss i e)
