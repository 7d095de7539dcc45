-- ===== src/Tablec/Scan.antt =====
-- The downward scans of server/libs/tablec.c, `while (i--)` over a bucket's array, against the list.
use pal_ft.Base.{
  ℕ, zero, suc, ◌<◌, ◌≡◌, refl, ◌≢◌, inl, inr, Bool, true, Option, none, some, List, [], ◌∷◌, arith,
  if◌then◌else◌, length, get_or, Option-cases,
}
use pal_ft.Libc.{Bytes}
use pal_ft.Tablec.{Slot, is_free, holds_key, scan_down}
use pal_ft.Tablec.Slots.{occupied, last_match, occupied-le-length}

abbrev shifted : Option ℕ → Bool → Option ℕ
shifted (some i) first = some (suc i)
shifted none first = if first then some 0 else none

module _ {ℓ} {V : Type ℓ} where
  scan_down-cons :
      (test : Slot V → Bool) (s : Slot V) (ss : List (Slot V)) (n : ℕ)
      → scan_down test (s ∷ ss) (suc n) ≡ shifted (scan_down test ss n) (test s)
  unfolding scan_down
  scan_down-cons test s ss zero = refl
  scan_down-cons test s ss (suc n) = ground (arith, scan_down-cons test s ss n)

  -- The slot at the index found.
  abbrev pub slot_at : List (Slot V) → Option ℕ → Slot V
  slot_at ss none = none
  slot_at ss (some i) = get_or ss i none

  -- What a scan finds passes its test and lies inside the array.
  pub scan_down-test :
      (test : Slot V → Bool) (ss : List (Slot V)) (n i : ℕ)
      → scan_down test ss n ≡ some i
      → (test (get_or ss i none) ≡ true) × (i < n)
  unfolding scan_down
  scan_down-test test ss zero i h = cc
  scan_down-test test ss (suc n) i h = ground (arith, scan_down-test test ss n i)

  found-ne-none :
      (key : Bytes) (ss : List (Slot V)) (n i : ℕ)
      → scan_down (holds_key key) ss n ≡ some i
      → get_or ss i none ≢ none
  unfolding holds_key
  found-ne-none key ss n i h e = ground (arith, scan_down-test (holds_key key) ss n i h)

  pub scan_down-last_match :
      (key : Bytes) (ss : List (Slot V))
      → slot_at ss (scan_down (holds_key key) ss (length ss)) ≡ last_match key ss
  unfolding last_match
  scan_down-last_match key [] = unfold scan_down in refl
  scan_down-last_match key (s ∷ ss) =
      let ih = scan_down-last_match key ss in
      let step = scan_down-cons (holds_key key) s ss (length ss) in
      elim (Option-cases (scan_down (holds_key key) ss (length ss))) [
        | inl e ↦ ground arith
        | inr (i, e) ↦ ground (arith, found-ne-none key ss (length ss) i e)
      ]

  -- If it finds none, all are taken.
  pub scan_down-full :
      (ss : List (Slot V)) → scan_down is_free ss (length ss) ≡ none → occupied ss ≡ length ss
  unfolding occupied
  scan_down-full [] h = refl
  scan_down-full (none ∷ ss) h =
      unfold is_free in ground (arith, scan_down-cons is_free none ss (length ss))
  scan_down-full (some e ∷ ss) h =
      ground (arith, scan_down-cons is_free (some e) ss (length ss), scan_down-full ss)

  -- If it finds one, not all are.
  pub scan_down-roomy :
      (ss : List (Slot V)) {i : ℕ}
      → scan_down is_free ss (length ss) ≡ some i
      → occupied ss < length ss
  unfolding occupied is_free
  scan_down-roomy [] h = unfold scan_down in cc
  scan_down-roomy (none ∷ ss) h = omega (arith, occupied-le-length ss)
  scan_down-roomy (some e ∷ ss) h = elim (Option-cases (scan_down is_free ss (length ss))) [
    | inl none_left ↦ ground (arith, scan_down-cons is_free (some e) ss (length ss))
    | inr (i, found) ↦ omega (arith, scan_down-roomy ss found)
  ]
