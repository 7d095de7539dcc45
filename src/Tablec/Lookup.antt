-- ===== src/Tablec/Lookup.antt =====
-- The table of server/libs/tablec.c under `tablec_init`, `tablec_set` and `tablec_get`: what a
-- client such as the session table of server/main.c relies on.
use pal_ft.Base.{
  ℕ, zero, suc, ◌%◌, ◌≤◌, ◌<◌, ◌≡◌, refl, ap, subst, ◌∙◌, ◌⊎◌, false, none, some, List, [], ◌∷◌,
  arith, length, length-replicate, get_elem?, replicate, ok,
}
use pal_ft.Libc.{Bytes, str_eq}
use pal_ft.Tablec.{
  Bucket, Table, hash_loop, holds_key, tablec_hash, locate, tablec_init, tablec_get,
}
use pal_ft.Tablec.Slots.{occupied, last_match}
use pal_ft.Tablec.Unique.{matches}
use pal_ft.Tablec.Valid.{IsValidBucket, get_bucket-last_match}

-- The bucket that a key belongs to.
pub home : Bytes → ℕ → ℕ
home key capacity = hash_loop 0 key % capacity

tablec_hash-home :
    (capacity : ℕ) (key : Bytes) → 1 ≤ capacity → tablec_hash capacity key ≡ ok (home key capacity)
unfolding tablec_hash home
tablec_hash-home zero key h = absurd (omega arith)
tablec_hash-home (suc n) key h = refl

pub home-lt : (capacity : ℕ) (key : Bytes) → 1 ≤ capacity → home key capacity < capacity
unfolding home
home-lt capacity key h = omega arith

get_elem?-inside {ℓ} :
    {A : Type ℓ} (xs : List A) (i : ℕ) → i < length xs → (x : A) × (get_elem? xs i ≡ some x)
get_elem?-inside [] i h = absurd (omega arith)
get_elem?-inside (x ∷ xs) zero h = (x, refl)
get_elem?-inside (x ∷ xs) (suc i) h = get_elem?-inside xs i (omega arith)

get_elem?-replicate {ℓ} :
    {A : Type ℓ} (n i : ℕ) {a b : A} → get_elem? (replicate n a) i ≡ some b → a ≡ b
get_elem?-replicate zero i h = cc
get_elem?-replicate (suc n) zero h = cc
get_elem?-replicate (suc n) (suc i) h = get_elem?-replicate n i h

module _ {ℓ} {V : Type ℓ} where
  pub record IsValid (t : Table V) : Type ℓ where
    pub sized : length t.buckets ≡ t.capacity
    pub positive : 1 ≤ t.capacity
    pub each : (i : ℕ) (b : Bucket V) → get_elem? t.buckets i ≡ some b → IsValidBucket b

  -- No bucket holds a key twice.
  abbrev pub AreUnique : Table V → Type ℓ
  AreUnique t =
      (i : ℕ) (b : Bucket V)
      → get_elem? t.buckets i ≡ some b
      → (key : Bytes) → matches key b.array ≤ 1

  pub tablec_init-IsValid : (n : ℕ) → 1 ≤ n → IsValid (tablec_init {V = V} n)
  unfolding tablec_init occupied
  tablec_init-IsValid n h = record {
    sized = length-replicate n _;
    positive = h;
    each = λ i b e.
        subst IsValidBucket (get_elem?-replicate n i e)
          (record { sized = refl; positive = omega arith; counted = refl });
  }

  pub tablec_init-AreUnique : (n : ℕ) → AreUnique (tablec_init {V = V} n)
  unfolding tablec_init matches holds_key
  tablec_init-AreUnique n i b e key =
      subst (λ c. matches key c.array ≤ 1) (get_elem?-replicate n i e) (omega arith)

  module _ (t : Table V) (key : Bytes) (valid : IsValid t) where
    pub locate-home :
        (b : Bucket V) × (get_elem? t.buckets (home key t.capacity) ≡ some b)
        × (locate t key ≡ ok (home key t.capacity, b))
        × IsValidBucket b
    unfolding locate
    locate-home =
        let small = home-lt t.capacity key valid.positive in
        let (b, e) =
          get_elem?-inside t.buckets (home key t.capacity) (omega (arith, valid.sized)) in
        (
          b,
          e,
          rw (tablec_hash-home t.capacity key valid.positive, e),
          valid.each (home key t.capacity) b e,
        )

    pub tablec_get-last_match :
        (b : Bucket V)
        → get_elem? t.buckets (home key t.capacity) ≡ some b
        → tablec_get t key ≡ ok (last_match key b.array)
    unfolding tablec_get locate
    tablec_get-last_match b e =
        rw (tablec_hash-home t.capacity key valid.positive, e)
          (ap ok (get_bucket-last_match b key (valid.each _ b e)))

    -- What `tablec_set` makes of a table.
    pub record Stored (value : V) (t' : Table V) : Type ℓ where
      pub is_valid : IsValid t'
      pub same_capacity : t'.capacity ≡ t.capacity
      pub others :
          (other : Bytes) → str_eq key other ≡ false → tablec_get t' other ≡ tablec_get t other
      pub found : tablec_get t key ≡ ok none → tablec_get t' key ≡ ok (some (key, value))
      pub either :
          (other : Bytes)
          → (tablec_get t' other ≡ tablec_get t other)
            ⊎ (tablec_get t' other ≡ ok (some (key, value)))
      pub unique : tablec_get t key ≡ ok none → AreUnique t → AreUnique t'

fresh_bucket {ℓ} :
    {V : Type ℓ} (n : ℕ) (key : Bytes) (b : Bucket V) (i : ℕ)
    → get_elem? (tablec_init {V = V} n).buckets i ≡ some b
    → last_match key b.array ≡ none
unfolding tablec_init last_match holds_key
fresh_bucket n key b i e =
    subst (λ c. last_match key c.array ≡ none) (get_elem?-replicate n i e) refl

-- A new table has no entry.
pub tablec_get-tablec_init {ℓ} :
    {V : Type ℓ} (n : ℕ) (key : Bytes) → 1 ≤ n → tablec_get (tablec_init {V = V} n) key ≡ ok none
tablec_get-tablec_init {V} n key h =
    let (b, at_home, _, _) = locate-home (tablec_init {V = V} n) key (tablec_init-IsValid n h) in
    tablec_get-last_match (tablec_init n) key (tablec_init-IsValid n h) b at_home
    ∙ ap ok (fresh_bucket n key b (home key (tablec_init {V = V} n).capacity) at_home)
