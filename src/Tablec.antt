-- ===== src/Tablec.antt =====
-- server/libs/tablec.c: the table of sessions. A slot whose key is NULL is `none`; a key is the
-- string that it points to, and a value is what the pointer stands for. Memory that is freed is
-- not modelled, and an allocation succeeds.
pub mod Slots
pub mod Scan
pub mod Valid
pub mod Lookup
pub mod Written
pub mod Insert
pub mod Unique
pub mod Delete
pub mod Operations
use pal_ft.Base.{
  ℕ, zero, suc, ◌+◌, ◌-◌, ◌*◌, ◌%◌, ◌^◌, Bool, true, false, Option, none, some, List, [], ◌∷◌, ◌++◌,
  ltb, ◌==◌, if◌then◌else◌, get_or, get_elem?, set, replicate, Outcome, ok, fault, ◌>>=◌, deref,
}
use pal_ft.Libc.{Bytes, str_eq, ℤ, pos, negsuc, wrap_int}

-- struct tablec_bucket
abbrev pub Slot {ℓ} : Type ℓ → Type ℓ
Slot V = Option (Bytes × V)

-- struct tablec_buckets
pub record Bucket {ℓ} (V : Type ℓ) : Type ℓ where
  pub array : List (Slot V)
  pub length : ℕ
  pub capacity : ℕ

-- struct tablec_ht
pub record Table {ℓ} (V : Type ℓ) : Type ℓ where
  pub buckets : List (Bucket V)
  pub length : ℕ
  pub capacity : ℕ

hash_loop : ℕ → Bytes → ℕ
hash_loop hash [] = hash
hash_loop hash (c ∷ key) = hash_loop ((hash * 37 + c % 256) % 2 ^ 64) key

-- `_tablec_hash`; a remainder by zero is undefined.
unfoldable pub tablec_hash : ℕ → Bytes → Outcome ℕ
unfolding hash_loop
tablec_hash zero key = fault
tablec_hash capacity key = ok (hash_loop 0 key % capacity)

unfoldable pub is_free {ℓ} : {V : Type ℓ} → Slot V → Bool
is_free none = true
is_free (some _) = false

unfoldable pub holds_key {ℓ} : {V : Type ℓ} → Bytes → Slot V → Bool
holds_key key none = false
holds_key key (some (k, _)) = str_eq k key

-- `length--` on a `size_t`
unfoldable pub size_pred : ℕ → ℕ
size_pred n = (n + 2 ^ 64 - 1) % 2 ^ 64

module _ {ℓ} {V : Type ℓ} where
  unfoldable pub tablec_init : ℕ → Table V
  tablec_init max_capacity = record {
    buckets = replicate max_capacity (record { array = none ∷ []; length = 0; capacity = 1 });
    length = 0;
    capacity = max_capacity;
  }

  -- `while (i--)` down an array, to the first slot that passes the test.
  unfoldable pub scan_down : (Slot V → Bool) → List (Slot V) → ℕ → Option ℕ
  scan_down test array zero = none
  scan_down test array (suc i) =
      let rest = scan_down test array i in if test (get_or array i none) then some i else rest

  -- The bucket that a key hashes to, with its index.
  unfoldable pub locate : Table V → Bytes → Outcome (ℕ × Bucket V)
  locate t key = do
    hash ← tablec_hash t.capacity key
    b ← deref (get_elem? t.buckets hash)
    ok (hash, b)

  -- The copy into an array of twice the size, whose upper half `calloc` leaves NULL. Every index
  -- is below `capacity` slots but this one, `length`.
  unfoldable pub grow : Bucket V → Bytes → V → Outcome (Bucket V)
  grow b key value =
      if ltb b.length (b.capacity * 2)
      then ok (record {
        array = set (b.array ++ replicate b.capacity none) b.length (some (key, value));
        length = b.length + 1;
        capacity = b.capacity * 2;
      })
      else fault

  -- A bucket after `tablec_set`, and whether the table's own counter goes up.
  unfoldable pub set_bucket : Bucket V → Bytes → V → Outcome (Bucket V × Bool)
  set_bucket b key value =
      if b.length == 0
      then (elim (get_or b.array 0 none) [
        | none ↦ ok (record b { array = set b.array 0 (some (key, value)); length = 1 }, true)
        | some old ↦
            ok
              (record { array = some old ∷ some (key, value) ∷ []; length = 2; capacity = 2 }, true)
      ])
      else (elim (scan_down is_free b.array b.capacity) [
        | some i ↦
            ok (record b { array = set b.array i (some (key, value)); length = b.length + 1 }, true)
        | none ↦ grow b key value >>= λ b'. ok (b', false)
      ])

  unfoldable pub tablec_set : Table V → Bytes → V → Outcome (Table V)
  tablec_set t key value = do
    (hash, b) ← locate t key
    (b', counted) ← set_bucket b key value
    ok (record t {
      buckets = set t.buckets hash b';
      length = if counted then t.length + 1 else t.length;
    })

  -- A bucket in `tablec_get`.
  unfoldable pub get_bucket : Bucket V → Bytes → Slot V
  get_bucket b key =
      if b.length == 0 then none else (elim (scan_down (holds_key key) b.array b.capacity) [
        | none ↦ none
        | some i ↦ get_or b.array i none
      ])

  -- The slot that the returned pointer points to; `none` is NULL.
  unfoldable pub tablec_get : Table V → Bytes → Outcome (Slot V)
  tablec_get t key = do (_, b) ← locate t key; ok (get_bucket b key)

  -- A bucket in `tablec_del`, and whether a slot was cleared.
  unfoldable pub del_bucket : Bucket V → Bytes → Bucket V × Bool
  del_bucket b key =
      if b.length == 0 then (b, false) else (elim (scan_down (holds_key key) b.array b.capacity) [
        | none ↦ (b, false)
        | some i ↦ (record b { array = set b.array i none; length = b.length - 1 }, true)
      ])

  unfoldable pub tablec_del : Table V → Bytes → Outcome (Table V)
  tablec_del t key = do
    (hash, b) ← locate t key
    let (b', cleared) = del_bucket b key
    ok (record t {
      buckets = set t.buckets hash b';
      length = if cleared then size_pred t.length else t.length;
    })

  -- `tablec_resize` on one bucket with two entries or more: the slots below `n`, downwards.
  unfoldable pub move_slots : List (Slot V) → ℕ → Table V → Outcome (Table V)
  move_slots array zero fresh = ok fresh
  move_slots array (suc i) fresh = elim (get_or array i none) [
    | none ↦ move_slots array i fresh
    | some (key, value) ↦ tablec_set fresh key value >>= move_slots array i
  ]

  -- The loop's test is `capacity-- - 1`: it looks at the slots from `capacity - 2` down.
  unfoldable pub move_bucket : Bucket V → Table V → Outcome (Table V)
  move_bucket b fresh =
      if b.length == 0
      then ok fresh
      else if b.length == 1
      then (do (key, value) ← deref (get_or b.array 0 none); tablec_set fresh key value)
      else move_slots b.array (b.capacity - 1) fresh

  -- The buckets below `n`, downwards.
  unfoldable pub move_buckets : List (Bucket V) → ℕ → Table V → Outcome (Table V)
  move_buckets buckets zero fresh = ok fresh
  move_buckets buckets (suc i) fresh = do
    b ← deref (get_elem? buckets i)
    fresh' ← move_bucket b fresh
    move_buckets buckets i fresh'

  unfoldable pub tablec_resize : Table V → ℕ → Outcome (Table V)
  tablec_resize t new_max_capacity =
      if t.length == 0
      then ok (tablec_init new_max_capacity)
      else move_buckets t.buckets t.capacity (tablec_init new_max_capacity)

  unfoldable pub tablec_full : Table V → ℤ
  tablec_full t =
      if t.capacity == t.length
      then negsuc 0
      else wrap_int ((t.capacity + 2 ^ 64 - t.length) % 2 ^ 64)
