-- ===== src/Tablec/Delete.antt =====
-- `tablec_del` of server/libs/tablec.c.
use pal_ft.Base.{
  ℕ, ◌-◌, ◌≤◌, ◌<◌, ◌≡◌, refl, sym, ap, subst, ◌∙◌, one_if, true, false, Bool-cases, Option-cases,
  inl, inr, none, arith, length, length-set, get_or, set, ◌==◌, if◌then◌else◌, ok,
}
use pal_ft.Libc.{Bytes, str_eq, str_eq_iff}
use pal_ft.Tablec.{
  Bucket, Table, holds_key, scan_down, size_pred, del_bucket, tablec_del, tablec_get,
}
use pal_ft.Tablec.Lookup.{IsValid, AreUnique, home, locate-home}
use pal_ft.Tablec.Written.{
  written, written-IsValid, written-others, written_self, written-AreUnique,
}
use pal_ft.Tablec.Scan.{slot_at, scan_down-test, scan_down-last_match}
use pal_ft.Tablec.Slots.{last_match, last_match-eq-none}
use pal_ft.Tablec.Unique.{
  matches, matches-set, matches-eq-zero, last_match-remove, occupied-remove, holds_key-ne,
}
use pal_ft.Tablec.Valid.{IsValidBucket}

module _ {ℓ} {V : Type ℓ} where
  -- What the removal of a key that stands at most once makes of a bucket.
  pub record Removed (b : Bucket V) (key : Bytes) (b' : Bucket V) : Type ℓ where
    pub valid : IsValidBucket b'
    pub others :
        (other : Bytes)
        → str_eq key other ≡ false
        → last_match other b'.array ≡ last_match other b.array
    pub gone : last_match key b'.array ≡ none
    pub fewer : (k : Bytes) → matches k b'.array ≤ matches k b.array

  module _ (b : Bucket V) (key : Bytes) (valid : IsValidBucket b) where
    -- Nothing is removed where nothing is found.
    kept : last_match key b.array ≡ none → Removed b key b
    kept absent = record {
      valid = valid;
      others = λ other ne. refl;
      gone = absent;
      fewer = λ k. omega arith;
    }

    cleared :
        (i : ℕ)
        → matches key b.array ≤ 1
        → holds_key key (get_or b.array i none) ≡ true
        → i < b.capacity
        → Removed b key (record b { array = set b.array i none; length = b.length - 1 })
    unfolding holds_key
    cleared i once held small =
        let inside : i < length b.array = omega (arith, valid.sized) in
        record {
          valid = record {
            sized = length-set b.array i none ∙ valid.sized;
            positive = valid.positive;
            counted = omega (arith, valid.counted, occupied-remove b.array i key held);
          };
          others = λ other ne.
              last_match-remove other b.array i
                (holds_key-ne key other (get_or b.array i none) ne held);
          gone =
              matches-eq-zero key (set b.array i none)
                (omega (arith, matches-set key b.array i none inside, once, ap one_if held));
          fewer = λ k. omega (arith, matches-set k b.array i none inside);
        }

    pub del_bucket-Removed : matches key b.array ≤ 1 → Removed b key (del_bucket b key).0
    unfolding del_bucket
    del_bucket-Removed once = elim (Bool-cases (b.length == 0)) [
      | inl e ↦ rw e (kept (ground (arith, valid.counted, last_match-eq-none key b.array)))
      | inr e ↦ elim (Option-cases (scan_down (holds_key key) b.array b.capacity)) [
        | inl none_left ↦
            let scanned : slot_at b.array (scan_down (holds_key key) b.array b.capacity)
                ≡ last_match key b.array =
              subst
                (λ n.
                  slot_at b.array (scan_down (holds_key key) b.array n) ≡ last_match key b.array)
                valid.sized (scan_down-last_match key b.array) in
            rw (e, none_left) (kept (sym scanned ∙ ap (slot_at b.array) none_left))
        | inr (i, found) ↦
            let (held, small) = scan_down-test (holds_key key) b.array b.capacity i found in
            rw (e, found) (cleared i once held small)
      ]
    ]

-- Deleting a key from a valid table that holds no key twice returns such a table, in which the key
-- finds nothing, and every other key finds what it found before.
pub tablec_del-tablec_get {ℓ} :
    {V : Type ℓ} (t : Table V) (key : Bytes)
    → IsValid t
    → AreUnique t
    → (t' : Table V) × (tablec_del t key ≡ ok t')
      × IsValid t'
      × AreUnique t'
      × ((other : Bytes)
          → tablec_get t' other ≡ (if str_eq key other then ok none else tablec_get t other))
unfolding tablec_del
tablec_del-tablec_get t key valid unique =
    let (b, at_home, located, bucket) = locate-home t key valid in
    let once = unique (home key t.capacity) b at_home in
    let removed = del_bucket-Removed b key bucket (once key) in
    let counter = if (del_bucket b key).1 then size_pred t.length else t.length in
    let b' = (del_bucket b key).0 in
    (
      written t key valid b b' at_home removed.valid removed.others counter,
      rw located refl,
      written-IsValid t key valid b b' at_home removed.valid removed.others counter,
      written-AreUnique t key valid b b' at_home removed.valid removed.others counter
          (λ k. omega (arith, once k, removed.fewer k)) unique,
      λ other. elim (Bool-cases (str_eq key other)) [
        | inl e ↦ rw e (
            subst
              (λ k.
                tablec_get (written t key valid b b' at_home removed.valid removed.others counter) k
                ≡ ok none)
              ((str_eq_iff key other).0 e)
              (written_self t key valid b b' at_home removed.valid removed.others counter
                ∙ ap ok removed.gone))
        | inr e ↦
            rw e
              (written-others t key valid b b' at_home removed.valid removed.others counter other e)
      ],
    )
