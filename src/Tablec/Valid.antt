-- ===== src/Tablec/Valid.antt =====
-- The invariant of the buckets of server/libs/tablec.c, and one bucket under `tablec_set`,
-- `tablec_get` and `tablec_del`.
use pal_ft.Base.{
  one_if, List, ap, ℕ, ◌+◌, ◌*◌, ◌≤◌, ◌<◌, ◌≡◌, refl, ◌⊎◌, inl, inr, false, none, some, ◌∙◌, lt→ltb,
  ◌++◌, arith, ltb, length, length-append, length-set, length-replicate, get_or, set, replicate,
  Bool-cases, Option-cases, ok, subst, ◌==◌,
}
use pal_ft.Libc.{Bytes, str_eq}
use pal_ft.Tablec.{Slot, Bucket, is_free, holds_key, scan_down, grow, set_bucket, get_bucket}
use pal_ft.Tablec.Unique.{matches, matches-set, matches-append_free}
use pal_ft.Tablec.Slots.{
  occupied, last_match, last_match-eq-none, get_or-eq-none, occupied-append_free,
  last_match-append_free, get_or-append_free, occupied-set, last_match-set_ne, last_match-set_self,
  last_match-set_either,
}
use pal_ft.Tablec.Scan.{
  slot_at, scan_down-test, scan_down-last_match, scan_down-full, scan_down-roomy,
}

module _ {ℓ} {V : Type ℓ} where
  pub record IsValidBucket (b : Bucket V) : Type ℓ where
    pub sized : length b.array ≡ b.capacity
    pub positive : 1 ≤ b.capacity
    pub counted : b.length ≡ occupied b.array

  pub get_bucket-last_match :
      (b : Bucket V) (key : Bytes) → IsValidBucket b → get_bucket b key ≡ last_match key b.array
  unfolding get_bucket
  get_bucket-last_match b key valid =
      let scanned = scan_down-last_match key b.array in
      elim (Bool-cases (b.length == 0)) [
        | inl e ↦ ground (arith, valid.counted, last_match-eq-none key b.array)
        | inr e ↦ rw e (
            subst
              (λ n. slot_at b.array (scan_down (holds_key key) b.array n) ≡ last_match key b.array)
              valid.sized scanned)
      ]

  -- What a write of `value` under `key` makes of a bucket.
  pub record Wrote (b : Bucket V) (key : Bytes) (value : V) (b' : Bucket V) : Type ℓ where
    pub valid : IsValidBucket b'
    pub grew : b'.length ≡ b.length + 1
    pub others :
        (other : Bytes)
        → str_eq key other ≡ false
        → last_match other b'.array ≡ last_match other b.array
    pub counts :
        (other : Bytes) → matches other b'.array ≡ matches other b.array + one_if (str_eq key other)
    pub found : last_match key b.array ≡ none → last_match key b'.array ≡ some (key, value)
    pub either :
        (other : Bytes)
        → (last_match other b'.array ≡ last_match other b.array)
          ⊎ (last_match other b'.array ≡ some (key, value))

  module _ (b : Bucket V) (key : Bytes) (value : V) (valid : IsValidBucket b) where
    count_free :
        (ss : List (Slot V)) (i : ℕ) (other : Bytes)
        → i < length ss
        → get_or ss i none ≡ none
        → matches other (set ss i (some (key, value)))
          ≡ matches other ss + one_if (str_eq key other)
    unfolding holds_key
    count_free ss i other room free =
        let counted = matches-set other ss i (some (key, value)) room in
        omega (arith, counted, ap (λ s. one_if (holds_key other s)) free)

    write_free :
        (n i : ℕ)
        → n ≡ b.length + 1
        → i < b.capacity
        → get_or b.array i none ≡ none
        → Wrote b key value (record b { array = set b.array i (some (key, value)); length = n })
    write_free n i next small free = record {
      valid = record {
        sized = rw (length-set, valid.sized);
        positive = valid.positive;
        counted = omega (
          arith,
          valid.counted,
          occupied-set key value b.array i (omega (arith, valid.sized)) free,
        );
      };
      grew = next;
      others = λ other ne. last_match-set_ne key value other b.array i ne free;
      counts = λ other. count_free b.array i other (omega (arith, valid.sized)) free;
      found = last_match-set_self key value b.array i (omega (arith, valid.sized));
      either = λ other. last_match-set_either key value other b.array i free;
    }

    free_at :
        (i : ℕ)
        → scan_down is_free b.array b.capacity ≡ some i
        → (get_or b.array i none ≡ none) × (i < b.capacity)
    unfolding is_free
    free_at i h =
        let t = scan_down-test is_free b.array b.capacity i h in (ground (arith, t.0), t.1)

    full : scan_down is_free b.array b.capacity ≡ none → b.length ≡ b.capacity
    full h = omega (arith, valid.sized, valid.counted, scan_down-full b.array (rw valid.sized h))

    roomy : {i : ℕ} → scan_down is_free b.array b.capacity ≡ some i → b.length < b.capacity
    roomy {i} h =
        omega
          (arith, valid.sized, valid.counted, scan_down-roomy b.array {i = i} (rw valid.sized h))

    -- The doubled array, with the new entry in the first slot of its upper half.
    write_grown :
        b.length ≡ b.capacity → (b' : Bucket V) × (grow b key value ≡ ok b') × Wrote b key value b'
    unfolding grow
    write_grown h =
        let wide = b.array ++ replicate b.capacity none in
        let at_length : get_or wide b.length none ≡ none =
          rw (h, ← valid.sized) (get_or-append_free b.array (length b.array)) in
        let room : b.length < length wide = omega (
          arith,
          valid.sized,
          valid.positive,
          length-append b.array (replicate b.capacity none),
          length-replicate {A = Slot V} b.capacity none,
        ) in
        (
          record {
            array = set wide b.length (some (key, value));
            length = b.length + 1;
            capacity = b.capacity * 2;
          },
          rw (lt→ltb b.length (b.capacity * 2) (omega (arith, valid.positive))),
          record {
            valid = record {
              sized = omega (
                arith,
                valid.sized,
                length-set wide b.length (some (key, value)),
                length-append b.array (replicate b.capacity none),
                length-replicate {A = Slot V} b.capacity none,
              );
              positive = omega (arith, valid.positive);
              counted = omega (
                arith,
                valid.counted,
                occupied-set key value wide b.length room at_length,
                occupied-append_free b.array b.capacity,
              );
            };
            grew = refl;
            others = λ other ne.
                last_match-set_ne key value other wide b.length ne at_length
                ∙ last_match-append_free other b.array b.capacity;
            counts = λ other.
                count_free wide b.length other room at_length
                ∙ ap (λ n. n + one_if (str_eq key other))
                    (matches-append_free other b.array b.capacity);
            found = λ absent.
                last_match-set_self key value wide b.length room
                  (last_match-append_free key b.array b.capacity ∙ absent);
            either = λ other.
                subst
                  (λ m.
                    (last_match other (set wide b.length (some (key, value))) ≡ m)
                    ⊎ (last_match other (set wide b.length (some (key, value)))
                        ≡ some (key, value)))
                  (last_match-append_free other b.array b.capacity)
                  (last_match-set_either key value other wide b.length at_length);
          },
        )

    -- `tablec_set` on a valid bucket: it does not leave the array, and it counts the entry in the
    -- table only while the bucket is not full.
    pub set_bucket-Wrote :
        (b' : Bucket V) × (set_bucket b key value ≡ ok (b', ltb b.length b.capacity))
        × Wrote b key value b'
    unfolding set_bucket
    set_bucket-Wrote = elim (Bool-cases (b.length == 0)) [
      | inl e ↦
          let empty : b.length ≡ 0 = ground arith in
          let free = get_or-eq-none b.array 0 (omega (arith, valid.counted)) in
          (
            record b { array = set b.array 0 (some (key, value)); length = 1 },
            rw (e, free, lt→ltb b.length b.capacity (omega (arith, valid.positive))),
            write_free 1 0 (omega arith) (omega (arith, valid.positive)) free,
          )
      | inr e ↦ elim (Option-cases (scan_down is_free b.array b.capacity)) [
        | inr (i, found) ↦
            let (free, small) = free_at i found in
            (
              record b { array = set b.array i (some (key, value)); length = b.length + 1 },
              rw (e, found, lt→ltb b.length b.capacity (roomy found)),
              write_free (b.length + 1) i refl small free,
            )
        | inl none_left ↦
            let (b', grown, wrote) = write_grown (full none_left) in
            let same = full none_left in
            let no_room : ltb b.length b.capacity ≡ false = ground arith in
            (b', rw (e, none_left, grown, no_room), wrote)
      ]
    ]
