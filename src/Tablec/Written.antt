-- ===== src/Tablec/Written.antt =====
-- One bucket of the table of server/libs/tablec.c is replaced: what `tablec_set` and `tablec_del` do.
use pal_ft.Base.{
  ok-injective, one_if, ℕ, ◌+◌, ◌≤◌, ◌<◌, ◌≡◌, refl, sym, ap, subst, ◌∙◌, ◌⊎◌, inl, inr, false,
  none, some, some-injective, List, arith, ltb, length, length-set, get_elem?, set,
  get_elem?-set_self, get_elem?-set_ne, Bool-cases, ==_iff, ◌==◌, ok, if◌then◌else◌,
}
use pal_ft.Libc.{Bytes, str_eq, str_eq_iff}
use pal_ft.Tablec.{Bucket, Table, tablec_set, tablec_get}
use pal_ft.Tablec.Slots.{last_match}
use pal_ft.Tablec.Unique.{matches, last_match-none}
use pal_ft.Tablec.Valid.{IsValidBucket, Wrote, set_bucket-Wrote}
use pal_ft.Tablec.Lookup.{
  home, home-lt, IsValid, AreUnique, locate-home, tablec_get-last_match, Stored,
}

set_each {ℓ} :
    {V : Type ℓ} (bs : List (Bucket V)) (h : ℕ) (b' : Bucket V)
    → h < length bs
    → IsValidBucket b'
    → ((i : ℕ) (b : Bucket V) → get_elem? bs i ≡ some b → IsValidBucket b)
    → (i : ℕ) (c : Bucket V) → get_elem? (set bs h b') i ≡ some c
    → IsValidBucket c
set_each bs h b' inside new old i c e = elim (Bool-cases (h == i)) [
  | inl same ↦
      let here : some b' ≡ some c =
        sym (get_elem?-set_self bs h b' inside)
        ∙ (ap (get_elem? (set bs h b')) ((==_iff h i).0 same) ∙ e) in
      subst IsValidBucket (some-injective _ _ here) new
  | inr ne ↦ old i c (sym (get_elem?-set_ne bs b' (λ at. cc ((==_iff h i).1 at))) ∙ e)
]

-- The bucket of a key is replaced by one that keeps the entries of all other keys.
module _ {ℓ} {V : Type ℓ} (t : Table V) (key : Bytes) (valid : IsValid t) where
  module _ (b b' : Bucket V) (at_home : get_elem? t.buckets (home key t.capacity) ≡ some b)
      (new : IsValidBucket b')
      (kept : (other : Bytes)
        → str_eq key other ≡ false
        → last_match other b'.array ≡ last_match other b.array)
      (counter : ℕ) where
    abbrev pub written : Table V
    written = record t { buckets = set t.buckets (home key t.capacity) b'; length = counter }

    inside : home key t.capacity < length t.buckets
    inside = rw valid.sized (home-lt t.capacity key valid.positive)

    pub written_home : get_elem? written.buckets (home key t.capacity) ≡ some b'
    written_home = get_elem?-set_self t.buckets (home key t.capacity) b' inside

    pub written-IsValid : IsValid written
    written-IsValid = record {
      sized = length-set t.buckets (home key t.capacity) b' ∙ valid.sized;
      positive = valid.positive;
      each = set_each t.buckets (home key t.capacity) b' inside new valid.each;
    }

    -- A key of another bucket, and another key of this one.
    pub written-others :
        (other : Bytes) → str_eq key other ≡ false → tablec_get written other ≡ tablec_get t other
    written-others other ne = elim (Bool-cases (home key t.capacity == home other t.capacity)) [
      | inl same ↦
          let at : home key t.capacity ≡ home other t.capacity = (==_iff _ _).0 same in
          tablec_get-last_match written other written-IsValid b'
            (ap (get_elem? written.buckets) (sym at) ∙ written_home)
          ∙ (ap ok (kept other ne)
              ∙ sym (
                  tablec_get-last_match t other valid b
                    (ap (get_elem? t.buckets) (sym at) ∙ at_home)))
      | inr apart ↦
          let (c, old, _, _) = locate-home t other valid in
          tablec_get-last_match written other written-IsValid c
            (get_elem?-set_ne t.buckets b' (λ at. cc ((==_iff _ _).1 at)) ∙ old)
          ∙ sym (tablec_get-last_match t other valid c old)
    ]

    pub written_self : tablec_get written key ≡ ok (last_match key b'.array)
    written_self = tablec_get-last_match written key written-IsValid b' written_home

    pub written-AreUnique : ((k : Bytes) → matches k b'.array ≤ 1) → AreUnique t → AreUnique written
    written-AreUnique once unique i c e = elim (Bool-cases (home key t.capacity == i)) [
      | inl same ↦
          let here : some b' ≡ some c =
            sym written_home ∙ (ap (get_elem? written.buckets) ((==_iff _ i).0 same) ∙ e) in
          subst (λ d. (k : Bytes) → matches k d.array ≤ 1) (some-injective _ _ here) once
      | inr ne ↦ unique i c (sym (get_elem?-set_ne t.buckets b' (λ at. cc ((==_iff _ i).1 at))) ∙ e)
    ]

  -- A write of one bucket.
  module _ (value : V) (b b' : Bucket V)
      (at_home : get_elem? t.buckets (home key t.capacity) ≡ some b) (wrote : Wrote b key value b')
      (counter : ℕ) where
    abbrev stored : Table V
    stored = written b b' at_home wrote.valid wrote.others counter

    before : tablec_get t key ≡ ok (last_match key b.array)
    before = tablec_get-last_match t key valid b at_home

    after : tablec_get stored key ≡ ok (last_match key b'.array)
    after = written_self b b' at_home wrote.valid wrote.others counter

    stored-either :
        (other : Bytes)
        → (tablec_get stored other ≡ tablec_get t other)
          ⊎ (tablec_get stored other ≡ ok (some (key, value)))
    stored-either other = elim (Bool-cases (str_eq key other)) [
      | inr ne ↦ inl (written-others b b' at_home wrote.valid wrote.others counter other ne)
      | inl e ↦
          subst
            (λ k.
              (tablec_get stored k ≡ tablec_get t k)
              ⊎ (tablec_get stored k ≡ ok (some (key, value))))
            ((str_eq_iff key other).0 e)
            (elim (wrote.either key) [
              | inl kept ↦ inl (after ∙ (ap ok kept ∙ sym before))
              | inr met ↦ inr (after ∙ ap ok met)
            ])
    ]

    stored_once :
        tablec_get t key ≡ ok none
        → ((k : Bytes) → matches k b.array ≤ 1)
        → (k : Bytes) → matches k b'.array ≤ 1
    stored_once absent once k = elim (Bool-cases (str_eq key k)) [
      | inl e ↦
          let fresh = last_match-none key b.array (ok-injective (sym before ∙ absent)) in
          let same : matches key b.array ≡ matches k b.array =
            ap (λ l. matches l b.array) ((str_eq_iff key k).0 e) in
          omega (arith, wrote.counts k, fresh, same, ap one_if e)
      | inr ne ↦ omega (arith, wrote.counts k, once k, ap one_if ne)
    ]

    stored-Stored : Stored t key valid value stored
    stored-Stored = record {
      is_valid = written-IsValid b b' at_home wrote.valid wrote.others counter;
      same_capacity = refl;
      others = written-others b b' at_home wrote.valid wrote.others counter;
      found = λ absent. after ∙ ap ok (wrote.found (ok-injective (sym before ∙ absent)));
      either = stored-either;
      unique = λ absent unique.
          written-AreUnique b b' at_home wrote.valid wrote.others counter
            (stored_once absent (unique (home key t.capacity) b at_home)) unique;
    }

  -- `tablec_set` on a valid table returns.
  pub tablec_set-Stored :
      (value : V) → (t' : Table V) × (tablec_set t key value ≡ ok t') × Stored t key valid value t'
  unfolding tablec_set
  tablec_set-Stored value =
      let (b, at_home, located, bucket) = locate-home t key valid in
      let (b', set_to, wrote) = set_bucket-Wrote b key value bucket in
      (
        stored value b b' at_home wrote
            (if ltb b.length b.capacity then t.length + 1 else t.length),
        rw (located, set_to),
        stored-Stored value b b' at_home wrote _,
      )
