-- ===== src/Tablec/Insert.antt =====
-- A new key in the table of server/libs/tablec.c.
use pal_ft.Base.{◌≡◌, subst, Bool-cases, inl, inr, some, none, if◌then◌else◌, ok}
use pal_ft.Libc.{Bytes, str_eq, str_eq_iff}
use pal_ft.Tablec.{Table, tablec_set, tablec_get}
use pal_ft.Tablec.Lookup.{IsValid}
use pal_ft.Tablec.Written.{tablec_set-Stored}

-- Storing a key that a valid table does not hold returns a valid table, in which the key finds its
-- value and every other key finds what it found before.
pub tablec_set-tablec_get {ℓ} :
    {V : Type ℓ} (t : Table V) (key : Bytes) (value : V)
    → IsValid t
    → tablec_get t key ≡ ok none
    → (t' : Table V) × (tablec_set t key value ≡ ok t')
      × IsValid t'
      × ((other : Bytes)
          → tablec_get t' other
            ≡ (if str_eq key other then ok (some (key, value)) else tablec_get t other))
tablec_set-tablec_get t key value valid fresh =
    let (t', done, stored) = tablec_set-Stored t key valid value in
    (
      t',
      done,
      stored.is_valid,
      λ other. elim (Bool-cases (str_eq key other)) [
        | inl e ↦ rw e (
            subst (λ k. tablec_get t' k ≡ ok (some (key, value))) ((str_eq_iff key other).0 e)
              (stored.found fresh))
        | inr e ↦ rw e (stored.others other e)
      ],
    )
