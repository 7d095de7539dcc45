-- ===== src/Tablec/Operations.antt =====
-- The table of server/libs/tablec.c under any operations, against a map from keys to values.
use mathlib.Core.Option
use pal_ft.Base.{
  ℕ, ◌≤◌, ◌≡◌, refl, ap, subst, ◌∙◌, Bool-cases, inl, inr, Option, none, some, List, [], ◌∷◌,
  if◌then◌else◌, Outcome, ok, ◌>>=◌,
}
use pal_ft.Libc.{Bytes, str_eq, str_eq_iff}
use pal_ft.Tablec.{Slot, Table, tablec_init, tablec_set, tablec_get, tablec_del}
use pal_ft.Tablec.Delete.{tablec_del-tablec_get}
use pal_ft.Tablec.Lookup.{
  IsValid, AreUnique, tablec_init-IsValid, tablec_init-AreUnique, tablec_get-tablec_init,
}
use pal_ft.Tablec.Written.{tablec_set-Stored}

pub data Operation {ℓ} (V : Type ℓ) : Type ℓ where
  put : Bytes → V → Operation V
  delete : Bytes → Operation V

-- A map from keys to values.
abbrev pub Dictionary {ℓ} : Type ℓ → Type ℓ
Dictionary V = Bytes → Option V

module _ {ℓ} {V : Type ℓ} where
  abbrev pub no_entries : Dictionary V
  no_entries key = none

  abbrev pub updated : Dictionary V → Operation V → Dictionary V
  updated d (put key value) other = if str_eq key other then some value else d other
  updated d (delete key) other = if str_eq key other then none else d other

  abbrev pub updates : Dictionary V → List (Operation V) → Dictionary V
  updates d [] = d
  updates d (op ∷ ops) = updates (updated d op) ops

  -- Only a key that is not there is put.
  abbrev pub AreFresh : Dictionary V → List (Operation V) → Type ℓ
  AreFresh d [] = Unit
  AreFresh d (put key value ∷ ops) = (d key ≡ none) × AreFresh (updated d (put key value)) ops
  AreFresh d (delete key ∷ ops) = AreFresh (updated d (delete key)) ops

  abbrev pub run_operations : Table V → List (Operation V) → Outcome (Table V)
  run_operations t [] = ok t
  run_operations t (put key value ∷ ops) = do t' ← tablec_set t key value; run_operations t' ops
  run_operations t (delete key ∷ ops) = do t' ← tablec_del t key; run_operations t' ops

  abbrev pub entry : Bytes → Option V → Slot V
  entry key found = Option.map (λ value. (key, value)) found

  record Represents (t : Table V) (d : Dictionary V) : Type ℓ where
    valid : IsValid t
    unique : AreUnique t
    same : (key : Bytes) → tablec_get t key ≡ ok (entry key (d key))

  put-Represents :
      (t : Table V) (d : Dictionary V) (key : Bytes) (value : V)
      → Represents t d
      → d key ≡ none
      → (t' : Table V) × (tablec_set t key value ≡ ok t')
        × Represents t' (updated d (put key value))
  put-Represents t d key value r fresh =
      let (t', set_to, stored) = tablec_set-Stored t key r.valid value in
      let absent = r.same key ∙ ap (λ o. ok (entry key o)) fresh in
      (
        t',
        set_to,
        record {
          valid = stored.is_valid;
          unique = stored.unique absent r.unique;
          same = λ other. elim (Bool-cases (str_eq key other)) [
            | inl e ↦ rw e (
                subst (λ k. tablec_get t' k ≡ ok (some (k, value))) ((str_eq_iff key other).0 e)
                  (stored.found absent))
            | inr e ↦ rw e (stored.others other e ∙ r.same other)
          ];
        },
      )

  delete-Represents :
      (t : Table V) (d : Dictionary V) (key : Bytes)
      → Represents t d
      → (t' : Table V) × (tablec_del t key ≡ ok t') × Represents t' (updated d (delete key))
  delete-Represents t d key r =
      let (t', removed, valid, unique, gets) = tablec_del-tablec_get t key r.valid r.unique in
      (
        t',
        removed,
        record {
          valid = valid;
          unique = unique;
          same = λ other. elim (Bool-cases (str_eq key other)) [
            | inl e ↦ gets other ∙ rw e refl
            | inr e ↦ gets other ∙ rw e (r.same other)
          ];
        },
      )

  run_operations-Represents :
      (t : Table V) (d : Dictionary V) (ops : List (Operation V))
      → Represents t d
      → AreFresh d ops
      → (t' : Table V) × (run_operations t ops ≡ ok t') × Represents t' (updates d ops)
  run_operations-Represents t d [] r fresh = (t, refl, r)
  run_operations-Represents t d (put key value ∷ ops) r (fresh, more) =
      let (u, set_to, r') = put-Represents t d key value r fresh in
      let (t', rest, represents) =
        run_operations-Represents u (updated d (put key value)) ops r' more in
      (t', rw set_to rest, represents)
  run_operations-Represents t d (delete key ∷ ops) r more =
      let (u, removed, r') = delete-Represents t d key r in
      let (t', rest, represents) =
        run_operations-Represents u (updated d (delete key)) ops r' more in
      (t', rw removed rest, represents)

  -- Any list of operations on a new table with one bucket or more, each of which stores a key that
  -- is not there or deletes any key, returns, and then every key finds what it has in the map that
  -- the same operations give.
  pub run_operations-updates :
      (n : ℕ) (ops : List (Operation V))
      → 1 ≤ n
      → AreFresh no_entries ops
      → (t : Table V) × (run_operations (tablec_init n) ops ≡ ok t)
        × ((key : Bytes) → tablec_get t key ≡ ok (entry key (updates no_entries ops key)))
  run_operations-updates n ops positive fresh =
      let start : Represents (tablec_init n) no_entries = record {
        valid = tablec_init-IsValid n positive;
        unique = tablec_init-AreUnique n;
        same = λ key. tablec_get-tablec_init n key positive;
      } in
      let (t, ran, represents) =
        run_operations-Represents (tablec_init n) no_entries ops start fresh in
      (t, ran, represents.same)
