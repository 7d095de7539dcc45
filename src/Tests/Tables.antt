-- ===== src/Tests/Tables.antt =====
-- The table of server/libs/tablec.c under operations, on one bucket.
use pal_ft.Base.{ℕ, ◌≡◌, refl, List, [], ◌∷◌, arith, ok}
use pal_ft.Libc.{Bytes, codes}
use pal_ft.Tablec.{Table, tablec_init, tablec_get}
use pal_ft.Tablec.Operations.{
  Operation, put, delete, no_entries, updates, run_operations, entry, run_operations-updates,
}
use pal_ft.Tests.World.{program}

-- The first key is put again after it was deleted.
abbrev operations : List (Operation ℕ)
operations =
    put (codes "a") 1
    ∷ put (codes "b") 2
    ∷ delete (codes "a")
    ∷ put (codes "c") 3
    ∷ put (codes "a") 4
    ∷ []

run_operations-updates_example :
    (t : Table ℕ) × (run_operations (tablec_init 1) operations ≡ ok t)
    × ((key : Bytes) → tablec_get t key ≡ ok (entry key (updates no_entries operations key)))
unfolding program
run_operations-updates_example =
    run_operations-updates 1 operations (omega arith) (refl, (refl, (refl, (refl, tt))))
