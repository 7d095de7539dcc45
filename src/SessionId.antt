-- ===== src/SessionId.antt =====
-- server/libs/fq_utils.c: session ids. `rand` and the seed from `getrandom` are parameters.
pub mod Alphabet
pub mod Seeding
use pal_ft.Base.{ℕ, zero, suc, ◌+◌, ◌%◌, [], ◌∷◌, get_or}
use pal_ft.Libc.{Bytes, codes}

abbrev pub characters : Bytes
characters = codes "ABCDEFGHIJKLMNOPQRSTUVWXYZabcdefghijklmnopqrstuvwxyz0123456789"

-- The loop from `i` on, with `n` rounds left; `rand i` is the number that the call of round `i` gives.
-- The modulus is `sizeof(characters) - 1`.
unfoldable pub id_loop : (ℕ → ℕ) → ℕ → ℕ → Bytes
id_loop rand i zero = []
id_loop rand i (suc n) = get_or characters (rand i % 62) 0 ∷ id_loop rand (i + 1) n

-- `frequenc_generate_session_id`, after `srand`.
unfoldable pub generate_session_id : (ℕ → ℕ) → Bytes
generate_session_id rand = id_loop rand 0 16
