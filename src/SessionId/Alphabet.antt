-- ===== src/SessionId/Alphabet.antt =====
-- What a session id of server/libs/fq_utils.c looks like.
use pal_ft.Base.{
  ℕ, zero, suc, ◌+◌, ◌%◌, ◌≡◌, refl, ap, Bool, true, ◌&&◌, ◌||◌, [], ◌∷◌, leb, get_or, length,
  arith, every_below, every_below-test,
}
use pal_ft.Libc.{Bytes}
use pal_ft.SessionId.{characters, id_loop, generate_session_id}

-- A letter or a digit in ASCII.
abbrev pub is_alphanumeric : ℕ → Bool
is_alphanumeric c =
    leb b'A' c && leb c b'Z' || (leb b'a' c && leb c b'z' || leb b'0' c && leb c b'9')

abbrev pub every : (ℕ → Bool) → Bytes → Bool
every test [] = true
every test (c ∷ s) = test c && every test s

characters_alphanumeric : every_below (λ k. is_alphanumeric (get_or characters k 0)) 62 ≡ true
unfolding every_below
characters_alphanumeric = refl

id_loop-every : (rand : ℕ → ℕ) (i n : ℕ) → every is_alphanumeric (id_loop rand i n) ≡ true
unfolding id_loop
id_loop-every rand i zero = refl
id_loop-every rand i (suc n) =
    rw
      (every_below-test (λ k. is_alphanumeric (get_or characters k 0)) 62 (rand i % 62)
        (omega arith) characters_alphanumeric)
      (id_loop-every rand (i + 1) n)

id_loop-length : (rand : ℕ → ℕ) (i n : ℕ) → length (id_loop rand i n) ≡ n
unfolding id_loop
id_loop-length rand i zero = refl
id_loop-length rand i (suc n) = ap suc (id_loop-length rand (i + 1) n)

-- Whatever numbers the random source gives, a session id is 16 bytes long, as the buffer for it
-- and the Content-Length of the answer have it, and all of them are letters or digits of ASCII.
pub generate_session_id_lem :
    (rand : ℕ → ℕ)
    → (length (generate_session_id rand) ≡ 16)
      × (every is_alphanumeric (generate_session_id rand) ≡ true)
unfolding generate_session_id
generate_session_id_lem rand = (id_loop-length rand 0 16, id_loop-every rand 0 16)
