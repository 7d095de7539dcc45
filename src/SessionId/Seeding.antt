-- ===== src/SessionId/Seeding.antt =====
-- `frequenc_safe_seeding` of server/libs/fq_utils.c, in each of its builds.
use pal_ft.Base.{
  ℕ, ◌+◌, ◌%◌, ◌^◌, ◌≡◌, refl, ◌∙◌, ◌⊎◌, inl, inr, Bool, true, false, Bool-cases, Option, none,
  some, if◌then◌else◌, Outcome, ok, exited,
}

-- _WIN32, __linux__, ALLOW_UNSECURE_RANDOM, or none of them
pub data Build : Type 0 where
  windows linux unsecure_random unknown : Build

-- The calls of the operating system on what is outside. An `Option` is `none` where a call fails.
pub record Sources (W : Type 0) : Type 0 where
  -- CryptAcquireContext, CryptGenRandom and CryptReleaseContext
  pub acquire_context : W → Bool × W
  pub gen_random : W → Option ℕ × W
  pub release_context : W → W
  pub getrandom : W → Option ℕ × W
  pub time : W → ℕ × W
  -- fopen, fread and fclose of /dev/urandom
  pub fopen : W → Bool × W
  pub fread : W → Option ℕ × W
  pub fclose : W → W

-- A seed that was drawn; without one the process ends.
unfoldable pub seed_or_exit : Option ℕ → Outcome ℕ
seed_or_exit none = exited 1
seed_or_exit (some seed) = ok seed

-- A seed, or the end of the process with status 1.
abbrev pub IsSeedOrExit : Outcome ℕ → Type 0
IsSeedOrExit result = ((seed : ℕ) × (result ≡ ok seed)) ⊎ (result ≡ exited 1)

module _ {W : Type 0} (os : Sources W) where
  -- The context is released on both branches behind it, and so is the file closed.
  unfoldable pub frequenc_safe_seeding : Build → W → Outcome ℕ × W
  frequenc_safe_seeding windows w =
      let (acquired, w₁) = os.acquire_context w in
      let (seed, w₂) = os.gen_random w₁ in
      if acquired then (seed_or_exit seed, os.release_context w₂) else (exited 1, w₁)
  frequenc_safe_seeding linux w = let (seed, w') = os.getrandom w in (seed_or_exit seed, w')
  frequenc_safe_seeding unsecure_random w = let (now, w') = os.time w in (ok (now % 2 ^ 32), w')
  frequenc_safe_seeding unknown w =
      let (opened, w₁) = os.fopen w in
      let (seed, w₂) = os.fread w₁ in
      if opened then (seed_or_exit seed, os.fclose w₂) else (exited 1, w₁)

  -- How many contexts and files are open: one more after a call that opens one, one less after a
  -- call that gives one back, and as many as before after any other call.
  pub record Counts (held : W → ℕ) : Type 0 where
    pub acquired :
        (w : W) → (os.acquire_context w).0 ≡ true → held (os.acquire_context w).1 ≡ held w + 1
    pub not_acquired :
        (w : W) → (os.acquire_context w).0 ≡ false → held (os.acquire_context w).1 ≡ held w
    pub generated : (w : W) → held (os.gen_random w).1 ≡ held w
    pub released : (w : W) (n : ℕ) → held w ≡ n + 1 → held (os.release_context w) ≡ n
    pub drawn : (w : W) → held (os.getrandom w).1 ≡ held w
    pub timed : (w : W) → held (os.time w).1 ≡ held w
    pub opened : (w : W) → (os.fopen w).0 ≡ true → held (os.fopen w).1 ≡ held w + 1
    pub not_opened : (w : W) → (os.fopen w).0 ≡ false → held (os.fopen w).1 ≡ held w
    pub read : (w : W) → held (os.fread w).1 ≡ held w
    pub closed : (w : W) (n : ℕ) → held w ≡ n + 1 → held (os.fclose w) ≡ n

  seed_or_exit_lem : (seed : Option ℕ) → IsSeedOrExit (seed_or_exit seed)
  unfolding seed_or_exit
  seed_or_exit_lem none = inr refl
  seed_or_exit_lem (some seed) = inl (seed, refl)

  -- In each of the four builds, and on every branch, failures included, `frequenc_safe_seeding`
  -- gives a seed or ends the process with status 1, and as many contexts and files are open
  -- afterwards as before, if each call of the operating system that succeeds in opening one adds
  -- one, each that gives one back takes one away, and no other call changes the number.
  pub frequenc_safe_seeding_lem :
      (held : W → ℕ) (build : Build) (w : W)
      → Counts held
      → IsSeedOrExit (frequenc_safe_seeding build w).0
        × (held (frequenc_safe_seeding build w).1 ≡ held w)
  unfolding frequenc_safe_seeding
  frequenc_safe_seeding_lem held windows w counts = elim (Bool-cases (os.acquire_context w).0) [
    | inl e ↦ rw e (
      seed_or_exit_lem (os.gen_random (os.acquire_context w).1).0,
      counts.released _ (held w) (counts.generated _ ∙ counts.acquired w e),
    )
    | inr e ↦ rw e (inr refl, counts.not_acquired w e)
  ]
  frequenc_safe_seeding_lem held linux w counts =
      (seed_or_exit_lem (os.getrandom w).0, counts.drawn w)
  frequenc_safe_seeding_lem held unsecure_random w counts =
      (inl ((os.time w).0 % 2 ^ 32, refl), counts.timed w)
  frequenc_safe_seeding_lem held unknown w counts = elim (Bool-cases (os.fopen w).0) [
    | inl e ↦ rw e (
      seed_or_exit_lem (os.fread (os.fopen w).1).0,
      counts.closed _ (held w) (counts.read _ ∙ counts.opened w e),
    )
    | inr e ↦ rw e (inr refl, counts.not_opened w e)
  ]
