-- ===== src/Main/Seeds.antt =====
-- The seed of a session in server/main.c is that of `frequenc_safe_seeding` in the build on Linux.
use pal_ft.Base.{◌≡◌, refl, inl, inr, Option-cases, ok, ◌>>=◌}
use pal_ft.Main.{Env, Server}
use pal_ft.Main.Accounts.{new_session_id}
use pal_ft.SessionId.{generate_session_id}
use pal_ft.SessionId.Seeding.{Sources, linux, seed_or_exit, frequenc_safe_seeding}

pub new_session_id-frequenc_safe_seeding :
    {D : Type 0} (env : Env D) (os : Sources D) (s : Server D)
    → os.getrandom s.world ≡ env.getrandom s.world
    → new_session_id env s ≡ (
        (frequenc_safe_seeding os linux s.world).0 >>= λ n. ok (
          generate_session_id (env.rand n),
          record s { world = (frequenc_safe_seeding os linux s.world).1 },
        ))
unfolding new_session_id frequenc_safe_seeding seed_or_exit
new_session_id-frequenc_safe_seeding env os s same = elim (Option-cases (env.getrandom s.world).0) [
  | inl e ↦ rw (new_session_id, same, e) refl
  | inr (n, e) ↦ rw (new_session_id, same, e) refl
]
