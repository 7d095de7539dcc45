-- ===== src/Main/Accounts.antt =====
-- /api/register and /api/login in server/main.c.
use pal_ft.Base.{
  not, ◌&&◌, none, some, List, [], ◌∷◌, if◌then◌else◌, Outcome, ok, exited, ◌>>=◌, deref,
}
use pal_ft.Libc.{Bytes, codes}
use pal_ft.Main.{
  Row, Env, Server, plain, json, param, given, send, normalize_string, with_connection, with_tuples,
  with_command,
}
use pal_ft.Main.Sql.{register_sql, login_sql}
use pal_ft.QueryParser.{Info}
use pal_ft.SessionId.{generate_session_id}
use pal_ft.Tablec.{tablec_set}

module _ {D : Type 0} (env : Env D) where
  -- /api/register
  unfoldable pub register : Server D → Info → Outcome (Server D)
  register s info =
      if not
        (given info (codes "name") && given info (codes "email") && given info (codes "password"))
      then send s (plain 400)
      else (do
        name ← deref (param info (codes "name"))
        email ← deref (param info (codes "email"))
        password ← deref (param info (codes "password"))
        with_connection env s
            λ s₁. with_command env s₁ (register_sql name email password) λ s₂. send s₂ (plain 204))

  -- `frequenc_generate_session_id`; without a seed the process ends.
  unfoldable pub new_session_id : Server D → Outcome (Bytes × Server D)
  new_session_id s =
      let (seed, world) = env.getrandom s.world in
      elim seed [
        | none ↦ exited 1
        | some n ↦ ok (generate_session_id (env.rand n), record s { world = world })
      ]

  -- A new session for the email, and the answer that carries its id.
  unfoldable pub open_session : Server D → Bytes → Outcome (Server D)
  open_session s email = do
    (session, s₁) ← new_session_id s
    sessions ← tablec_set s₁.sessions session (normalize_string email)
    send (record s₁ { sessions = sessions }) (json 200 session (codes "16") 16)

  -- The part of the login behind the query: no row means a wrong email or password.
  unfoldable pub login_rows : Bytes → Server D → List Row → Outcome (Server D)
  login_rows email s [] = send s (plain 403)
  login_rows email s (_ ∷ _) = open_session s email

  -- /api/login
  unfoldable pub login : Server D → Info → Outcome (Server D)
  login s info =
      if not (given info (codes "email") && given info (codes "password"))
      then send s (plain 400)
      else (do
        email ← deref (param info (codes "email"))
        password ← deref (param info (codes "password"))
        with_connection env s
            λ s₁. with_tuples env s₁ (login_sql email password) (login_rows email))
