-- ===== src/Main/Startup.antt =====
-- `main` in server/main.c, up to the loop that accepts connections, and the notice filter.
use pal_ft.Base.{not, List, [], ◌∷◌, if◌then◌else◌, Outcome, ok, exited, ◌>>=◌}
use pal_ft.Libc.{Bytes, codes}
use pal_ft.Main.{command, tuples, failed, Env, Server}
use pal_ft.Main.Callback.{serve}
use pal_ft.Tablec.{tablec_init}

-- The three statements, in order.
abbrev pub create_tables : List Bytes
create_tables =
    codes
      "CREATE TABLE IF NOT EXISTS produtos (nome TEXT NOT NULL, tipo TEXT NOT NULL, imagem TEXT NOT NULL, preco INT NOT NULL);"
    ∷ codes
        "CREATE TABLE IF NOT EXISTS usuarios (nome TEXT NOT NULL, email TEXT NOT NULL, senha TEXT NOT NULL);"
    ∷ codes "CREATE TABLE IF NOT EXISTS carrinho (usuario TEXT NOT NULL, produto TEXT NOT NULL);"
    ∷ []

module _ {D : Type 0} (env : Env D) where
  -- The first statement that does not return PGRES_COMMAND_OK ends the process.
  unfoldable pub run_all : List Bytes → D → Outcome D
  run_all [] d = ok d
  run_all (sql ∷ more) d =
      let (reply, d') = env.exec sql d in
      elim reply [ tuples _ ↦ exited 1 | command ↦ run_all more d' | failed ↦ exited 1 ]

  unfoldable pub start : D → Outcome (Server D)
  start d =
      let (up, d₁) = env.connect d in
      if not up then exited 1 else (do
        d₂ ← run_all create_tables d₁
        ok (record { sessions = tablec_init 4; world = d₂; sent = [] }))

  -- The program on the paths of the requests that it gets.
  unfoldable pub main : D → List Bytes → Outcome (Server D)
  main d paths = do s ← start d; serve env s paths
