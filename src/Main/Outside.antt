-- ===== src/Main/Outside.antt =====
-- What server/main.c does to what is outside: connections, seeds and statements.
pub mod Handlers
pub mod Routes
use pal_ft.Base.{
  ℕ, ◌≤◌, ◌≡◌, refl, ap, true, false, Bool, Bool-cases, inl, inr, Option, none, some, List, [], ◌∷◌,
  arith, get_elem?, length, Outcome, ok, exited, ◌>>=◌,
}
use pal_ft.Base.{Ensures, >>=-Ensures, >>=-Ensures_of, ok-Ensures}
use pal_ft.HttpServer.{Response, httpserver_send_response}
use pal_ft.Libc.{Bytes}
use pal_ft.Main.{
  Row, Reply, tuples, command, failed, Env, Server, plain, send, with_connection, with_tuples,
  with_command, column,
}
use pal_ft.Main.Cuts.{IsCut, HasCleanUser, formatted-IsCut}
use pal_ft.Main.Quotes.{IsClean, split_quotes}
use pal_ft.Main.Sql.{product_by_name_sql, products_sql}
use pal_ft.Main.Startup.{create_tables}
use pal_ft.Main.Statements.{
  Statement, select_from_usuarios, insert_into_usuarios, insert_into_produtos, delete_from_produtos,
  insert_into_carrinho, delete_from_carrinho, select_from_carrinho, formatted, pieces,
}

-- The values from a query have a length that its parser allows, and the user of a cart holds no
-- single quote.
abbrev pub IsGiven : Statement → Type 0
IsGiven (select_from_usuarios email password) = (length email ≤ 1023) × (length password ≤ 1023)
IsGiven (insert_into_usuarios name email password) =
    (length name ≤ 1023) × (length email ≤ 1023) × (length password ≤ 1023)
IsGiven (insert_into_produtos nome tipo imagem preco) =
    (length nome ≤ 1023) × (length tipo ≤ 1023) × (length imagem ≤ 1023)
IsGiven (delete_from_produtos nome) = length nome ≤ 1023
IsGiven (insert_into_carrinho user produto) = IsClean user × (length produto ≤ 1023)
IsGiven (delete_from_carrinho user produto) = IsClean user × (length produto ≤ 1023)
IsGiven (select_from_carrinho user) = IsClean user

-- The statements that the program asks.
pub data Asked {D : Type 0} (env : Env D) : Bytes → Type 0 where
  creates : (i : ℕ) (sql : Bytes) → get_elem? create_tables i ≡ some sql → Asked env sql
  lists_products : Asked env products_sql
  -- of the second column of a row that the database gave
  finds_product :
      (sql : Bytes) (d d' : D) (rows : List Row) (i : ℕ) (row : Row) (nome : Bytes)
      → env.exec sql d ≡ (tuples rows, d')
      → get_elem? rows i ≡ some row
      → column row 1 ≡ ok nome
      → Asked env (product_by_name_sql nome)
  -- with the values inside their literals, of which the last may be cut off
  holds :
      (s : Statement)
      → IsGiven s
      → IsCut (split_quotes (formatted s)) (pieces s)
      → Asked env (formatted s)

-- No value of a statement ends its literal.
pub holds_clean :
    {D : Type 0} (env : Env D) (s : Statement)
    → IsGiven s
    → HasCleanUser s
    → Asked env (formatted s)
holds_clean env s given clean = holds s given (formatted-IsCut s clean)

-- What is outside after some calls, from what was outside before them.
pub data Calls {D : Type 0} (env : Env D) (start : D) : D → Type 0 where
  none_yet : Calls env start start
  connects : (d : D) → Calls env start d → Calls env start (env.connect d).1
  seeds : (d : D) → Calls env start d → Calls env start (env.getrandom d).1
  asks :
      (sql : Bytes) (d : D) → Asked env sql → Calls env start d → Calls env start (env.exec sql d).1

module _ {D : Type 0} (env : Env D) (start : D) where
  abbrev pub Called : Server D → Type 0
  Called s = Calls env start s.world

  pub send-Called : (s : Server D) (r : Response) → Called s → Ensures Called (send s r)
  unfolding send
  send-Called s r h = >>=-Ensures _ (httpserver_send_response r) _ λ bytes. ok-Ensures _ _ h

  pub with_connection-Called :
      (s : Server D) (k : Server D → Outcome (Server D))
      → Called s
      → ((d : D) → Calls env start d → Ensures Called (k (record s { world = d })))
      → Ensures Called (with_connection env s k)
  unfolding with_connection
  with_connection-Called s k q h =
      let d = (env.connect s.world).1 in
      let called = connects s.world q in
      elim (Bool-cases (env.connect s.world).0) [
        | inl up ↦ rw up (h d called)
        | inr down ↦ rw down (send-Called (record s { world = d }) (plain 500) called)
      ]

  pub with_command-Called :
      (s : Server D) (sql : Bytes) (k : Server D → Outcome (Server D))
      → Asked env sql
      → Called s
      → ((d : D) → Calls env start d → Ensures Called (k (record s { world = d })))
      → Ensures Called (with_command env s sql k)
  unfolding with_command
  with_command-Called s sql k asked q h = go (env.exec sql s.world).0
    where
      d' : D
      d' = (env.exec sql s.world).1

      go :
          (reply : Reply)
          → Ensures Called (elim reply as (λ _. Outcome (Server D)) [
            | tuples rows ↦ send (record s { world = d' }) (plain 400)
            | command ↦ k (record s { world = d' })
            | failed ↦ send (record s { world = d' }) (plain 400)
          ])
      go (tuples rows) =
          send-Called (record s { world = d' }) (plain 400) (asks sql s.world asked q)
      go command = h d' (asks sql s.world asked q)
      go failed = send-Called (record s { world = d' }) (plain 400) (asks sql s.world asked q)

  pub with_tuples-Called :
      (s : Server D) (sql : Bytes) (k : Server D → List Row → Outcome (Server D))
      → Asked env sql
      → Called s
      → ((d : D) (rows : List Row)
          → env.exec sql s.world ≡ (tuples rows, d)
          → Calls env start d
          → Ensures Called (k (record s { world = d }) rows))
      → Ensures Called (with_tuples env s sql k)
  unfolding with_tuples
  with_tuples-Called s sql k asked q h = go (env.exec sql s.world).0 refl
    where
      d' : D
      d' = (env.exec sql s.world).1

      go :
          (reply : Reply)
          → (env.exec sql s.world).0 ≡ reply
          → Ensures Called (elim reply as (λ _. Outcome (Server D)) [
            | tuples rows ↦ k (record s { world = d' }) rows
            | command ↦ send (record s { world = d' }) (plain 400)
            | failed ↦ send (record s { world = d' }) (plain 400)
          ])
      go (tuples rows) e =
          h d' rows (ap (λ (r : Reply). let p : Reply × D = (r, d') in p) e)
            (asks sql s.world asked q)
      go command e = send-Called (record s { world = d' }) (plain 400) (asks sql s.world asked q)
      go failed e = send-Called (record s { world = d' }) (plain 400) (asks sql s.world asked q)
