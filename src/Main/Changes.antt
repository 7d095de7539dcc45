-- ===== src/Main/Changes.antt =====
-- The routes of server/main.c that change a cart, where the database does what it is asked, and the
-- list of a cart whose product is gone.
use pal_ft.Base.{◌≡◌, ◌∙◌, true, none, some, List, ◌∷◌, arith, Outcome, ok, fault}
use pal_ft.HttpServer.{Response}
use pal_ft.HttpServer.Length.{IsSendable}
use pal_ft.Libc.{Bytes, codes}
use pal_ft.Main.{
  Row, tuples, command, Env, Server, plain, param, send, column, with_connection, with_command,
}
use pal_ft.Main.Access.{given_of_param}
use pal_ft.Main.Callback.{Route, handle}
use pal_ft.Main.Cart.{with_session, add_to_cart, delete_from_cart, list_cart, cart_rows}
use pal_ft.Main.Products.{get_produto_by_name}
use pal_ft.Main.Sending.{
  Answered, send-Answered, plain-IsSendable, with_connection_up, with_command_done,
  with_tuples_rows,
}
use pal_ft.Main.Sql.{add_to_cart_sql, delete_from_cart_sql, cart_sql}
use pal_ft.QueryParser.{Info}
use pal_ft.Tablec.{tablec_get}

-- The routes that change a cart, each with its statement.
pub data IsChange : Route → (Bytes → Bytes → Bytes) → Type 0 where
  adding : IsChange Route.add_to_cart add_to_cart_sql
  deleting : IsChange Route.delete_from_cart delete_from_cart_sql

module _ {D : Type 0} (env : Env D) (s : Server D) (info : Info) (d₁ d₂ : D)
    (up : env.connect s.world ≡ (true, d₁)) where
  -- A connection, one statement that is done, and the answer.
  asked :
      (r : Response) (sql : Bytes)
      → IsSendable r
      → env.exec sql d₁ ≡ (command, d₂)
      → Answered
          (record s { world = d₂ })
          r
          (with_connection env s λ s₁. with_command env s₁ sql λ s₂. send s₂ r)
  asked r sql can done =
      let (bytes, sendable, sent) = send-Answered (record s { world = d₂ }) r can in
      (
        bytes,
        sendable,
        with_connection_up env s d₁ _ up
            ∙ (with_command_done env (record s { world = d₁ }) d₂ sql _ done ∙ sent),
      )

  no_content : IsSendable (plain 204)
  no_content = plain-IsSendable 204 (omega arith) (omega arith)

  with_session-known :
      (session key user : Bytes) (k : Bytes → Outcome (Server D))
      → param info (codes "session") ≡ some session
      → tablec_get s.sessions session ≡ ok (some (key, user))
      → with_session env s info k ≡ k user
  unfolding with_session
  with_session-known session key user k e known = rw (e, known)

  -- A request that adds to or deletes from a cart, with a product and with a session that finds a
  -- user, returns if the database is up and does the route's statement for that user and product:
  -- it asks that one statement, and does nothing else but answer 204.
  pub cart_change :
      (r : Route) (statement : Bytes → Bytes → Bytes) (produto session key user : Bytes)
      → IsChange r statement
      → param info (codes "produto") ≡ some produto
      → param info (codes "session") ≡ some session
      → tablec_get s.sessions session ≡ ok (some (key, user))
      → env.exec (statement user produto) d₁ ≡ (command, d₂)
      → Answered (record s { world = d₂ }) (plain 204) (handle env r s info)
  unfolding handle add_to_cart delete_from_cart
  cart_change r statement produto session key user adding p e known done =
      rw (given_of_param info _ p, p, with_session-known session key user _ e known)
        (asked (plain 204) _ no_content done)
  cart_change r statement produto session key user deleting p e known done =
      rw (given_of_param info _ p, p, with_session-known session key user _ e known)
        (asked (plain 204) _ no_content done)

  -- A request for the list of a cart, with a session that finds a user, reads through a null
  -- pointer if the database is up and answers with rows the first of which names a product that
  -- the lookup does not find.
  pub missing_product :
      (session key user nome : Bytes) (row : Row) (rows : List Row) (d₃ : D)
      → param info (codes "session") ≡ some session
      → tablec_get s.sessions session ≡ ok (some (key, user))
      → env.exec (cart_sql user) d₁ ≡ (tuples (row ∷ rows), d₂)
      → column row 1 ≡ ok nome
      → get_produto_by_name env d₂ nome ≡ ok (none, d₃)
      → list_cart env s info ≡ fault
  unfolding list_cart cart_rows
  missing_product session key user nome row rows d₃ e known answer named gone =
      with_session-known session key user _ e known
      ∙ (with_connection_up env s d₁ _ up
          ∙ (with_tuples_rows env (record s { world = d₁ }) d₂ (cart_sql user) (row ∷ rows) _ answer
              ∙ (rw (named, gone))))
