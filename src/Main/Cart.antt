-- ===== src/Main/Cart.antt =====
-- The handlers of /api/carrinho/ in server/main.c. None of them tests that `session` is in the query.
use pal_ft.Base.{not, none, some, List, [], ◌∷◌, if◌then◌else◌, Outcome, ok, ◌>>=◌, deref}
use pal_ft.Libc.{Bytes, codes}
use pal_ft.Main.{
  Row, Env, Server, plain, param, given, column, send, with_connection, with_tuples, with_command,
}
use pal_ft.Main.Products.{product_object, get_produto_by_name, json_response}
use pal_ft.Main.Sql.{add_to_cart_sql, delete_from_cart_sql, cart_sql}
use pal_ft.Pjsonb.{Builder, array, pjsonb_init, pjsonb_end}
use pal_ft.QueryParser.{Info}
use pal_ft.Tablec.{tablec_get}

module _ {D : Type 0} (env : Env D) where
  -- The lookup of the session, and the answer 403 for one that is not known.
  unfoldable pub with_session : Server D → Info → (Bytes → Outcome (Server D)) → Outcome (Server D)
  with_session s info k = do
    session ← deref (param info (codes "session"))
    session_info ← tablec_get s.sessions session
    elim session_info [ none ↦ send s (plain 403) | some (_, user) ↦ k user ]

  -- /api/carrinho/add
  unfoldable pub add_to_cart : Server D → Info → Outcome (Server D)
  add_to_cart s info = if not (given info (codes "produto")) then send s (plain 400) else (do
    produto ← deref (param info (codes "produto"))
    with_session s info λ user.
        with_connection env s
          λ s₁. with_command env s₁ (add_to_cart_sql user produto) λ s₂. send s₂ (plain 204))

  -- /api/carrinho/del
  unfoldable pub delete_from_cart : Server D → Info → Outcome (Server D)
  delete_from_cart s info = if not (given info (codes "produto")) then send s (plain 400) else (do
    produto ← deref (param info (codes "produto"))
    with_session s info λ user.
        with_connection env s
          λ s₁. with_command env s₁ (delete_from_cart_sql user produto) λ s₂. send s₂ (plain 204))

  -- One round for each row; a product that is not found is a null pointer, which is read.
  unfoldable pub cart_rows : Server D → List Row → Builder → Outcome (Builder × Server D)
  cart_rows s [] b = ok (b, s)
  cart_rows s (row ∷ rows) b = do
    nome ← column row 1
    (found, world) ← get_produto_by_name env s.world nome
    p ← deref found
    b' ← product_object p b
    cart_rows (record s { world = world }) rows b'

  -- /api/carrinho/lista
  unfoldable pub list_cart : Server D → Info → Outcome (Server D)
  list_cart s info = with_session s info λ user. with_connection env s λ s₁.
      with_tuples env s₁ (cart_sql user) λ s₂ rows. do
        (b, s₃) ← cart_rows s₂ rows (pjsonb_init array)
        b' ← pjsonb_end b
        send s₃ (json_response b')
