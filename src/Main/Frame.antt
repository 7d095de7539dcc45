-- ===== src/Main/Frame.antt =====
-- A rule for the handlers of server/main.c: but for a login that opens a session, a handler changes
-- what is outside the program, and then sends one response.
pub mod Handle
use pal_ft.Base.{
  ℕ, ◌≡◌, refl, sym, ap, subst, deref-eq-ok, true, Option, none, some, List, [], ◌∷◌, arith,
  Bool-cases, inl, inr, Outcome, ok, exited, ◌>>=◌, deref,
}
use pal_ft.Base.{Ensures, >>=-Ensures, >>=-Ensures_of, >>=-Ensures_eq, if-Ensures}
use pal_ft.HttpServer.{Response}
use pal_ft.Libc.{Bytes, codes}
use pal_ft.Main.{
  Row, Reply, tuples, command, failed, Env, Server, plain, json, param, column, send,
  normalize_string, with_connection, with_tuples, with_command,
}
use pal_ft.Main.Accounts
use pal_ft.Main.Cart
use pal_ft.Main.Products
use pal_ft.Main.Callback.{Route, handle, not_found}
use pal_ft.Main.Sql.{login_sql}
use pal_ft.Pjsonb.{Builder, array, pjsonb_init, pjsonb_end}
use pal_ft.QueryParser.{Info}
use pal_ft.SessionId.{generate_session_id}
use pal_ft.Tablec.{Table, tablec_set, tablec_get}

-- What a login has found when it opens a session: both values are given, the statement for them
-- returned a row, and the kernel gave a seed.
pub record Admitted {D : Type 0} (env : Env D) (s : Server D) (info : Info) (email : Bytes) (n : ℕ)
    (d : D) : Type 0 where
  pub password : Bytes
  pub d₁ : D
  pub d₂ : D
  pub row : Row
  pub rows : List Row
  pub email_given : param info (codes "email") ≡ some email
  pub password_given : param info (codes "password") ≡ some password
  pub connected : env.connect s.world ≡ (true, d₁)
  pub answered : env.exec (login_sql email password) d₁ ≡ (tuples (row ∷ rows), d₂)
  pub seeded : env.getrandom d₂ ≡ (some n, d)

module _ {κ} {D : Type 0} (env : Env D) (P : Server D → Type κ) (s : Server D)
    (sends : (d : D) (r : Response) → Ensures P (send (record s { world = d }) r)) where
  with_connection-Ensures_eq :
      (d : D) (k : Server D → Outcome (Server D))
      → ((d' : D) → env.connect d ≡ (true, d') → Ensures P (k (record s { world = d' })))
      → Ensures P (with_connection env (record s { world = d }) k)
  unfolding with_connection
  with_connection-Ensures_eq d k h = elim (Bool-cases (env.connect d).0) [
    | inl up ↦ rw up (h (env.connect d).1 (ground (arith, up)))
    | inr down ↦ rw down (sends (env.connect d).1 (plain 500))
  ]

  with_connection-Ensures :
      (d : D) (k : Server D → Outcome (Server D))
      → ((d' : D) → Ensures P (k (record s { world = d' })))
      → Ensures P (with_connection env (record s { world = d }) k)
  with_connection-Ensures d k h = with_connection-Ensures_eq d k (λ d' _. h d')

  with_command-Ensures :
      (d : D) (sql : Bytes) (k : Server D → Outcome (Server D))
      → ((d' : D) → Ensures P (k (record s { world = d' })))
      → Ensures P (with_command env (record s { world = d }) sql k)
  unfolding with_command
  with_command-Ensures d sql k h = go (env.exec sql d).0
    where
      d' : D
      d' = (env.exec sql d).1

      go :
          (reply : Reply)
          → Ensures P (elim reply as (λ _. Outcome (Server D)) [
            | tuples rows ↦ send (record s { world = d' }) (plain 400)
            | command ↦ k (record s { world = d' })
            | failed ↦ send (record s { world = d' }) (plain 400)
          ])
      go (tuples rows) = sends d' (plain 400)
      go command = h d'
      go failed = sends d' (plain 400)

  with_tuples-Ensures_eq :
      (d : D) (sql : Bytes) (k : Server D → List Row → Outcome (Server D))
      → ((d' : D) (rows : List Row)
          → env.exec sql d ≡ (tuples rows, d')
          → Ensures P (k (record s { world = d' }) rows))
      → Ensures P (with_tuples env (record s { world = d }) sql k)
  unfolding with_tuples
  with_tuples-Ensures_eq d sql k h = go (env.exec sql d).0 refl
    where
      d' : D
      d' = (env.exec sql d).1

      go :
          (reply : Reply)
          → (env.exec sql d).0 ≡ reply
          → Ensures P (elim reply as (λ _. Outcome (Server D)) [
            | tuples rows ↦ k (record s { world = d' }) rows
            | command ↦ send (record s { world = d' }) (plain 400)
            | failed ↦ send (record s { world = d' }) (plain 400)
          ])
      go (tuples rows) e = h d' rows (ap (λ (r : Reply). let p : Reply × D = (r, d') in p) e)
      go command e = sends d' (plain 400)
      go failed e = sends d' (plain 400)

  with_tuples-Ensures :
      (d : D) (sql : Bytes) (k : Server D → List Row → Outcome (Server D))
      → ((d' : D) (rows : List Row) → Ensures P (k (record s { world = d' }) rows))
      → Ensures P (with_tuples env (record s { world = d }) sql k)
  with_tuples-Ensures d sql k h = with_tuples-Ensures_eq d sql k (λ d' rows _. h d' rows)

  -- The same for the state as it stands.
  send_now : (r : Response) → Ensures P (send s r)
  send_now r = sends s.world r

  connect_now :
      (k : Server D → Outcome (Server D))
      → ((d : D) → Ensures P (k (record s { world = d })))
      → Ensures P (with_connection env s k)
  connect_now k h = with_connection-Ensures s.world k h

  ruleset rules = (
    >>=-Ensures, if-Ensures, connect_now, send_now, with_connection-Ensures, with_command-Ensures,
    with_tuples-Ensures,
  )

  list_products-Ensures : (info : Info) → Ensures P (Products.list_products env s info)
  unfolding Products.list_products
  list_products-Ensures info = search rules depth 10

  add_product-Ensures : (info : Info) → Ensures P (Products.add_product env s info)
  unfolding Products.add_product
  add_product-Ensures info = search rules depth 14

  delete_product-Ensures : (info : Info) → Ensures P (Products.delete_product env s info)
  unfolding Products.delete_product
  delete_product-Ensures info = search rules depth 14

  register-Ensures : (info : Info) → Ensures P (Accounts.register env s info)
  unfolding Accounts.register
  register-Ensures info = search rules depth 14

  with_session-Ensures :
      (info : Info) (k : Bytes → Outcome (Server D))
      → ((user : Bytes) → Ensures P (k user))
      → Ensures P (Cart.with_session env s info k)
  unfolding Cart.with_session
  with_session-Ensures info k h =
      >>=-Ensures P (deref (param info (codes "session"))) _
        λ session. >>=-Ensures P (tablec_get s.sessions session) _ go
    where
      go :
          (slot : Option (Bytes × Bytes))
          → Ensures P (elim slot as (λ _. Outcome (Server D)) [
            | none ↦ send s (plain 403)
            | some e ↦ k e.1
          ])
      go none = send_now (plain 403)
      go (some e) = h e.1

  add_to_cart-Ensures : (info : Info) → Ensures P (Cart.add_to_cart env s info)
  unfolding Cart.add_to_cart
  add_to_cart-Ensures info = search (rules, with_session-Ensures) depth 14

  delete_from_cart-Ensures : (info : Info) → Ensures P (Cart.delete_from_cart env s info)
  unfolding Cart.delete_from_cart
  delete_from_cart-Ensures info = search (rules, with_session-Ensures) depth 14

  -- The loop over the cart changes only what is outside.
  cart_rows-Ensures :
      (d : D) (rows : List Row) (b : Builder)
      → Ensures
          (λ r. (d' : D) × (r.1 ≡ record s { world = d' }))
          (Cart.cart_rows env (record s { world = d }) rows b)
  unfolding Cart.cart_rows Ensures
  cart_rows-Ensures d [] b = (d, refl)
  cart_rows-Ensures d (row ∷ rows) b =
      unfold Ensures in
      >>=-Ensures _ (column row 1) _ λ nome.
        >>=-Ensures _ (Products.get_produto_by_name env d nome) _ λ found.
          >>=-Ensures _ (deref found.0) _ λ p.
            >>=-Ensures _ (Products.product_object p b) _ λ b'. cart_rows-Ensures found.1 rows b'

  list_cart-Ensures : (info : Info) → Ensures P (Cart.list_cart env s info)
  unfolding Cart.list_cart
  list_cart-Ensures info = with_session-Ensures info _ λ user. connect_now _ λ d.
      with_tuples-Ensures d _ _ λ d' rows.
        >>=-Ensures_of _ P _ _ (cart_rows-Ensures d' rows (pjsonb_init array)) λ r h.
          >>=-Ensures P (pjsonb_end r.0) _
            λ b. subst (λ t. Ensures P (send t (Products.json_response b))) (sym h.1) (sends h.0 _)
