-- ===== src/Main/Outside/Routes.antt =====
-- The calls of each route of server/main.c, and of a whole request.
use pal_ft.Base.{ℕ, ◌≤◌, ◌≡◌, Option, none, some, deref, length, Outcome, ok, ◌>>=◌}
use pal_ft.Base.{Ensures, >>=-Ensures, >>=-Ensures_of, >>=-Ensures_eq, if-Ensures, Ensures-ok}
use pal_ft.Libc.{Bytes, codes}
use pal_ft.Main.{Env, Server, plain, param, send}
use pal_ft.Main.Callback.{Route, route, handle, callback, not_found}
use pal_ft.Main.Cart
use pal_ft.Main.Outside.{
  Calls, finds_product, holds_clean, Called, send-Called, with_connection-Called,
  with_command-Called, with_tuples-Called,
}
use pal_ft.Main.Outside.Handlers.{
  given_short, refuse, list_products-Called, register-Called, login-Called, cart_rows-Called,
}
use pal_ft.Main.Products
use pal_ft.Main.Quotes.{IsClean}
use pal_ft.Main.Requests.{param-length}
use pal_ft.Main.Sessions.{IsSound}
use pal_ft.Main.Sql.{cart_sql}
use pal_ft.Main.Statements.{
  insert_into_produtos, delete_from_produtos, insert_into_carrinho, delete_from_carrinho,
  select_from_carrinho,
}
use pal_ft.Pjsonb.{array, pjsonb_init, pjsonb_end}
use pal_ft.QueryParser.{Info, qparser_init, qparser_parse}
use pal_ft.Tablec.{tablec_get}

module _ {D : Type 0} (env : Env D) (start : D) where
  abbrev P : Server D → Type 0
  P = Called env start

  module _ (s : Server D) (called : P s) (info : Info)
      (short : (key value : Bytes) → param info key ≡ some value → length value ≤ 1023) where
    refused : (status : ℕ) → Ensures P (send s (plain status))
    refused status = refuse env start s called info short status

    read :
        (key : Bytes) (k : Bytes → Outcome (Server D))
        → ((value : Bytes) → length value ≤ 1023 → Ensures P (k value))
        → Ensures P (deref (param info key) >>= k)
    read key k h = given_short env start s called info short key k h

    add_product-Called : Ensures P (Products.add_product env s info)
    unfolding Products.add_product
    add_product-Called = if-Ensures P _ _ _ (refused 400) (
        if-Ensures P _ _ _ (refused 403) (
          read (codes "nome") _ λ nome hn. read (codes "tipo") _ λ tipo ht.
            read (codes "imagem") _ λ imagem hi. read (codes "preco") _ λ preco hp.
              if-Ensures P _ _ _ (refused 400) (
                with_connection-Called env start s _ called λ d q.
                  with_command-Called env start (record s { world = d }) _ _
                    (holds_clean env (insert_into_produtos nome tipo imagem preco) (hn, ht, hi) tt)
                    q λ d' q'. send-Called env start (record s { world = d' }) _ q')))

    delete_product-Called : Ensures P (Products.delete_product env s info)
    unfolding Products.delete_product
    delete_product-Called = if-Ensures P _ _ _ (refused 400) (
        if-Ensures P _ _ _ (refused 403) (
          read (codes "nome") _ λ nome hn. with_connection-Called env start s _ called λ d q.
            with_command-Called env start (record s { world = d }) _ _
              (holds_clean env (delete_from_produtos nome) hn tt) q
              λ d' q'. send-Called env start (record s { world = d' }) _ q'))

    -- The user of a session holds no single quote.
    with_session-Called :
        (k : Bytes → Outcome (Server D))
        → IsSound s.sessions
        → ((user : Bytes) → IsClean user → Ensures P (k user))
        → Ensures P (Cart.with_session env s info k)
    unfolding Cart.with_session
    with_session-Called k sound h =
        >>=-Ensures P (deref (param info (codes "session"))) _
          λ session. >>=-Ensures_eq P (tablec_get s.sessions session) _ (go session)
      where
        go :
            (session : Bytes) (slot : Option (Bytes × Bytes))
            → tablec_get s.sessions session ≡ ok slot
            → Ensures P (elim slot as (λ _. Outcome (Server D)) [
              | none ↦ send s (plain 403)
              | some e ↦ k e.1
            ])
        go session none e = refused 403
        go session (some (id, user)) e = h user (sound.clean session id user e)

    add_to_cart-Called : IsSound s.sessions → Ensures P (Cart.add_to_cart env s info)
    unfolding Cart.add_to_cart
    add_to_cart-Called sound = if-Ensures P _ _ _ (refused 400) (
        read (codes "produto") _ λ produto hp. with_session-Called _ sound λ user clean.
          with_connection-Called env start s _ called λ d q.
            with_command-Called env start (record s { world = d }) _ _
              (holds_clean env (insert_into_carrinho user produto) (clean, hp) clean) q
              λ d' q'. send-Called env start (record s { world = d' }) _ q')

    delete_from_cart-Called : IsSound s.sessions → Ensures P (Cart.delete_from_cart env s info)
    unfolding Cart.delete_from_cart
    delete_from_cart-Called sound = if-Ensures P _ _ _ (refused 400) (
        read (codes "produto") _ λ produto hp. with_session-Called _ sound λ user clean.
          with_connection-Called env start s _ called λ d q.
            with_command-Called env start (record s { world = d }) _ _
              (holds_clean env (delete_from_carrinho user produto) (clean, hp) clean) q
              λ d' q'. send-Called env start (record s { world = d' }) _ q')

    list_cart-Called : IsSound s.sessions → Ensures P (Cart.list_cart env s info)
    unfolding Cart.list_cart
    list_cart-Called sound = with_session-Called _ sound λ user clean.
        with_connection-Called env start s _ called λ d q.
          with_tuples-Called env start (record s { world = d }) _ _
            (holds_clean env (select_from_carrinho user) clean clean) q
            λ d' rows answer q'.
              >>=-Ensures_of _ P
                (Cart.cart_rows env (record s { world = d' }) rows (pjsonb_init array)) _
                (cart_rows-Called env start (record s { world = d' }) rows (pjsonb_init array)
                  (λ i row nome at name.
                    finds_product (cart_sql user) d d' rows i row nome answer at name)
                  q')
                λ r q''. >>=-Ensures P (pjsonb_end r.0) _ λ b. send-Called env start (r.1) _ q''

    handle-Called : (r : Route) → IsSound s.sessions → Ensures P (handle env r s info)
    unfolding handle
    handle-Called Route.products sound = list_products-Called env start s called info short
    handle-Called Route.register sound = register-Called env start s called info short
    handle-Called Route.login sound = login-Called env start s called info short
    handle-Called Route.check_session sound = send-Called env start s not_found called
    handle-Called Route.add_product sound = add_product-Called
    handle-Called Route.delete_product sound = delete_product-Called
    handle-Called Route.add_to_cart sound = add_to_cart-Called sound
    handle-Called Route.delete_from_cart sound = delete_from_cart-Called sound
    handle-Called Route.cart sound = list_cart-Called sound
    handle-Called Route.unknown sound = send-Called env start s not_found called

  pub callback-Called :
      (s s' : Server D) (path : Bytes)
      → IsSound s.sessions
      → Calls env start s.world
      → callback env s path ≡ ok s'
      → Calls env start s'.world
  unfolding callback
  callback-Called s s' path sound called h =
      Ensures-ok P _
        (>>=-Ensures_eq P (qparser_parse (qparser_init 10) path) _ λ info parsed.
          handle-Called s called info (λ key value e. param-length path key info value parsed e)
            (route path) sound)
        h
