-- ===== src/Main/Callback.antt =====
-- `callback` in server/main.c: the routes, and one request after another. The server runs one thread
-- for each connection and takes no lock round `sessions`; requests are taken here one at a time.
use pal_ft.Base.{List, [], ◌∷◌, if◌then◌else◌, length, Outcome, ok, ◌>>=◌}
use pal_ft.HttpServer.{Response}
use pal_ft.Libc.{Bytes, codes, starts_with, snprintf, decimal}
use pal_ft.Main.{Env, Server, json, send}
use pal_ft.Main.Accounts
use pal_ft.Main.Cart
use pal_ft.Main.Products
use pal_ft.QueryParser.{Info, qparser_init, qparser_parse}

abbrev pub base_text : Bytes
base_text = codes "Base para o projeto da UCP :)"

unfoldable pub not_found : Response
not_found = json 404 base_text (snprintf 10 (decimal (length base_text))) (length base_text)

-- The branches of `callback`, each with the prefix that it tests the path for.
pub data Route : Type 0 where
  products register login check_session add_product delete_product : Route
  add_to_cart delete_from_cart cart unknown : Route

unfoldable pub route : Bytes → Route
route path =
    if starts_with (codes "/api/produtos/lista") path
    then products
    else if starts_with (codes "/api/register") path
    then register
    else if starts_with (codes "/api/login") path
    then login
    else if starts_with (codes "/api/session/check") path
    then check_session
    else if starts_with (codes "/api/produtos/add") path
    then add_product
    else if starts_with (codes "/api/produtos/del") path
    then delete_product
    else if starts_with (codes "/api/carrinho/add") path
    then add_to_cart
    else if starts_with (codes "/api/carrinho/del") path
    then delete_from_cart
    else if starts_with (codes "/api/carrinho/lista") path
    then cart
    else unknown

module _ {D : Type 0} (env : Env D) where
  -- What a branch does. That of /api/session/check only logs, and falls through to the last answer.
  unfoldable pub handle : Route → Server D → Info → Outcome (Server D)
  handle products s info = Products.list_products env s info
  handle register s info = Accounts.register env s info
  handle login s info = Accounts.login env s info
  handle check_session s info = send s not_found
  handle add_product s info = Products.add_product env s info
  handle delete_product s info = Products.delete_product env s info
  handle add_to_cart s info = Cart.add_to_cart env s info
  handle delete_from_cart s info = Cart.delete_from_cart env s info
  handle cart s info = Cart.list_cart env s info
  handle unknown s info = send s not_found

  unfoldable pub callback : Server D → Bytes → Outcome (Server D)
  callback s path = do info ← qparser_parse (qparser_init 10) path; handle (route path) s info

  -- Requests in the order in which their callbacks run.
  unfoldable pub serve : Server D → List Bytes → Outcome (Server D)
  serve s [] = ok s
  serve s (path ∷ paths) = do s' ← callback s path; serve s' paths
