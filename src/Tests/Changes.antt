-- ===== src/Tests/Changes.antt =====
-- Requests that change the database, at concrete paths.
use pal_ft.Base.{◌≡◌, refl, true, false, none, some, [], ◌∷◌, if◌then◌else◌, ok, fault}
use pal_ft.Libc.{Bytes, codes, starts_with, atoi}
use pal_ft.Main.{command, column, tuples, Env, Server, plain, param}
use pal_ft.Main.Callback.{Route, handle}
use pal_ft.Main.Products.{is_zero, get_produto_by_name, authorised}
use pal_ft.Main.Sending.{Answered}
use pal_ft.Main.Sql
use pal_ft.QueryParser.{Info}
use pal_ft.Main.Changes
use pal_ft.Main.Changes.{IsChange, adding, deleting, cart_change, missing_product}
use pal_ft.Main.Cart.{list_cart}
use pal_ft.Tablec.{tablec_get}
use pal_ft.Tests.Runs.{info_of, logged}
use pal_ft.Tests.World.{Log, row, env, empty, program}

abbrev member : Server Log
member = record empty { sessions = logged.sessions }

abbrev member_id : Bytes
member_id = codes "HMRWbglqv05AFKPU"

member_known : tablec_get member.sessions member_id ≡ ok (some (member_id, codes "a@b.c"))
unfolding program
member_known = refl

abbrev cart_info : Info
cart_info = info_of (codes "/api/carrinho/add?produto=Bulba&session=HMRWbglqv05AFKPU")

cart_produto : param cart_info (codes "produto") ≡ some (codes "Bulba")
unfolding program
cart_produto = refl

cart_session : param cart_info (codes "session") ≡ some member_id
unfolding program
cart_session = refl

abbrev cart_statement : Bytes
cart_statement = Sql.add_to_cart_sql (codes "a@b.c") (codes "Bulba")

cart_statement_runs : env.exec cart_statement [] ≡ (command, cart_statement ∷ [])
unfolding program
cart_statement_runs = refl

cart_change_example :
    Answered
      (record member { world = cart_statement ∷ [] })
      (plain 204)
      (handle env Route.add_to_cart member cart_info)
cart_change_example =
    cart_change env member cart_info [] (cart_statement ∷ []) refl Route.add_to_cart
      Sql.add_to_cart_sql (codes "Bulba") member_id member_id (codes "a@b.c") Changes.adding
      cart_produto cart_session member_known cart_statement_runs

abbrev new_user : Info
new_user = info_of (codes "/api/register?name=Ana&email=a@b.c&password=xy")

new_name : param new_user (codes "name") ≡ some (codes "Ana")
unfolding program
new_name = refl

new_email : param new_user (codes "email") ≡ some (codes "a@b.c")
unfolding program
new_email = refl

new_password : param new_user (codes "password") ≡ some (codes "xy")
unfolding program
new_password = refl

abbrev new_statement : Bytes
new_statement = Sql.register_sql (codes "Ana") (codes "a@b.c") (codes "xy")

new_statement_runs : env.exec new_statement [] ≡ (command, new_statement ∷ [])
unfolding program
new_statement_runs = refl

abbrev new_product : Info
new_product = info_of (codes "/api/produtos/add?nome=B&tipo=f&imagem=i&preco=50&senha=senha")

new_product_may : authorised new_product ≡ true
unfolding program
new_product_may = refl

new_product_nome : param new_product (codes "nome") ≡ some (codes "B")
unfolding program
new_product_nome = refl

new_product_tipo : param new_product (codes "tipo") ≡ some (codes "f")
unfolding program
new_product_tipo = refl

new_product_imagem : param new_product (codes "imagem") ≡ some (codes "i")
unfolding program
new_product_imagem = refl

new_product_preco : param new_product (codes "preco") ≡ some (codes "50")
unfolding program
new_product_preco = refl

new_product_priced : is_zero (atoi (codes "50")) ≡ false
unfolding program is_zero
new_product_priced = refl

abbrev product_statement : Bytes
product_statement = Sql.add_product_sql (codes "B") (codes "f") (codes "i") (atoi (codes "50"))

product_statement_runs : env.exec product_statement [] ≡ (command, product_statement ∷ [])
unfolding program
product_statement_runs = refl

abbrev removal : Bytes
removal = Sql.delete_product_sql (codes "B")

removal_runs : env.exec removal [] ≡ (command, removal ∷ [])
unfolding program
removal_runs = refl

-- A cart of one product, in a database with no products.
abbrev sold_out : Env Log
sold_out = record env {
  exec = λ sql d. (
    if starts_with (codes "SELECT * FROM carrinho") sql then tuples (row ∷ []) else tuples [],
    sql ∷ d,
  );
}

abbrev cart_query : Bytes
cart_query = Sql.cart_sql (codes "a@b.c")

cart_query_runs : sold_out.exec cart_query [] ≡ (tuples (row ∷ []), cart_query ∷ [])
unfolding program
cart_query_runs = refl

cart_row_nome : column row 1 ≡ ok (codes "folha")
unfolding program
cart_row_nome = refl

product_gone :
    get_produto_by_name sold_out (cart_query ∷ []) (codes "folha")
    ≡ ok (none, Sql.product_by_name_sql (codes "folha") ∷ cart_query ∷ [])
unfolding program
product_gone = refl

missing_product_example : list_cart sold_out member cart_info ≡ fault
missing_product_example =
    missing_product sold_out member cart_info [] (cart_query ∷ []) refl member_id member_id
      (codes "a@b.c") (codes "folha") row []
      (Sql.product_by_name_sql (codes "folha") ∷ cart_query ∷ []) cart_session member_known
      cart_query_runs cart_row_nome product_gone
