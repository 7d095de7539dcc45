-- ===== src/Tests/Guards.antt =====
-- Requests that are refused, and routes, at concrete paths.
use pal_ft.Base.{◌&&◌, ◌≡◌, refl, true, none, some, arith, if◌then◌else◌, ok, fault}
use pal_ft.Libc.{Bytes, codes, starts_with}
use pal_ft.Main.{plain, param, given}
use pal_ft.Main.Access.{adding, unknown_session, missing_session}
use pal_ft.Main.Callback.{Route, route, handle}
use pal_ft.Main.Catalogue.{products_guard}
use pal_ft.Main.Products.{add_product, delete_product}
use pal_ft.Main.Routes.{route-prefix}
use pal_ft.Main.Sending.{Answered}
use pal_ft.QueryParser.{Info, qparser_init, qparser_parse}
use pal_ft.Tablec.Lookup.{tablec_get-tablec_init}
use pal_ft.Tests.Runs.{info_of}
use pal_ft.Tests.World.{env, empty, program}

abbrev stranger : Info
stranger = info_of (codes "/api/carrinho/add?produto=Bulba&session=nobody")

stranger_produto : param stranger (codes "produto") ≡ some (codes "Bulba")
unfolding program
stranger_produto = refl

stranger_session : param stranger (codes "session") ≡ some (codes "nobody")
unfolding program
stranger_session = refl

unknown_session_example : Answered empty (plain 403) (handle env Route.add_to_cart empty stranger)
unknown_session_example =
    unknown_session env empty stranger Route.add_to_cart (codes "Bulba") (codes "nobody") adding
      stranger_produto stranger_session (tablec_get-tablec_init 4 (codes "nobody") (omega arith))

abbrev nobody : Info
nobody = info_of (codes "/api/carrinho/add?produto=Bulba")

nobody_produto : param nobody (codes "produto") ≡ some (codes "Bulba")
unfolding program
nobody_produto = refl

nobody_session : param nobody (codes "session") ≡ none
unfolding program
nobody_session = refl

missing_session_example : handle env Route.add_to_cart empty nobody ≡ fault
missing_session_example =
    missing_session env empty nobody Route.add_to_cart (codes "Bulba") adding nobody_produto
      nobody_session

abbrev wrong_senha : Info
wrong_senha = info_of (codes "/api/produtos/del?nome=Bulba&senha=guess")

guessed : param wrong_senha (codes "senha") ≡ some (codes "guess")
unfolding program
guessed = refl

wrong_senha_other : ¬ (param wrong_senha (codes "senha") ≡ some (codes "senha"))
wrong_senha_other e = grind (arith, e, guessed)

products_guard_example :
    Answered empty
      (plain (
        if given wrong_senha (codes "nome")
          && given wrong_senha (codes "tipo")
          && given wrong_senha (codes "imagem")
          && given wrong_senha (codes "preco")
        then 403
        else 400))
      (add_product env empty wrong_senha)
    × Answered empty
        (plain (if given wrong_senha (codes "nome") then 403 else 400))
        (delete_product env empty wrong_senha)
products_guard_example = products_guard env empty wrong_senha wrong_senha_other

cart_prefix :
    starts_with (codes "/api/carrinho/lista") (codes "/api/carrinho/lista?session=x") ≡ true
unfolding program
cart_prefix = refl

route-prefix_example : route (codes "/api/carrinho/lista?session=x") ≡ Route.cart
route-prefix_example =
    route-prefix Route.cart (codes "/api/carrinho/lista?session=x") (λ e. cc) cart_prefix

abbrev check_path : Bytes
check_path = codes "/api/session/check?session=x"

check_prefix : starts_with (codes "/api/session/check") check_path ≡ true
unfolding program
check_prefix = refl

check_parsed : qparser_parse (qparser_init 10) check_path ≡ ok (info_of check_path)
unfolding program
check_parsed = refl
