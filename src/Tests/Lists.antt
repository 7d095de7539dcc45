-- ===== src/Tests/Lists.antt =====
-- Lists, lookups and responses at concrete data.
use pal_ft.Base.{◌^◌, ◌<◌, ◌≡◌, refl, List, [], ◌∷◌, ◌++◌, map, arith, length, ok}
use pal_ft.HttpServer.{httpserver_send_response, calculate_response_length}
use pal_ft.HttpServer.Length.{send_response-length}
use pal_ft.Libc.{Bytes, pos}
use pal_ft.Main.{tuples, Env, Row, plain}
use pal_ft.Main.Catalogue.{list_response, list_products-list_response}
use pal_ft.Main.ProductList.{joined, list_text, listed}
use pal_ft.Main.Products.{Product, listed_product, product_of_row, list_products}
use pal_ft.Main.Sending.{plain-IsSendable}
use pal_ft.Main.Sql
use pal_ft.Tests.Runs.{result, info}
use pal_ft.Tests.World.{Log, row, env, empty, program}

abbrev rows : List Row
rows = row ∷ row ∷ []

abbrev two_rows : Env Log
two_rows = record env { exec = λ sql d. (tuples rows, sql ∷ d) }

list_short : length (list_text (map listed rows)) < 10 ^ 9
unfolding joined program
list_short = omega arith

list_products-list_response_example :
    (bytes : Bytes) × (httpserver_send_response (list_response (map listed rows)) ≡ ok bytes)
    × (list_products two_rows empty info
        ≡ ok (record {
          sessions = empty.sessions;
          world = Sql.products_sql ∷ [];
          sent = [] ++ bytes ∷ [];
        }))
list_products-list_response_example =
    list_products-list_response two_rows empty info rows [] (Sql.products_sql ∷ []) refl refl
      (omega arith, (omega arith, tt)) list_short

abbrev as_listed : Product
as_listed = listed row

abbrev as_stored : Product
as_stored = result (product_of_row row) as_listed

listed_run : listed_product row ≡ ok as_listed
unfolding program
listed_run = refl

stored_run : product_of_row row ≡ ok as_stored
unfolding program
stored_run = refl

send_response-length_example :
    (bytes : Bytes) × (httpserver_send_response (plain 204) ≡ ok bytes)
    × (calculate_response_length (plain 204) ≡ ok (pos (length bytes)))
send_response-length_example =
    send_response-length (plain 204) (plain-IsSendable 204 (omega arith) (omega arith))
