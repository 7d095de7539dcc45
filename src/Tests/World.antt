-- ===== src/Tests/World.antt =====
-- A database that answers every query with one row and logs its statements, and a random source.
use pal_ft.Base.{◌+◌, ◌*◌, true, some, List, [], ◌∷◌, if◌then◌else◌}
use pal_ft.HttpServer.{
  rounds, int_length, add_headers, has_size, calculate_response_length, tstr_append, headers_text,
  body_text, head_text, httpserver_send_response,
}
use pal_ft.HttpServer.Status.{status_text}
use pal_ft.Libc.{
  Bytes, codes, wrap_int, add_int, str_eq, starts_with, snprintf, decimal, print_int, atoi,
}
use pal_ft.Main.{
  Row, tuples, command, Env, Server, plain, json, replace, normalize_string, normalize_query_value,
  param, given, column, send, with_connection, with_tuples, with_command,
}
use pal_ft.Main.Accounts
use pal_ft.Main.Callback.{route, not_found, handle, callback, serve}
use pal_ft.Main.Cart
use pal_ft.Main.Products
use pal_ft.Main.Sql
use pal_ft.Main.Startup.{start, run_all, main}
use pal_ft.Pjsonb
use pal_ft.QueryParser
use pal_ft.SessionId.{generate_session_id, id_loop}
use pal_ft.Tablec

abbrev pub Log : Type 0
Log = List Bytes

abbrev pub row : Row
row = codes "Bulba" ∷ codes "folha" ∷ codes "/b.png" ∷ codes "50" ∷ []

abbrev pub env : Env Log
env = record {
  connect = λ d. (true, d);
  exec =
      λ sql d. (if starts_with (codes "SELECT") sql then tuples (row ∷ []) else command, sql ∷ d);
  getrandom = λ d. (some 7, d);
  rand = λ seed i. seed + i * 5;
}

abbrev pub empty : Server Log
empty = record { sessions = Tablec.tablec_init 4; world = []; sent = [] }

-- All that a run computes with.
unfoldable pub program : Unit {0}
unfolding httpserver_send_response body_text head_text headers_text rounds int_length add_headers
    has_size wrap_int add_int calculate_response_length tstr_append status_text str_eq starts_with
    snprintf decimal print_int atoi callback serve handle route not_found main start run_all
    generate_session_id id_loop plain json replace normalize_string normalize_query_value param
    given column send with_connection with_tuples with_command Tablec.tablec_init Tablec.tablec_set
    Tablec.tablec_get Tablec.locate Tablec.tablec_hash Tablec.set_bucket Tablec.get_bucket
    Tablec.scan_down Tablec.is_free Tablec.holds_key Tablec.grow QueryParser.qparser_init
    QueryParser.qparser_parse QueryParser.run QueryParser.step QueryParser.finish
    QueryParser.on_char QueryParser.on_key_char QueryParser.on_next_key QueryParser.on_value_char
    QueryParser.on_next_value QueryParser.write_key QueryParser.write_value QueryParser.update
    QueryParser.c_string QueryParser.matches QueryParser.find_query QueryParser.qparser_get_query
    Sql.product_by_name_sql Sql.register_sql Sql.login_sql Sql.add_product_sql
    Sql.delete_product_sql Sql.add_to_cart_sql Sql.delete_from_cart_sql Sql.cart_sql
    Products.product_object Products.product_of_row Products.listed_product Products.list_rows
    Products.json_response Products.get_produto_by_name Products.list_products Products.authorised
    Products.add_product Products.delete_product Accounts.register Accounts.new_session_id
    Accounts.open_session Accounts.login_rows Accounts.login Cart.with_session Cart.add_to_cart
    Cart.delete_from_cart Cart.cart_rows Cart.list_cart Pjsonb.pjsonb_init Pjsonb.put Pjsonb.poke
    Pjsonb.overwrite Pjsonb.pjsonb_end Pjsonb.set_number Pjsonb.pjsonb_set_int
    Pjsonb.pjsonb_set_string Pjsonb.pjsonb_enter_object Pjsonb.pjsonb_leave_object
program = tt
