-- ===== src/Main/Sql.antt =====
-- The statements that server/main.c formats with `snprintf`, each with the size of its buffer, from
-- the values as the query gives them.
use pal_ft.Base.{◌+◌, ◌*◌, ◌++◌}
use pal_ft.Libc.{Bytes, codes, snprintf, ℤ, print_int}
use pal_ft.Main.{normalize_string, normalize_query_value}

-- In `get_produto_by_name`, of a name that comes from the database.
unfoldable pub product_by_name_sql : Bytes → Bytes
product_by_name_sql nome =
    snprintf 1024 (codes "SELECT * FROM produtos WHERE nome='" ++ (nome ++ codes "';"))

abbrev pub products_sql : Bytes
products_sql = codes "SELECT * FROM produtos;"

unfoldable pub register_sql : Bytes → Bytes → Bytes → Bytes
register_sql name email password = snprintf 4096 (
    codes "INSERT INTO usuarios (nome, email, senha) VALUES ('"
    ++ (normalize_string name
        ++ (codes "', '"
            ++ (normalize_string email
                ++ (codes "', '" ++ (normalize_string password ++ codes "');"))))))

unfoldable pub login_sql : Bytes → Bytes → Bytes
login_sql email password = snprintf (1024 * 2 + 68 + 1) (
    codes "SELECT * FROM usuarios WHERE email='"
    ++ (normalize_string email
        ++ (codes "' AND senha='" ++ (normalize_string password ++ codes "';"))))

-- An `int` has 4 bytes.
unfoldable pub add_product_sql : Bytes → Bytes → Bytes → ℤ → Bytes
add_product_sql nome tipo imagem preco = snprintf (1024 * 3 + 68 + 4 * 3 + 1) (
    codes "INSERT INTO produtos (nome, tipo, imagem, preco) VALUES ('"
    ++ (normalize_query_value (normalize_string nome)
        ++ (codes "', '"
            ++ (normalize_string tipo
                ++ (codes "', '"
                    ++ (normalize_string imagem
                        ++ (codes "', " ++ (print_int preco ++ codes ");"))))))))

unfoldable pub delete_product_sql : Bytes → Bytes
delete_product_sql nome = snprintf (1024 + 33 + 1) (
    codes "DELETE from produtos WHERE='"
    ++ (normalize_query_value (normalize_string nome) ++ codes "';"))

-- In the three statements on the cart the user is the value of the session.
unfoldable pub add_to_cart_sql : Bytes → Bytes → Bytes
add_to_cart_sql user produto = snprintf 2048 (
    codes "INSERT INTO carrinho (usuario, produto) VALUES ('"
    ++ (user
        ++ (codes "', '" ++ (normalize_query_value (normalize_string produto) ++ codes "');"))))

unfoldable pub delete_from_cart_sql : Bytes → Bytes → Bytes
delete_from_cart_sql user produto = snprintf 2048 (
    codes "DELETE from carrinho WHERE usuario='"
    ++ (user
        ++ (codes "' AND produto='"
            ++ (normalize_query_value (normalize_string produto) ++ codes "';"))))

unfoldable pub cart_sql : Bytes → Bytes
cart_sql user =
    snprintf (1024 + 33 + 1)
      (codes "SELECT * FROM carrinho WHERE usuario='" ++ (user ++ codes "';"))
