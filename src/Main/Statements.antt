-- ===== src/Main/Statements.antt =====
-- The statements of server/main.c that hold values from a request, as one type.
use pal_ft.Base.{◌+◌, ◌≤◌, ◌≡◌, List, [], ◌∷◌, ◌++◌, length}
use pal_ft.Libc.{Bytes, codes, print_int, atoi}
use pal_ft.Main.{normalize_string, normalize_query_value}
use pal_ft.Main.Injection.{
  login_sql-pieces, register_sql-pieces, add_product_sql-pieces, delete_product_sql-pieces,
  add_to_cart_sql-pieces, delete_from_cart_sql-pieces, cart_sql-pieces,
}
use pal_ft.Main.Quotes.{IsClean, split_quotes}
use pal_ft.Main.Sql.{
  register_sql, login_sql, add_product_sql, delete_product_sql, add_to_cart_sql,
  delete_from_cart_sql, cart_sql,
}

-- The values of a statement; the price is text, and the user of a cart is the value of a session.
pub data Statement : Type 0 where
  select_from_usuarios : Bytes → Bytes → Statement
  insert_into_usuarios : Bytes → Bytes → Bytes → Statement
  insert_into_produtos : Bytes → Bytes → Bytes → Bytes → Statement
  delete_from_produtos : Bytes → Statement
  insert_into_carrinho delete_from_carrinho : Bytes → Bytes → Statement
  select_from_carrinho : Bytes → Statement

-- What the program asks.
abbrev pub formatted : Statement → Bytes
formatted (select_from_usuarios email password) = login_sql email password
formatted (insert_into_usuarios name email password) = register_sql name email password
formatted (insert_into_produtos nome tipo imagem preco) =
    add_product_sql nome tipo imagem (atoi preco)
formatted (delete_from_produtos nome) = delete_product_sql nome
formatted (insert_into_carrinho user produto) = add_to_cart_sql user produto
formatted (delete_from_carrinho user produto) = delete_from_cart_sql user produto
formatted (select_from_carrinho user) = cart_sql user

-- The statement with its values between the quotes: what stands outside a literal and inside one,
-- by turns.
abbrev pub pieces : Statement → List Bytes
pieces (select_from_usuarios email password) =
    codes "SELECT * FROM usuarios WHERE email="
    ∷ normalize_string email
    ∷ codes " AND senha="
    ∷ normalize_string password
    ∷ codes ";"
    ∷ []
pieces (insert_into_usuarios name email password) =
    codes "INSERT INTO usuarios (nome, email, senha) VALUES ("
    ∷ normalize_string name
    ∷ codes ", "
    ∷ normalize_string email
    ∷ codes ", "
    ∷ normalize_string password
    ∷ codes ");"
    ∷ []
pieces (insert_into_produtos nome tipo imagem preco) =
    codes "INSERT INTO produtos (nome, tipo, imagem, preco) VALUES ("
    ∷ normalize_query_value (normalize_string nome)
    ∷ codes ", "
    ∷ normalize_string tipo
    ∷ codes ", "
    ∷ normalize_string imagem
    ∷ (codes ", " ++ (print_int (atoi preco) ++ codes ");"))
    ∷ []
pieces (delete_from_produtos nome) =
    codes "DELETE from produtos WHERE="
    ∷ normalize_query_value (normalize_string nome)
    ∷ codes ";"
    ∷ []
pieces (insert_into_carrinho user produto) =
    codes "INSERT INTO carrinho (usuario, produto) VALUES ("
    ∷ user
    ∷ codes ", "
    ∷ normalize_query_value (normalize_string produto)
    ∷ codes ");"
    ∷ []
pieces (delete_from_carrinho user produto) =
    codes "DELETE from carrinho WHERE usuario="
    ∷ user
    ∷ codes " AND produto="
    ∷ normalize_query_value (normalize_string produto)
    ∷ codes ";"
    ∷ []
pieces (select_from_carrinho user) =
    codes "SELECT * FROM carrinho WHERE usuario=" ∷ user ∷ codes ";" ∷ []

-- The values are as long as the query parser or the buffer lets them be, and the user of a cart
-- holds no single quote.
abbrev pub Fits : Statement → Type 0
Fits (select_from_usuarios email password) = (length email ≤ 1023) × (length password ≤ 1023)
Fits (insert_into_usuarios name email password) =
    (length name ≤ 1023) × (length email ≤ 1023) × (length password ≤ 1023)
Fits (insert_into_produtos nome tipo imagem preco) =
    (length nome ≤ 1023) × (length tipo ≤ 1023) × (length imagem ≤ 1023)
Fits (delete_from_produtos nome) = length nome ≤ 1023
Fits (insert_into_carrinho user produto) = IsClean user × (length user + length produto ≤ 1991)
Fits (delete_from_carrinho user produto) = IsClean user × (length user + length produto ≤ 1994)
Fits (select_from_carrinho user) = IsClean user × (length user ≤ 1017)

-- Each of the seven statements that hold values from a request or a session, split at its single
-- quotes, is the fixed text with the values between their quotes, so no value ends its literal and
-- nothing is cut off, if the values from the query have up to 1023 bytes, and the user of a cart
-- holds no single quote and has, with the product where there is one, up to 1991, 1994 or 1017
-- bytes as the statement stores, deletes or lists.
pub formatted-pieces : (s : Statement) → Fits s → split_quotes (formatted s) ≡ pieces s
formatted-pieces (select_from_usuarios email password) (he, hp) =
    login_sql-pieces email password he hp
formatted-pieces (insert_into_usuarios name email password) (hn, he, hp) =
    register_sql-pieces name email password hn he hp
formatted-pieces (insert_into_produtos nome tipo imagem preco) (hn, ht, hi) =
    add_product_sql-pieces nome tipo imagem preco hn ht hi
formatted-pieces (delete_from_produtos nome) h = delete_product_sql-pieces nome h
formatted-pieces (insert_into_carrinho user produto) (clean, h) =
    add_to_cart_sql-pieces user clean produto h
formatted-pieces (delete_from_carrinho user produto) (clean, h) =
    delete_from_cart_sql-pieces user clean produto h
formatted-pieces (select_from_carrinho user) (clean, h) = cart_sql-pieces user clean h
