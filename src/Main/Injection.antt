-- ===== src/Main/Injection.antt =====
-- The statements of server/main.c keep each value inside its literal.
use pal_ft.Base.{◌+◌, ◌≤◌, ◌≡◌, [], ◌∷◌, ◌++◌, arith, length}
use pal_ft.Libc.{Bytes, codes, print_int, atoi}
use pal_ft.Libc.Digits.{atoi-IsInt, print_int-length}
use pal_ft.Main.{normalize_string, normalize_query_value}
use pal_ft.Main.Quotes.{
  IsClean, split_quotes, split_quotes-append, split_quotes_end, split_quotes-snprintf,
  split_quotes-string, split_quotes-query_value, print_int-IsClean, append-IsClean, lengths,
}
use pal_ft.Main.Sql.{
  register_sql, login_sql, add_product_sql, delete_product_sql, add_to_cart_sql,
  delete_from_cart_sql, cart_sql,
}

-- The login statement for an email and a password of up to 1023 bytes, split at its single quotes,
-- is the fixed text with the two values between their quotes: no value ends its literal, and
-- nothing is cut off.
pub login_sql-pieces :
    (email password : Bytes)
    → length email ≤ 1023
    → length password ≤ 1023
    → split_quotes (login_sql email password)
      ≡ codes "SELECT * FROM usuarios WHERE email="
        ∷ normalize_string email
        ∷ codes " AND senha="
        ∷ normalize_string password
        ∷ codes ";"
        ∷ []
unfolding login_sql split_quotes
login_sql-pieces email password he hp =
    split_quotes-snprintf _ _ (simp lengths (omega arith))
      (rw (split_quotes-string, split_quotes-string))

-- The registration statement for a name, an email and a password of up to 1023 bytes, split at its
-- single quotes, is the fixed text with the three values between their quotes.
pub register_sql-pieces :
    (name email password : Bytes)
    → length name ≤ 1023
    → length email ≤ 1023
    → length password ≤ 1023
    → split_quotes (register_sql name email password)
      ≡ codes "INSERT INTO usuarios (nome, email, senha) VALUES ("
        ∷ normalize_string name
        ∷ codes ", "
        ∷ normalize_string email
        ∷ codes ", "
        ∷ normalize_string password
        ∷ codes ");"
        ∷ []
unfolding register_sql split_quotes
register_sql-pieces name email password hn he hp =
    split_quotes-snprintf _ _ (simp lengths (omega arith))
      (rw (split_quotes-string, split_quotes-string, split_quotes-string))

-- The statement that adds a product, with a name, a type and an image of up to 1023 bytes and the
-- price that `atoi` reads from any text, split at its single quotes, is the fixed text with the
-- three values between their quotes and the price after the last.
pub add_product_sql-pieces :
    (nome tipo imagem preco : Bytes)
    → length nome ≤ 1023
    → length tipo ≤ 1023
    → length imagem ≤ 1023
    → split_quotes (add_product_sql nome tipo imagem (atoi preco))
      ≡ codes "INSERT INTO produtos (nome, tipo, imagem, preco) VALUES ("
        ∷ normalize_query_value (normalize_string nome)
        ∷ codes ", "
        ∷ normalize_string tipo
        ∷ codes ", "
        ∷ normalize_string imagem
        ∷ (codes ", " ++ (print_int (atoi preco) ++ codes ");"))
        ∷ []
unfolding add_product_sql split_quotes
add_product_sql-pieces nome tipo imagem preco hn ht hi =
    let short = print_int-length (atoi preco) (atoi-IsInt preco) in
    let last : split_quotes (print_int (atoi preco) ++ codes ");")
        ≡ (print_int (atoi preco) ++ codes ");") ∷ [] =
      split_quotes_end _ (append-IsClean _ _ (print_int-IsClean (atoi preco)) (omega arith)) in
    split_quotes-snprintf _ _ (simp lengths (omega arith))
      (rw (split_quotes-query_value, split_quotes-string, split_quotes-string, last))

-- The statement that deletes a product with a name of up to 1023 bytes, split at its single
-- quotes, is the fixed text with the name between its quotes.
pub delete_product_sql-pieces :
    (nome : Bytes)
    → length nome ≤ 1023
    → split_quotes (delete_product_sql nome)
      ≡ codes "DELETE from produtos WHERE="
        ∷ normalize_query_value (normalize_string nome)
        ∷ codes ";"
        ∷ []
unfolding delete_product_sql split_quotes
delete_product_sql-pieces nome h =
    split_quotes-snprintf _ _ (simp lengths (omega arith)) (rw split_quotes-query_value)

-- The statements on the cart, for a user that holds no quote.
module _ (user : Bytes) (clean : IsClean user) where
  -- The statement that adds a product to the cart of a user without a single quote, where the two
  -- have up to 1991 bytes together, split at its single quotes, is the fixed text with the two
  -- values between their quotes.
  pub add_to_cart_sql-pieces :
      (produto : Bytes)
      → length user + length produto ≤ 1991
      → split_quotes (add_to_cart_sql user produto)
        ≡ codes "INSERT INTO carrinho (usuario, produto) VALUES ("
          ∷ user
          ∷ codes ", "
          ∷ normalize_query_value (normalize_string produto)
          ∷ codes ");"
          ∷ []
  unfolding add_to_cart_sql split_quotes
  add_to_cart_sql-pieces produto h =
      split_quotes-snprintf _ _ (simp lengths (omega arith))
        (rw (split_quotes-append user _ clean, split_quotes-query_value))

  -- The statement that deletes a product from the cart of a user without a single quote, where the
  -- two have up to 1994 bytes together, split at its single quotes, is the fixed text with the two
  -- values between their quotes.
  pub delete_from_cart_sql-pieces :
      (produto : Bytes)
      → length user + length produto ≤ 1994
      → split_quotes (delete_from_cart_sql user produto)
        ≡ codes "DELETE from carrinho WHERE usuario="
          ∷ user
          ∷ codes " AND produto="
          ∷ normalize_query_value (normalize_string produto)
          ∷ codes ";"
          ∷ []
  unfolding delete_from_cart_sql split_quotes
  delete_from_cart_sql-pieces produto h =
      split_quotes-snprintf _ _ (simp lengths (omega arith))
        (rw (split_quotes-append user _ clean, split_quotes-query_value))

  -- The statement that lists the cart of a user without a single quote and of up to 1017 bytes,
  -- split at its single quotes, is the fixed text with the user between its quotes.
  pub cart_sql-pieces :
      length user ≤ 1017
      → split_quotes (cart_sql user)
        ≡ codes "SELECT * FROM carrinho WHERE usuario=" ∷ user ∷ codes ";" ∷ []
  unfolding cart_sql split_quotes
  cart_sql-pieces h =
      split_quotes-snprintf _ _ (simp lengths (omega arith)) (rw (split_quotes-append user _ clean))
