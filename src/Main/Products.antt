-- ===== src/Main/Products.antt =====
-- The handlers of /api/produtos/ in server/main.c, and `get_produto_by_name`.
use pal_ft.Base.{
  Bool, false, not, ◌&&◌, Option, none, some, List, [], ◌∷◌, ◌==◌, if◌then◌else◌, Outcome, ok,
  ◌>>=◌, deref,
}
use pal_ft.HttpServer.{Response}
use pal_ft.Libc.{Bytes, codes, str_eq, snprintf, decimal, ℤ, pos, negsuc, atoi}
use pal_ft.Main.{
  Row, tuples, command, failed, Env, Server, plain, json, param, given, column, send,
  with_connection, with_tuples, with_command,
}
use pal_ft.Main.Sql.{product_by_name_sql, products_sql, add_product_sql, delete_product_sql}
use pal_ft.Pjsonb.{
  Builder, array, pjsonb_init, pjsonb_end, pjsonb_set_int, pjsonb_set_string, pjsonb_enter_object,
  pjsonb_leave_object,
}
use pal_ft.QueryParser.{Info}

-- struct produto
pub record Product : Type 0 where
  pub nome : Bytes
  pub tipo : Bytes
  pub imagem : Bytes
  pub preco : ℤ
  pub avaliacao : ℤ

-- The object that both lists write for a product.
unfoldable pub product_object : Product → Builder → Outcome Builder
product_object p b = do
  b₁ ← pjsonb_enter_object b none
  b₂ ← pjsonb_set_string b₁ (some (codes "nome")) p.nome
  b₃ ← pjsonb_set_string b₂ (some (codes "tipo")) p.tipo
  b₄ ← pjsonb_set_string b₃ (some (codes "imagem")) p.imagem
  b₅ ← pjsonb_set_int b₄ (some (codes "preco")) p.preco
  b₆ ← pjsonb_set_int b₅ (some (codes "avaliacao")) p.avaliacao
  pjsonb_leave_object b₆

-- A row as `get_produto_by_name` reads it.
unfoldable pub product_of_row : Row → Outcome Product
product_of_row row = do
  nome ← column row 0
  tipo ← column row 1
  imagem ← column row 2
  preco ← column row 3
  ok (record { nome = nome; tipo = tipo; imagem = imagem; preco = atoi preco; avaliacao = pos 5 })

-- A row as the list of products reads it: the price is read from column 2.
unfoldable pub listed_product : Row → Outcome Product
listed_product row = do
  nome ← column row 0
  tipo ← column row 1
  imagem ← column row 2
  preco ← column row 2
  ok (record { nome = nome; tipo = tipo; imagem = imagem; preco = atoi preco; avaliacao = pos 5 })

unfoldable pub list_rows : List Row → Builder → Outcome Builder
list_rows [] b = ok b
list_rows (row ∷ rows) b = do p ← listed_product row; b' ← product_object p b; list_rows rows b'

-- `content_length_str` is a buffer of 10 bytes.
unfoldable pub json_response : Builder → Response
json_response b = json 200 b.string (snprintf 10 (decimal b.position)) b.position

-- `senha` is there and is SENHA.
unfoldable pub authorised : Info → Bool
authorised info = elim (param info (codes "senha")) [
  | none ↦ false
  | some senha ↦ str_eq senha (codes "senha")
]

unfoldable pub is_zero : ℤ → Bool
is_zero (pos n) = n == 0
is_zero (negsuc n) = false

module _ {D : Type 0} (env : Env D) where
  -- A second connection; `none` is NULL.
  unfoldable pub get_produto_by_name : D → Bytes → Outcome (Option Product × D)
  get_produto_by_name d nome =
      let (up, d₁) = env.connect d in
      let (reply, d₂) = env.exec (product_by_name_sql nome) d₁ in
      if up
      then (elim reply [
        | tuples [] ↦ ok (none, d₂)
        | tuples (row ∷ _) ↦ product_of_row row >>= λ p. ok (some p, d₂)
        | command ↦ ok (none, d₂)
        | failed ↦ ok (none, d₂)
      ])
      else ok (none, d₁)

  -- /api/produtos/lista
  unfoldable pub list_products : Server D → Info → Outcome (Server D)
  list_products s info = with_connection env s λ s₁. with_tuples env s₁ products_sql λ s₂ rows. do
    b ← list_rows rows (pjsonb_init array)
    b' ← pjsonb_end b
    send s₂ (json_response b')

  -- /api/produtos/add
  unfoldable pub add_product : Server D → Info → Outcome (Server D)
  unfolding is_zero
  add_product s info =
      if not (
        given info (codes "nome")
        && given info (codes "tipo")
        && given info (codes "imagem")
        && given info (codes "preco"))
      then send s (plain 400)
      else if not (authorised info)
      then send s (plain 403)
      else (do
        nome ← deref (param info (codes "nome"))
        tipo ← deref (param info (codes "tipo"))
        imagem ← deref (param info (codes "imagem"))
        preco ← deref (param info (codes "preco"))
        if is_zero (atoi preco)
            then send s (plain 400)
            else (with_connection env s λ s₁.
                with_command env s₁ (add_product_sql nome tipo imagem (atoi preco))
                  λ s₂. send s₂ (plain 204)))

  -- /api/produtos/del; the 204 gives no header.
  unfoldable pub delete_product : Server D → Info → Outcome (Server D)
  delete_product s info =
      if not (given info (codes "nome"))
      then send s (plain 400)
      else if not (authorised info)
      then send s (plain 403)
      else (do
        nome ← deref (param info (codes "nome"))
        with_connection env s λ s₁.
            with_command env s₁ (delete_product_sql nome)
              λ s₂. send s₂ (record (plain 204) { headers_length = pos 0 }))
