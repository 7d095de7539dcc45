-- ===== src/Main/Catalogue.antt =====
-- /api/produtos/ in server/main.c: the list, the price that it shows, and who may change products.
use pal_ft.Base.{
  ◌^◌, ◌<◌, ◌≡◌, ◌∙◌, Bool, refl, ap, inl, inr, Bool-cases, Option, none, some, true, false, not,
  ◌&&◌, List, [], ◌∷◌, ◌++◌, map, arith, length, ok, >>=-eq-ok, if◌then◌else◌,
}
use pal_ft.HttpServer.{Response, httpserver_send_response}
use pal_ft.Libc.{Bytes, codes, atoi, decimal, str_eq, str_eq_iff}
use pal_ft.Libc.Digits.{decimal-length}
use pal_ft.Main.{Row, tuples, Env, Server, plain, json, send, given, param, column}
use pal_ft.Main.ProductList.{list_text, listed, HasColumns, list_rows-list_text}
use pal_ft.Main.Products.{
  Product, listed_product, product_of_row, list_rows, json_response, list_products, authorised,
  add_product, delete_product,
}
use pal_ft.Main.Quotes.{snprintf_whole}
use pal_ft.Main.Sending.{
  Answered, plain-Answered, json_bytes, send_lem, with_connection_up, with_tuples_rows,
}
use pal_ft.Main.Sql.{products_sql}
use pal_ft.Pjsonb.{array, Builder, pjsonb_init, pjsonb_end}
use pal_ft.QueryParser.{Info}

-- The answer that carries a list of products.
abbrev pub list_response : List Product → Response
list_response ps = json 200 (list_text ps) (decimal (length (list_text ps))) (length (list_text ps))

same_response :
    (b : Builder) (t : Bytes)
    → b.string ≡ t
    → b.position ≡ length t
    → length t < 10 ^ 9
    → json_response b ≡ json 200 t (decimal (length t)) (length t)
unfolding json_response
same_response b t text at small = rw (
  text,
  at,
  snprintf_whole 10 (decimal (length t)) (omega (arith, decimal-length 8 (length t) small)),
)

-- If the database is up and answers the list of products with rows of at least three columns,
-- whose text is shorter than 10 ^ 9 bytes, then the handler returns: it has sent one response, 200
-- with that text as the body and its length as Content-Length, and nothing else but the outside
-- state has changed.
pub list_products-list_response :
    {D : Type 0} (env : Env D) (s : Server D) (info : Info) (rows : List Row) (d₁ d₂ : D)
    → env.connect s.world ≡ (true, d₁)
    → env.exec products_sql d₁ ≡ (tuples rows, d₂)
    → HasColumns 3 rows
    → length (list_text (map listed rows)) < 10 ^ 9
    → (bytes : Bytes) × (httpserver_send_response (list_response (map listed rows)) ≡ ok bytes)
      × (list_products env s info ≡ ok (record s { world = d₂; sent = s.sent ++ bytes ∷ [] }))
unfolding list_products
list_products-list_response env s info rows d₁ d₂ up answer columns small =
    let (b, built, text, at) = list_rows-list_text rows columns (omega (arith, small)) in
    let (b₀, rows_done, ended) = >>=-eq-ok (list_rows rows (pjsonb_init array)) pjsonb_end built in
    let (bytes, sendable) =
      json_bytes (list_text (map listed rows)) (decimal (length (list_text (map listed rows))))
        (omega (arith, small, decimal-length 8 (length (list_text (map listed rows))) small)) in
    (
      bytes,
      sendable,
      with_connection_up env s d₁ _ up
          ∙ (with_tuples_rows env (record s { world = d₁ }) d₂ products_sql rows _ answer
              ∙ (rw (rows_done, ended, same_response b (list_text (map listed rows)) text at small)
                  (send_lem (record s { world = d₂ }) _ bytes sendable))),
    )

-- Of one row, the list of products and a lookup by name give the same name, type and image, but
-- the price of the list is what `atoi` reads in the image.
pub listed_price :
    (row : Row) (p q : Product)
    → listed_product row ≡ ok p
    → product_of_row row ≡ ok q
    → (p.preco ≡ atoi p.imagem) × (p.nome ≡ q.nome) × (p.tipo ≡ q.tipo) × (p.imagem ≡ q.imagem)
unfolding listed_product product_of_row column
listed_price [] p q h k = cc
listed_price (a ∷ []) p q h k = cc
listed_price (a ∷ b ∷ []) p q h k = cc
listed_price (a ∷ b ∷ c ∷ []) p q h k = cc
listed_price (a ∷ b ∷ c ∷ d ∷ row) p q h k = ground arith

refusal :
    {D : Type 0} (s : Server D) (complete : Bool)
    → Answered s
        (plain (if complete then 403 else 400))
        (if not complete then send s (plain 400) else send s (plain 403))
refusal s true = plain-Answered s 403 (omega arith) (omega arith)
refusal s false = plain-Answered s 400 (omega arith) (omega arith)

not_authorised :
    (info : Info) → ¬ (param info (codes "senha") ≡ some (codes "senha")) → authorised info ≡ false
unfolding authorised
not_authorised info other = go (param info (codes "senha")) other
  where
    go :
        (given_senha : Option Bytes)
        → ¬ (given_senha ≡ some (codes "senha"))
        → (elim given_senha [ none ↦ false | some senha ↦ str_eq senha (codes "senha") ]) ≡ false
    go none h = refl
    go (some senha) h = elim (Bool-cases (str_eq senha (codes "senha"))) [
      | inl e ↦ absurd (h (ap some ((str_eq_iff senha (codes "senha")).0 e)))
      | inr e ↦ e
    ]

-- Unless the parameter `senha` is there and is exactly "senha", the handlers that add and that
-- delete a product return, and do nothing but answer: 403, or 400 where another parameter that the
-- handler wants is not there.
pub products_guard :
    {D : Type 0} (env : Env D) (s : Server D) (info : Info)
    → ¬ (param info (codes "senha") ≡ some (codes "senha"))
    → Answered s
        (plain (
          if given info (codes "nome")
            && given info (codes "tipo")
            && given info (codes "imagem")
            && given info (codes "preco")
          then 403
          else 400))
        (add_product env s info)
      × Answered s
          (plain (if given info (codes "nome") then 403 else 400))
          (delete_product env s info)
unfolding add_product delete_product
products_guard env s info other =
    let refused = not_authorised info other in
    (
      rw refused (
          refusal s (
            given info (codes "nome")
            && given info (codes "tipo")
            && given info (codes "imagem")
            && given info (codes "preco"))),
      rw refused (refusal s (given info (codes "nome"))),
    )
