-- ===== src/Main/ProductList.antt =====
-- The JSON text of the lists in server/main.c, against a plain description of it.
use pal_ft.Base.{
  ℕ, zero, suc, ◌+◌, ◌^◌, ◌≤◌, ◌<◌, ◌≡◌, refl, sym, ap, subst, ◌∙◌, List, [], ◌∷◌, ◌++◌, map,
  append_assoc, arith, length, length-append, get_or, Outcome, ok, ◌>>=◌,
}
use pal_ft.Libc.{Bytes, codes, pos, print_int, atoi}
use pal_ft.Main.{Row, column}
use pal_ft.Main.Products.{Product, product_object, listed_product, list_rows}
use pal_ft.Pjsonb.{to_close, array, Builder, pjsonb_init, pjsonb_end, put}
use pal_ft.Pjsonb.Emit.{
  Adds, string_field, number_field, set_string-Adds, set_int-Adds, enter_object-Adds, Adds-trans,
  leave_object-Adds, end_full-string,
}

-- The object of a product up to its closing brace.
abbrev pub object_body : Product → Bytes
object_body p =
    codes "{"
    ++ (string_field (codes "nome") p.nome
        ++ (string_field (codes "tipo") p.tipo
            ++ (string_field (codes "imagem") p.imagem
                ++ (number_field (codes "preco") (print_int p.preco)
                    ++ (codes "\"avaliacao\":" ++ print_int p.avaliacao)))))

-- The length of an object, by its fields.
object_size :
    (p : Product)
    → length (object_body p ++ codes "},")
      ≡ 1
        + length (string_field (codes "nome") p.nome)
        + length (string_field (codes "tipo") p.tipo)
        + length (string_field (codes "imagem") p.imagem)
        + length (number_field (codes "preco") (print_int p.preco))
        + length (number_field (codes "avaliacao") (print_int p.avaliacao))
        + 1
object_size p = simp length-append (omega arith)

-- A call that returns, and then others that do.
and_then :
    {o : Outcome Builder} {g : Builder → Outcome Builder} {P Q : Builder → Type 0}
    → (b₁ : Builder) × (o ≡ ok b₁) × P b₁
    → ((b₁ : Builder) → P b₁ → (b' : Builder) × (g b₁ ≡ ok b') × Q b')
    → (b' : Builder) × ((o >>= g) ≡ ok b') × Q b'
and_then (b₁, e, p) h = let (b', e', q) = h b₁ p in (b', rw e e', q)

product_object-Adds :
    (p : Product) (b : Builder)
    → b.position + length (object_body p ++ codes "},") < 2 ^ 31
    → (b' : Builder) × (product_object p b ≡ ok b')
      × Adds b (object_body p ++ codes "},") to_close b'
unfolding product_object
product_object-Adds p b small =
    let size = object_size p in
    and_then (enter_object-Adds b (omega (arith, small, size))) λ b₁ a₁.
      and_then (set_string-Adds b₁ (codes "nome") p.nome (omega (arith, small, size, a₁.position)))
        λ b₂ a₂.
          and_then
            (set_string-Adds b₂ (codes "tipo") p.tipo
              (omega (arith, small, size, a₁.position, a₂.position)))
            λ b₃ a₃.
              and_then
                (set_string-Adds b₃ (codes "imagem") p.imagem
                  (omega (arith, small, size, a₁.position, a₂.position, a₃.position)))
                λ b₄ a₄.
                  and_then
                    (set_int-Adds b₄ (codes "preco") p.preco (
                      omega
                        (arith, small, size, a₁.position, a₂.position, a₃.position, a₄.position)))
                    λ b₅ a₅.
                      and_then
                        (set_int-Adds b₅ (codes "avaliacao") p.avaliacao (
                          omega (
                            arith, small, size, a₁.position, a₂.position, a₃.position, a₄.position,
                            a₅.position,
                          )))
                        λ b₆ a₆.
                          let all =
                            Adds-trans a₁
                              (Adds-trans a₂ (Adds-trans a₃ (Adds-trans a₄ (Adds-trans a₅ a₆)))) in
                          leave_object-Adds (object_body p)
                            (subst (λ t. Adds b t to_close b₆) (simp append_assoc) all)
                            (omega (arith, small, length-append (object_body p) (codes "},")))

-- The objects with commas between them.
unfoldable pub joined : List Product → Bytes
joined [] = []
joined (p ∷ []) = object_body p ++ codes "}"
joined (p ∷ q ∷ ps) = (object_body p ++ codes "},") ++ joined (q ∷ ps)

-- The text of a list of products.
abbrev pub list_text : List Product → Bytes
list_text ps = codes "[" ++ (joined ps ++ codes "]")

-- The product that the list shows for a row: its price is that of the image.
abbrev pub listed : Row → Product
listed row = record {
  nome = get_or row 0 [];
  tipo = get_or row 1 [];
  imagem = get_or row 2 [];
  preco = atoi (get_or row 2 []);
  avaliacao = pos 5;
}

-- Every row has the columns that are read.
abbrev pub HasColumns : ℕ → List Row → Type 0
HasColumns n [] = Unit
HasColumns n (row ∷ rows) = (n ≤ length row) × HasColumns n rows

pub column-get_or : (row : Row) (j : ℕ) → j < length row → column row j ≡ ok (get_or row j [])
unfolding column
column-get_or [] j h = absurd (omega arith)
column-get_or (x ∷ row) zero h = refl
column-get_or (x ∷ row) (suc j) h = column-get_or row j (omega arith)

listed_product-listed : (row : Row) → 3 ≤ length row → listed_product row ≡ ok (listed row)
unfolding listed_product
listed_product-listed row h = rw (
  column-get_or row 0 (omega arith),
  column-get_or row 1 (omega arith),
  column-get_or row 2 (omega arith),
)

list_rows-Adds :
    (row : Row) (rows : List Row) (b : Builder)
    → HasColumns 3 (row ∷ rows)
    → b.position + length (joined (map listed (row ∷ rows)) ++ codes ",") < 2 ^ 31
    → (b' : Builder) × (list_rows (row ∷ rows) b ≡ ok b')
      × Adds b (joined (map listed (row ∷ rows)) ++ codes ",") to_close b'
unfolding list_rows joined
list_rows-Adds row [] b h small =
    let (b', e, a) = product_object-Adds (listed row) b (
      omega (
        arith,
        small,
        ap length (append_assoc (object_body (listed row)) (codes "}") (codes ",")),
      )) in
    (
      b',
      rw (listed_product-listed row h.0, e),
      subst (λ t. Adds b t to_close b')
          (sym (append_assoc (object_body (listed row)) (codes "}") (codes ","))) a,
    )
list_rows-Adds row (next ∷ rows) b h small =
    let size =
      ap length (
        append_assoc (object_body (listed row) ++ codes "},") (joined (map listed (next ∷ rows)))
          (codes ","))
      ∙ length-append (object_body (listed row) ++ codes "},") _ in
    let (b₁, e₁, a₁) = product_object-Adds (listed row) b (omega (arith, small, size)) in
    let (b₂, e₂, a₂) = list_rows-Adds next rows b₁ h.1 (omega (arith, small, size, a₁.position)) in
    (
      b₂,
      rw (listed_product-listed row h.0, e₁) e₂,
      subst (λ t. Adds b t to_close b₂) (simp append_assoc) (Adds-trans a₁ a₂),
    )

no_rows :
    (b : Builder) × ((list_rows [] (pjsonb_init array) >>= pjsonb_end) ≡ ok b)
    × (b.string ≡ list_text [])
    × (b.position ≡ length (list_text []))
unfolding list_rows pjsonb_init pjsonb_end put joined
no_rows = (_, refl, refl, refl)

-- For rows of at least three columns, and a text that an `int` can count, the calls of the builder
-- return, and the text is the objects of the rows in order, with commas between them.
pub list_rows-list_text :
    (rows : List Row)
    → HasColumns 3 rows
    → length (list_text (map listed rows)) < 2 ^ 31
    → (b : Builder) × ((list_rows rows (pjsonb_init array) >>= pjsonb_end) ≡ ok b)
      × (b.string ≡ list_text (map listed rows))
      × (b.position ≡ length (list_text (map listed rows)))
list_rows-list_text [] h small = no_rows
list_rows-list_text (row ∷ rows) h small =
    let (b₁, e₁, a₁) = list_rows-Adds row rows (pjsonb_init array) h (
      omega (
        arith,
        small,
        length-append (joined (map listed (row ∷ rows))) (codes "]"),
        length-append (joined (map listed (row ∷ rows))) (codes ","),
        started.2,
      )) in
    let (b₂, e₂, text, at) = end_full-string (joined (map listed (row ∷ rows))) a₁ started.0 in
    (
      b₂,
      ap (λ o. o >>= pjsonb_end) e₁ ∙ e₂,
      text ∙ ap (λ l. l ++ (joined (map listed (row ∷ rows)) ++ codes "]")) started.1,
      at ∙ (simp length-append (omega (arith, started.2))),
    )
  where
    started :
        ((pjsonb_init array).kind ≡ array)
        × ((pjsonb_init array).string ≡ codes "[")
        × ((pjsonb_init array).position ≡ 1)
    started = unfold pjsonb_init in (refl, refl, refl)
