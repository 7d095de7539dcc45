-- ===== src/Main/Cuts.antt =====
-- The statements of server/main.c where `snprintf` may cut them off: a value never ends its literal.
use pal_ft.Base.{
  ℕ, zero, suc, ◌-◌, ◌≡◌, refl, ap, subst, Bool-cases, inl, inr, List, [], ◌∷◌, ◌++◌, arith, ◌==◌,
  take,
}
use pal_ft.Libc.{Bytes, codes, snprintf, print_int, atoi}
use pal_ft.Main.Quotes.{
  IsClean, quote, cons_head, split_quotes, split_quotes-append, split_quotes_end,
  split_quotes-string, split_quotes-query_value, print_int-IsClean, append-IsClean,
}
use pal_ft.Main.Sql.{
  register_sql, login_sql, add_product_sql, delete_product_sql, add_to_cart_sql,
  delete_from_cart_sql, cart_sql,
}
use pal_ft.Main.Statements.{
  Statement, select_from_usuarios, insert_into_usuarios, insert_into_produtos, delete_from_produtos,
  insert_into_carrinho, delete_from_carrinho, select_from_carrinho, formatted, pieces,
}

-- What is left of a text's pieces when its end is cut off: the first ones, the last one of them
-- perhaps not whole.
abbrev pub IsCut : List Bytes → List Bytes → Type 0
IsCut [] whole = ⊥
IsCut (p ∷ []) [] = ⊥
IsCut (p ∷ []) (q ∷ whole) = (r : Bytes) × (q ≡ p ++ r)
IsCut (p ∷ p' ∷ cut) [] = ⊥
IsCut (p ∷ p' ∷ cut) (q ∷ whole) = (p ≡ q) × IsCut (p' ∷ cut) whole

cons_head-IsCut :
    (c : ℕ) (cut whole : List Bytes) → IsCut cut whole → IsCut (cons_head c cut) (cons_head c whole)
unfolding cons_head
cons_head-IsCut c [] whole h = absurd h
cons_head-IsCut c (p ∷ []) [] h = absurd h
cons_head-IsCut c (p ∷ []) (q ∷ whole) (r, e) = (r, ap (λ l. c ∷ l) e)
cons_head-IsCut c (p ∷ p' ∷ cut) [] h = absurd h
cons_head-IsCut c (p ∷ p' ∷ cut) (q ∷ whole) (e, h) = (ap (λ l. c ∷ l) e, h)

cons_nil-IsCut : (cut whole : List Bytes) → IsCut cut whole → IsCut ([] ∷ cut) ([] ∷ whole)
cons_nil-IsCut [] whole h = absurd h
cons_nil-IsCut (p ∷ cut) whole h = (refl, h)

some_piece : (text : Bytes) → IsCut ([] ∷ []) (split_quotes text)
unfolding split_quotes cons_head
some_piece [] = ([], refl)
some_piece (c ∷ s) = elim (Bool-cases (c == quote)) [
  | inl e ↦ rw e ([], refl)
  | inr e ↦ rw e (first (split_quotes s))
]
  where
    first : (ps : List Bytes) → IsCut ([] ∷ []) (cons_head c ps)
    first [] = (c ∷ [], refl)
    first (p ∷ ps) = (c ∷ p, refl)

take-IsCut : (n : ℕ) (text : Bytes) → IsCut (split_quotes (take n text)) (split_quotes text)
unfolding split_quotes
take-IsCut zero text = some_piece text
take-IsCut (suc n) [] = ([], refl)
take-IsCut (suc n) (c ∷ s) = elim (Bool-cases (c == quote)) [
  | inl e ↦ rw e (cons_nil-IsCut (split_quotes (take n s)) (split_quotes s) (take-IsCut n s))
  | inr e ↦ rw e (cons_head-IsCut c (split_quotes (take n s)) (split_quotes s) (take-IsCut n s))
]

snprintf-IsCut :
    (size : ℕ) (text : Bytes) {whole : List Bytes}
    → split_quotes text ≡ whole
    → IsCut (split_quotes (snprintf size text)) whole
unfolding snprintf
snprintf-IsCut size text h =
    subst (IsCut (split_quotes (take (size - 1) text))) h (take-IsCut (size - 1) text)

-- The user of a cart holds no single quote.
abbrev pub HasCleanUser : Statement → Type 0
HasCleanUser (insert_into_carrinho user produto) = IsClean user
HasCleanUser (delete_from_carrinho user produto) = IsClean user
HasCleanUser (select_from_carrinho user) = IsClean user
HasCleanUser _ = Unit

-- Each of the seven statements that hold values from a request or a session, whatever the lengths
-- of the values, split at its single quotes, is the beginning of the fixed text with the values
-- between their quotes, the last piece of which may be cut off, if the user of a cart holds no
-- single quote: where the buffer is too small, the statement ends early, but no value is read as a
-- part of the statement.
pub formatted-IsCut :
    (s : Statement) → HasCleanUser s → IsCut (split_quotes (formatted s)) (pieces s)
unfolding login_sql register_sql add_product_sql delete_product_sql add_to_cart_sql
    delete_from_cart_sql cart_sql split_quotes cons_head
formatted-IsCut (select_from_usuarios email password) h =
    snprintf-IsCut _ _ (rw (split_quotes-string, split_quotes-string))
formatted-IsCut (insert_into_usuarios name email password) h =
    snprintf-IsCut _ _ (rw (split_quotes-string, split_quotes-string, split_quotes-string))
formatted-IsCut (insert_into_produtos nome tipo imagem preco) h =
    let last : split_quotes (print_int (atoi preco) ++ codes ");")
        ≡ (print_int (atoi preco) ++ codes ");") ∷ [] =
      split_quotes_end _ (append-IsClean _ _ (print_int-IsClean (atoi preco)) (omega arith)) in
    snprintf-IsCut _ _
      (rw (split_quotes-query_value, split_quotes-string, split_quotes-string, last))
formatted-IsCut (delete_from_produtos nome) h = snprintf-IsCut _ _ (rw split_quotes-query_value)
formatted-IsCut (insert_into_carrinho user produto) clean =
    snprintf-IsCut _ _ (rw (split_quotes-append user _ clean, split_quotes-query_value))
formatted-IsCut (delete_from_carrinho user produto) clean =
    snprintf-IsCut _ _ (rw (split_quotes-append user _ clean, split_quotes-query_value))
formatted-IsCut (select_from_carrinho user) clean =
    snprintf-IsCut _ _ (rw (split_quotes-append user _ clean))
