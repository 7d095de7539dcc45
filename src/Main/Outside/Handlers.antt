-- ===== src/Main/Outside/Handlers.antt =====
-- The calls of each handler of server/main.c.
use pal_ft.Base.{
  ℕ, suc, refl, get_elem?, ◌≤◌, ◌≡◌, Bool-cases, inl, inr, Option, none, some, List, [], ◌∷◌, deref,
  deref-eq-ok, length, Outcome, ok, exited, ◌>>=◌,
}
use pal_ft.Base.{Ensures, >>=-Ensures, >>=-Ensures_of, >>=-Ensures_eq, if-Ensures, ok-Ensures}
use pal_ft.Libc.{Bytes, codes}
use pal_ft.Main.{
  Row, Reply, tuples, command, failed, Env, Server, plain, normalize_string, param, column, send,
}
use pal_ft.Main.Accounts
use pal_ft.Main.Cart
use pal_ft.Main.Outside.{
  Calls, connects, seeds, asks, lists_products, Asked, holds_clean, Called, send-Called,
  with_connection-Called, with_command-Called, with_tuples-Called,
}
use pal_ft.Main.Products
use pal_ft.Main.Sql.{product_by_name_sql}
use pal_ft.Main.Statements.{select_from_usuarios, insert_into_usuarios}
use pal_ft.Pjsonb.{Builder, array, pjsonb_init, pjsonb_end}
use pal_ft.QueryParser.{Info}
use pal_ft.SessionId.{generate_session_id}
use pal_ft.Tablec.{tablec_set}

module _ {D : Type 0} (env : Env D) (start : D) where
  abbrev P : Server D → Type 0
  P = Called env start

  new_session_id-Called :
      (s : Server D) → P s → Ensures (λ r. P r.1) (Accounts.new_session_id env s)
  unfolding Accounts.new_session_id
  new_session_id-Called s q = go (env.getrandom s.world).0
    where
      go :
          (seed : Option ℕ)
          → Ensures
              (λ r. P r.1)
              (elim seed as (λ _. Outcome (Bytes × Server D)) [
                | none ↦ exited 1
                | some n ↦ ok (
                  generate_session_id (env.rand n),
                  record s { world = (env.getrandom s.world).1 },
                )
              ])
      go none = unfold Ensures in tt
      go (some n) = unfold Ensures in seeds s.world q

  open_session-Called :
      (s : Server D) (email : Bytes) → P s → Ensures P (Accounts.open_session env s email)
  unfolding Accounts.open_session
  open_session-Called s email q =
      >>=-Ensures_of _ P (Accounts.new_session_id env s) _ (new_session_id-Called s q) λ r q'.
        >>=-Ensures P (tablec_set r.1.sessions r.0 (normalize_string email)) _
          λ t. send-Called env start (record (r.1) { sessions = t }) _ q'

  login_rows-Called :
      (s : Server D) (email : Bytes) (rows : List Row)
      → P s
      → Ensures P (Accounts.login_rows env email s rows)
  unfolding Accounts.login_rows
  login_rows-Called s email [] q = send-Called env start s (plain 403) q
  login_rows-Called s email (row ∷ rows) q = open_session-Called s email q

  get_produto_by_name-Called :
      (d : D) (nome : Bytes)
      → Asked env (product_by_name_sql nome)
      → Calls env start d
      → Ensures (λ r. Calls env start r.1) (Products.get_produto_by_name env d nome)
  unfolding Products.get_produto_by_name
  get_produto_by_name-Called d nome asked q = elim (Bool-cases (env.connect d).0) [
    | inl up ↦ rw up (go (env.exec (product_by_name_sql nome) (env.connect d).1).0)
    | inr down ↦ rw down (unfold Ensures in connects d q)
  ]
    where
      d₂ : D
      d₂ = (env.exec (product_by_name_sql nome) (env.connect d).1).1

      q₂ : Calls env start d₂
      q₂ = asks (product_by_name_sql nome) (env.connect d).1 asked (connects d q)

      go :
          (reply : Reply)
          → Ensures
              (λ r. Calls env start r.1)
              (elim reply as (λ _. Outcome (Option Products.Product × D)) [
                | tuples [] ↦ ok (none, d₂)
                | tuples (row ∷ _) ↦ Products.product_of_row row >>= λ p. ok (some p, d₂)
                | command ↦ ok (none, d₂)
                | failed ↦ ok (none, d₂)
              ])
      go (tuples []) = ok-Ensures _ _ q₂
      go (tuples (row ∷ rows)) =
          >>=-Ensures _ (Products.product_of_row row) _ λ p. ok-Ensures _ _ q₂
      go command = ok-Ensures _ _ q₂
      go failed = ok-Ensures _ _ q₂

  pub cart_rows-Called :
      (s : Server D) (rows : List Row) (b : Builder)
      → ((i : ℕ) (row : Row) (nome : Bytes)
          → get_elem? rows i ≡ some row
          → column row 1 ≡ ok nome
          → Asked env (product_by_name_sql nome))
      → P s
      → Ensures (λ r. P r.1) (Cart.cart_rows env s rows b)
  unfolding Cart.cart_rows
  cart_rows-Called s [] b named q = ok-Ensures _ _ q
  cart_rows-Called s (row ∷ rows) b named q = >>=-Ensures_eq _ (column row 1) _ λ nome at.
      >>=-Ensures_of _ _ (Products.get_produto_by_name env s.world nome) _
        (get_produto_by_name-Called s.world nome (named 0 row nome refl at) q)
        λ found q'. >>=-Ensures _ (deref found.0) _ λ p.
          >>=-Ensures _ (Products.product_object p b) _ λ b'.
            cart_rows-Called (record s { world = found.1 }) rows b'
              (λ i other name. named (suc i) other name) q'

  module _ (s : Server D) (called : P s) (info : Info)
      (short : (key value : Bytes) → param info key ≡ some value → length value ≤ 1023) where
    -- A parameter that is read, with its length.
    pub given_short :
        (key : Bytes) (k : Bytes → Outcome (Server D))
        → ((value : Bytes) → length value ≤ 1023 → Ensures P (k value))
        → Ensures P (deref (param info key) >>= k)
    given_short key k h =
        >>=-Ensures_eq P (deref (param info key)) _
          λ value e. h value (short key value (deref-eq-ok _ e))

    pub refuse : (status : ℕ) → Ensures P (send s (plain status))
    refuse status = send-Called env start s (plain status) called

    pub list_products-Called : Ensures P (Products.list_products env s info)
    unfolding Products.list_products
    list_products-Called = with_connection-Called env start s _ called λ d q.
        with_tuples-Called env start (record s { world = d }) _ _ lists_products q
          λ d' rows _ q'. >>=-Ensures P (Products.list_rows rows (pjsonb_init array)) _ λ b.
            >>=-Ensures P (pjsonb_end b) _
              λ b'. send-Called env start (record s { world = d' }) _ q'

    pub register-Called : Ensures P (Accounts.register env s info)
    unfolding Accounts.register
    register-Called = if-Ensures P _ _ _ (refuse 400) (
        given_short (codes "name") _ λ name hn. given_short (codes "email") _ λ email he.
          given_short (codes "password") _ λ password hp.
            with_connection-Called env start s _ called λ d q.
              with_command-Called env start (record s { world = d }) _ _
                (holds_clean env (insert_into_usuarios name email password) (hn, he, hp) tt) q
                λ d' q'. send-Called env start (record s { world = d' }) _ q')

    pub login-Called : Ensures P (Accounts.login env s info)
    unfolding Accounts.login
    login-Called = if-Ensures P _ _ _ (refuse 400) (
        given_short (codes "email") _ λ email he. given_short (codes "password") _ λ password hp.
          with_connection-Called env start s _ called λ d q.
            with_tuples-Called env start (record s { world = d }) _ _
              (holds_clean env (select_from_usuarios email password) (he, hp) tt) q
              λ d' rows _ q'. login_rows-Called (record s { world = d' }) email rows q')
