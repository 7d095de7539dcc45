-- ===== src/Main/Frame/Handle.antt =====
-- The rule for every route of server/main.c: what a login leaves when it opens a session is to be
-- shown apart.
use pal_ft.Base.{
  ℕ, ◌≡◌, refl, sym, ap, subst, deref-eq-ok, true, Option, none, some, List, [], ◌∷◌, Outcome, ok,
  exited, ◌>>=◌, deref,
}
use pal_ft.Base.{Ensures, >>=-Ensures_of, >>=-Ensures_eq, if-Ensures}
use pal_ft.HttpServer.{Response}
use pal_ft.Libc.{Bytes, codes}
use pal_ft.Main.{Row, tuples, Env, Server, plain, json, param, send, normalize_string}
use pal_ft.Main.Accounts
use pal_ft.Main.Callback.{Route, handle, not_found}
use pal_ft.Main.Sql.{login_sql}
use pal_ft.QueryParser.{Info}
use pal_ft.SessionId.{generate_session_id}
use pal_ft.Tablec.{Table, tablec_set}
use pal_ft.Main.Frame.{
  Admitted, send_now, with_connection-Ensures_eq, with_tuples-Ensures_eq, list_products-Ensures,
  register-Ensures, add_product-Ensures, delete_product-Ensures, add_to_cart-Ensures,
  delete_from_cart-Ensures, list_cart-Ensures,
}

module _ {κ} {D : Type 0} (env : Env D) (P : Server D → Type κ) (s : Server D)
    (sends : (d : D) (r : Response) → Ensures P (send (record s { world = d }) r)) where
  new_session_id-Ensures :
      (d : D)
      → Ensures
          (λ r.
            (n : ℕ) × (d' : D) × (env.getrandom d ≡ (some n, d'))
            × (r ≡ (generate_session_id (env.rand n), record s { world = d' })))
          (Accounts.new_session_id env (record s { world = d }))
  unfolding Accounts.new_session_id Ensures
  new_session_id-Ensures d = go (env.getrandom d).0 refl
    where
      d' : D
      d' = (env.getrandom d).1

      go :
          (seed : Option ℕ)
          → (env.getrandom d).0 ≡ seed
          → Ensures
              (λ r.
                (n : ℕ) × (d' : D) × (env.getrandom d ≡ (some n, d'))
                × (r ≡ (generate_session_id (env.rand n), record s { world = d' })))
              (elim seed as (λ _. Outcome (Bytes × Server D)) [
                | none ↦ exited 1
                | some n ↦ ok (generate_session_id (env.rand n), record s { world = d' })
              ])
      go none e = tt
      go (some n) e = (n, d', ap (λ (o : Option ℕ). let p : Option ℕ × D = (o, d') in p) e, refl)

  -- What is to be shown of a login that opens a session.
  abbrev pub Opening : Info → Type κ
  Opening info =
      (email : Bytes) (n : ℕ) (d : D) (t : Table Bytes)
      → Admitted env s info email n d
      → tablec_set s.sessions (generate_session_id (env.rand n)) (normalize_string email) ≡ ok t
      → (r : Response) → Ensures P (send (record s { world = d; sessions = t }) r)

  module _ (info : Info) (opens : Opening info) where
    open_session-Ensures :
        (d : D) (email : Bytes)
        → ((n : ℕ) (d' : D) → env.getrandom d ≡ (some n, d') → Admitted env s info email n d')
        → Ensures P (Accounts.open_session env (record s { world = d }) email)
    unfolding Accounts.open_session
    open_session-Ensures d email admitted =
        >>=-Ensures_of _ P (Accounts.new_session_id env (record s { world = d })) _
          (new_session_id-Ensures d)
          λ r (n, d', seeded, same).
            subst
              (λ (q : Bytes × Server D). Ensures P (
                tablec_set q.1.sessions q.0 (normalize_string email) >>= λ t.
                send (record (q.1) { sessions = t }) (json 200 q.0 (codes "16") 16)))
              (sym same) (>>=-Ensures_eq P _ _ λ t e. opens email n d' t (admitted n d' seeded) e _)

    login_rows-Ensures :
        (email password : Bytes) (d₁ d₂ : D) (rows : List Row)
        → param info (codes "email") ≡ some email
        → param info (codes "password") ≡ some password
        → env.connect s.world ≡ (true, d₁)
        → env.exec (login_sql email password) d₁ ≡ (tuples rows, d₂)
        → Ensures P (Accounts.login_rows env email (record s { world = d₂ }) rows)
    unfolding Accounts.login_rows
    login_rows-Ensures email password d₁ d₂ [] he hp up answer = sends d₂ (plain 403)
    login_rows-Ensures email password d₁ d₂ (row ∷ rows) he hp up answer =
        open_session-Ensures d₂ email λ n d' seeded. record {
          password = password;
          d₁ = d₁;
          d₂ = d₂;
          row = row;
          rows = rows;
          email_given = he;
          password_given = hp;
          connected = up;
          answered = answer;
          seeded = seeded;
        }

    login-Ensures : Ensures P (Accounts.login env s info)
    unfolding Accounts.login
    login-Ensures = if-Ensures P _ _ _ (send_now env P s sends (plain 400)) (
        >>=-Ensures_eq P (deref (param info (codes "email"))) _ λ email he.
          >>=-Ensures_eq P (deref (param info (codes "password"))) _ λ password hp.
            with_connection-Ensures_eq env P s sends s.world _ λ d₁ up.
              with_tuples-Ensures_eq env P s sends d₁ _ _ λ d₂ rows answer.
                login_rows-Ensures email password d₁ d₂ rows (deref-eq-ok _ he) (deref-eq-ok _ hp)
                  up answer)

  pub handle-Ensures :
      (r : Route) (info : Info) → (r ≡ Route.login → Opening info) → Ensures P (handle env r s info)
  unfolding handle
  handle-Ensures Route.products info opens = list_products-Ensures env P s sends info
  handle-Ensures Route.register info opens = register-Ensures env P s sends info
  handle-Ensures Route.login info opens = login-Ensures info (opens refl)
  handle-Ensures Route.check_session info opens = send_now env P s sends not_found
  handle-Ensures Route.add_product info opens = add_product-Ensures env P s sends info
  handle-Ensures Route.delete_product info opens = delete_product-Ensures env P s sends info
  handle-Ensures Route.add_to_cart info opens = add_to_cart-Ensures env P s sends info
  handle-Ensures Route.delete_from_cart info opens = delete_from_cart-Ensures env P s sends info
  handle-Ensures Route.cart info opens = list_cart-Ensures env P s sends info
  handle-Ensures Route.unknown info opens = send_now env P s sends not_found
