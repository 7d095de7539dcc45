-- ===== src/Main/Access.antt =====
-- Sessions and the cart in server/main.c: who is let in, and as whom.
use pal_ft.Base.{
  ℕ, ◌≡◌, sym, ap, subst, ◌∙◌, true, if◌then◌else◌, Option, none, some, List, [], ◌∷◌, ◌++◌, arith,
  length, inl, inr, Option-cases, Outcome, ok, fault,
}
use pal_ft.HttpServer.{httpserver_send_response}
use pal_ft.Libc.{Bytes, codes, str_eq}
use pal_ft.Main.{Row, tuples, Env, Server, plain, json, param, given, normalize_string}
use pal_ft.Main.Accounts.{new_session_id, open_session, login_rows, login}
use pal_ft.Main.Callback.{Route, handle}
use pal_ft.Main.Cart.{with_session, add_to_cart, delete_from_cart, list_cart}
use pal_ft.Main.Sending.{
  Answered, plain-Answered, json_bytes, send_lem, with_connection_up, with_tuples_rows,
}
use pal_ft.Main.Sql.{login_sql}
use pal_ft.QueryParser.{Info, qparser_get_query}
use pal_ft.SessionId.Alphabet.{generate_session_id_lem}
use pal_ft.SessionId.{generate_session_id}
use pal_ft.Tablec.{Table, tablec_set, tablec_get}
use pal_ft.Tablec.Lookup.{IsValid}
use pal_ft.Tablec.Insert.{tablec_set-tablec_get}

pub given_of_param :
    (info : Info) (key : Bytes) {v : Bytes} → param info key ≡ some v → given info key ≡ true
unfolding param given
given_of_param info key h = elim (Option-cases (qparser_get_query info key)) [
  | inl e ↦ absurd (none_some (rw (e, param) at h))
  | inr (q, e) ↦ rw (e, given)
]
  where
    none_some : {A : Type 0} {a : A} → none ≡ some a → ⊥
    none_some e = cc

session_id-length : (rand : ℕ → ℕ) → 16 ≡ length (generate_session_id rand)
session_id-length rand = sym (generate_session_id_lem rand).0

-- The routes on the cart.
pub data IsCartRoute : Route → Type 0 where
  adding : IsCartRoute Route.add_to_cart
  deleting : IsCartRoute Route.delete_from_cart
  listing : IsCartRoute Route.cart

module _ {D : Type 0} (env : Env D) (s : Server D) (info : Info) where
  with_session-unknown :
      (session : Bytes) (k : Bytes → Outcome (Server D))
      → param info (codes "session") ≡ some session
      → tablec_get s.sessions session ≡ ok none
      → Answered s (plain 403) (with_session env s info k)
  unfolding with_session
  with_session-unknown session k e unknown =
      rw (e, unknown) (plain-Answered s 403 (omega arith) (omega arith))

  with_session-missing :
      (k : Bytes → Outcome (Server D))
      → param info (codes "session") ≡ none
      → with_session env s info k ≡ fault
  unfolding with_session
  with_session-missing k e = rw e

  -- A request on a route of the cart, with a `produto` and with a `session` that the table does
  -- not find, returns, and does nothing but answer 403.
  pub unknown_session :
      (r : Route) (produto session : Bytes)
      → IsCartRoute r
      → param info (codes "produto") ≡ some produto
      → param info (codes "session") ≡ some session
      → tablec_get s.sessions session ≡ ok none
      → Answered s (plain 403) (handle env r s info)
  unfolding handle add_to_cart delete_from_cart list_cart
  unknown_session r produto session adding p e unknown =
      rw (given_of_param info _ p, p) (with_session-unknown session _ e unknown)
  unknown_session r produto session deleting p e unknown =
      rw (given_of_param info _ p, p) (with_session-unknown session _ e unknown)
  unknown_session r produto session listing p e unknown = with_session-unknown session _ e unknown

  -- A request on a route of the cart, with a `produto` and without a `session`, reads through a
  -- null pointer, whatever the sessions are.
  pub missing_session :
      (r : Route) (produto : Bytes)
      → IsCartRoute r
      → param info (codes "produto") ≡ some produto
      → param info (codes "session") ≡ none
      → handle env r s info ≡ fault
  unfolding handle add_to_cart delete_from_cart list_cart
  missing_session r produto adding p e = rw (given_of_param info _ p, p) (with_session-missing _ e)
  missing_session r produto deleting p e =
      rw (given_of_param info _ p, p) (with_session-missing _ e)
  missing_session r produto listing p e = with_session-missing _ e

  new_session_id_lem :
      (s₁ : Server D) (n : ℕ) (d : D)
      → env.getrandom s₁.world ≡ (some n, d)
      → new_session_id env s₁ ≡ ok (generate_session_id (env.rand n), record s₁ { world = d })
  unfolding new_session_id
  new_session_id_lem s₁ n d seed =
      rw (seed, new_session_id)
        (ap (λ (r : Option ℕ × D). ok (generate_session_id (env.rand n), record s₁ { world = r.1 }))
          seed)

  open_session_lem :
      (s₁ : Server D) (email bytes : Bytes) (n : ℕ) (d : D) (t : Table Bytes)
      → env.getrandom s₁.world ≡ (some n, d)
      → tablec_set s₁.sessions (generate_session_id (env.rand n)) (normalize_string email) ≡ ok t
      → httpserver_send_response (json 200 (generate_session_id (env.rand n)) (codes "16") 16)
        ≡ ok bytes
      → open_session env s₁ email
        ≡ ok (record { sessions = t; world = d; sent = s₁.sent ++ bytes ∷ [] })
  unfolding open_session
  open_session_lem s₁ email bytes n d t seed stored sendable =
      rw (new_session_id_lem s₁ n d seed, stored)
        (send_lem (record s₁ { sessions = t; world = d }) _ bytes sendable)

  -- On a valid table of sessions, a login with an email and a password returns if the database is
  -- up and answers the statement with a row, the kernel gives a seed, and the id drawn is not in
  -- use. Afterwards the id finds the email with its quotes replaced, every other key finds what it
  -- found before, the table is valid, and the one response carries the id.
  pub login_stores :
      (email password : Bytes) (row : Row) (rows : List Row) (n : ℕ) (d₁ d₂ d₃ : D)
      → IsValid s.sessions
      → param info (codes "email") ≡ some email
      → param info (codes "password") ≡ some password
      → env.connect s.world ≡ (true, d₁)
      → env.exec (login_sql email password) d₁ ≡ (tuples (row ∷ rows), d₂)
      → env.getrandom d₂ ≡ (some n, d₃)
      → tablec_get s.sessions (generate_session_id (env.rand n)) ≡ ok none
      → (t : Table Bytes) × (bytes : Bytes) × (httpserver_send_response
            (json 200 (generate_session_id (env.rand n)) (codes "16") 16)
          ≡ ok bytes)
        × (login env s info ≡ ok (record { sessions = t; world = d₃; sent = s.sent ++ bytes ∷ [] }))
        × IsValid t
        × ((key : Bytes)
            → tablec_get t key ≡ (
                if str_eq (generate_session_id (env.rand n)) key
                then ok (some (generate_session_id (env.rand n), normalize_string email))
                else tablec_get s.sessions key))
  unfolding login login_rows
  login_stores email password row rows n d₁ d₂ d₃ valid e p up answer seed fresh =
      let id : Bytes = generate_session_id (env.rand n) in
      let (t, stored_ok, is_valid, found) =
        tablec_set-tablec_get s.sessions id (normalize_string email) valid fresh in
      let (bytes, sendable) =
        json_bytes id (codes "16") (omega (arith, session_id-length (env.rand n))) in
      let sendable' =
        subst (λ l. httpserver_send_response (json 200 id (codes "16") l) ≡ ok bytes)
          (sym (session_id-length (env.rand n))) sendable in
      (
        t,
        bytes,
        sendable',
        (rw (given_of_param info _ e, given_of_param info _ p, e, p)
            (with_connection_up env s d₁ _ up
              ∙ (with_tuples_rows env (record s { world = d₁ }) d₂ (login_sql email password)
                    (row ∷ rows) _ answer
                  ∙ open_session_lem (record s { world = d₂ }) email bytes n d₃ t seed stored_ok
                      sendable'))),
        is_valid,
        found,
      )
