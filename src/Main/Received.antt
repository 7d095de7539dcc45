-- ===== src/Main/Received.antt =====
-- A login at server/main.c from the bytes that are received to the session that is stored.
use pal_ft.Base.{
  ℕ, ◌≤◌, ◌≡◌, refl, ap, ◌∙◌, true, none, some, List, [], ◌∷◌, ◌++◌, arith, length, if◌then◌else◌,
  ok,
}
use pal_ft.HttpServer.{httpserver_send_response}
use pal_ft.HttpServer.Connections.{Pool}
use pal_ft.HttpServer.Connections.Counts.{uses, remove}
use pal_ft.HttpServer.Connections.Slots.{IsSound}
use pal_ft.HttpServer.Listen.{listen_messages}
use pal_ft.Libc.{Bytes, codes, str_eq, starts_with}
use pal_ft.Main.{Row, tuples, Env, Server, json, param, normalize_string, send}
use pal_ft.Main.Access.{login_stores}
use pal_ft.Main.Callback.{Route, route, handle, callback, serve}
use pal_ft.Main.Connection.{
  Message, wire, IsMessage, request_callback, disconnect_callback, listen_messages-serve,
}
use pal_ft.Main.Sql.{login_sql}
use pal_ft.QueryParser.{Info}
use pal_ft.QueryParser.RoundTrip.{query_text, qparser_parse-lookup}
use pal_ft.QueryParser.Spelled.{Pair, AreText, ArePairs, lookup}
use pal_ft.SessionId.{generate_session_id}
use pal_ft.Tablec.{Table, tablec_get}
use pal_ft.Tablec.Lookup.{IsValid}

-- A request with parameters goes to the handler of its route with what the keys find in them.
module _ {D : Type 0} (env : Env D) (s : Server D) where
  pub callback-lookup :
      (path : Bytes) (pair : Pair) (pairs : List Pair)
      → AreText path
      → ArePairs (pair ∷ pairs)
      → length (pair ∷ pairs) ≤ 10
      → (info : Info) × (callback env s (query_text path pair pairs)
          ≡ handle env (route (query_text path pair pairs)) s info)
        × ((key : Bytes) → param info key ≡ lookup key (pair ∷ pairs))
  unfolding callback param
  callback-lookup path pair pairs t are room =
      let (info, parsed, found) = qparser_parse-lookup 10 path pair pairs t are room in
      (info, rw parsed refl, found)

-- The parameters of a login, and its path.
abbrev pub login_params : Bytes → Bytes → List Pair
login_params email password = (codes "email", email) ∷ (codes "password", password) ∷ []

abbrev pub login_path : Bytes → Bytes → Bytes
login_path email password =
    query_text (codes "/api/login") (codes "email", email) ((codes "password", password) ∷ [])

login_path-route : (email password : Bytes) → route (login_path email password) ≡ Route.login
unfolding route starts_with
login_path-route email password = refl

module _ {D : Type 0} {V : Type 0} (env : Env D) (s : Server D) (pool : Pool V) where
  -- A connection in an open slot of a sound pool receives one request as in the theorem on
  -- `listen_messages`, on /api/login with an email and a password that are not empty, that fit,
  -- and that hold none of `?`, `=`, `&` and the zero byte. If the table of sessions is valid, the
  -- database is up and answers the login statement with a row, the kernel gives a seed, and the id
  -- drawn is not in use, then the thread returns; the one response carries the id, the id finds
  -- the email with its quotes replaced, every other key finds what it found before, the table is
  -- valid, and the slot is no longer taken in the pool, which is sound.
  pub login_received :
      (open_slots : List ℕ) (i : ℕ) (payload : Bytes) (m : Message) (email password : Bytes)
      (row : Row) (rows : List Row) (n : ℕ) (d₁ d₂ d₃ : D)
      → IsSound pool open_slots
      → 1 ≤ uses i open_slots
      → IsMessage m
      → m.path ≡ login_path email password
      → ArePairs (login_params email password)
      → IsValid s.sessions
      → env.connect s.world ≡ (true, d₁)
      → env.exec (login_sql email password) d₁ ≡ (tuples (row ∷ rows), d₂)
      → env.getrandom d₂ ≡ (some n, d₃)
      → tablec_get s.sessions (generate_session_id (env.rand n)) ≡ ok none
      → (t : Table Bytes) × (bytes : Bytes) × (pool' : Pool V) × (httpserver_send_response
            (json 200 (generate_session_id (env.rand n)) (codes "16") 16)
          ≡ ok bytes)
        × (listen_messages
              (request_callback env)
              send
              (disconnect_callback env)
              pool
              i
              payload
              (wire m ∷ [])
              s
            ≡ ok (record { sessions = t; world = d₃; sent = s.sent ++ bytes ∷ [] }, pool'))
        × IsSound pool' (remove i open_slots)
        × IsValid t
        × ((key : Bytes)
            → tablec_get t key ≡ (
                if str_eq (generate_session_id (env.rand n)) key
                then ok (some (generate_session_id (env.rand n), normalize_string email))
                else tablec_get s.sessions key))
  unfolding serve handle
  login_received open_slots i payload m email password row rows n d₁ d₂ d₃ sound in_use is path are
        valid up answer seed fresh =
      let (info, calls, found) =
        callback-lookup env s (codes "/api/login") (codes "email", email)
          ((codes "password", password) ∷ []) (ground arith) are (omega arith) in
      let email_found : param info (codes "email") ≡ some email =
        found (codes "email") ∙ (unfold str_eq in refl) in
      let password_found : param info (codes "password") ≡ some password =
        found (codes "password") ∙ (unfold str_eq in refl) in
      let (t, bytes, sendable, stored, is_valid, gets) =
        login_stores env s info email password row rows n d₁ d₂ d₃ valid email_found password_found
          up answer seed fresh in
      let (pool', sound', listens) =
        listen_messages-serve env pool open_slots i payload (m ∷ []) s sound in_use (is, tt) in
      let called : callback env s m.path
          ≡ ok (record { sessions = t; world = d₃; sent = s.sent ++ bytes ∷ [] }) =
        ap (callback env s) path
        ∙ calls
        ∙ ap (λ r. handle env r s info) (login_path-route email password)
        ∙ stored in
      (t, bytes, pool', sendable, listens ∙ (rw called refl), sound', is_valid, gets)
