-- ===== src/Main/Logins.antt =====
-- Who gets a session from server/main.c.
use pal_ft.Base.{
  ℕ, ◌≡◌, refl, ◌⊎◌, inl, inr, ok, Ensures, >>=-Ensures, Ensures-ok, >>=-eq-ok, ok-Ensures,
}
use pal_ft.HttpServer.{Response, httpserver_send_response}
use pal_ft.Libc.{Bytes}
use pal_ft.Main.{Env, Server, send, normalize_string}
use pal_ft.Main.Callback.{Route, route, handle, callback}
use pal_ft.Main.Frame.{Admitted}
use pal_ft.Main.Frame.Handle.{handle-Ensures}
use pal_ft.QueryParser.{Info, qparser_init, qparser_parse}
use pal_ft.SessionId.{generate_session_id}
use pal_ft.Tablec.{Table, tablec_set}

-- Sending leaves the sessions as they are.
pub send-sessions {κ} :
    {D : Type 0} (P : Table Bytes → Type κ) (s : Server D) (r : Response)
    → P s.sessions
    → Ensures (λ (t : Server D). P t.sessions) (send s r)
unfolding send
send-sessions P s r h = >>=-Ensures _ (httpserver_send_response r) _ λ bytes. ok-Ensures _ _ h

module _ {D : Type 0} (env : Env D) where
  -- The path was one of /api/login, and the session that it added is in `t`.
  pub record LoggedIn (s : Server D) (path : Bytes) (t : Table Bytes) : Type 0 where
    pub info : Info
    pub email : Bytes
    pub seed : ℕ
    pub world : D
    pub parsed : qparser_parse (qparser_init 10) path ≡ ok info
    pub is_login : route path ≡ Route.login
    pub admitted : Admitted env s info email seed world
    pub stored :
        tablec_set s.sessions (generate_session_id (env.rand seed)) (normalize_string email) ≡ ok t

  -- A request whose callback returns leaves the sessions as they are, or it is one on /api/login
  -- whose query gave an email and a password, for which the login statement returned a row: then
  -- the sessions are those of before with one more, under the id drawn, for that email with its
  -- quotes replaced.
  pub callback-LoggedIn :
      (s s' : Server D) (path : Bytes)
      → callback env s path ≡ ok s'
      → (s'.sessions ≡ s.sessions) ⊎ LoggedIn s path s'.sessions
  unfolding callback
  callback-LoggedIn s s' path h =
      let (info, parsed, handled) = >>=-eq-ok (qparser_parse (qparser_init 10) path) _ h in
      Ensures-ok (λ (t : Server D). Q t.sessions) (handle env (route path) s info)
        (handle-Ensures env (λ (t : Server D). Q t.sessions) s
          (λ d r. send-sessions Q (record s { world = d }) r (inl refl)) (route path) info
          (λ is_login email n d t admitted stored r.
            send-sessions Q (record s { world = d; sessions = t }) r
              (inr (record {
                info = info;
                email = email;
                seed = n;
                world = d;
                parsed = parsed;
                is_login = is_login;
                admitted = admitted;
                stored = stored;
              }))))
        handled
    where
      Q : Table Bytes → Type 0
      Q t = (t ≡ s.sessions) ⊎ LoggedIn s path t
