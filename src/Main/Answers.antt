-- ===== src/Main/Answers.antt =====
-- One answer to each request of server/main.c.
use pal_ft.Base.{
  suc, ◌≡◌, refl, sym, ap, ◌∙◌, List, [], ◌∷◌, ◌++◌, append_assoc, append-nil, length, ok, Ensures,
  >>=-Ensures, Ensures-ok, >>=-eq-ok, ok-injective, ok-Ensures,
}
use pal_ft.HttpServer.{Response, httpserver_send_response}
use pal_ft.Libc.{Bytes}
use pal_ft.Main.{Env, Server, send}
use pal_ft.Main.Callback.{route, callback, serve}
use pal_ft.Main.Frame.Handle.{handle-Ensures}
use pal_ft.QueryParser.{qparser_init, qparser_parse}

module _ {D : Type 0} where
  pub send-sent :
      (s : Server D) (r : Response)
      → Ensures (λ s'. (bytes : Bytes) × (s'.sent ≡ s.sent ++ bytes ∷ [])) (send s r)
  unfolding send
  send-sent s r = >>=-Ensures _ (httpserver_send_response r) _ λ bytes. ok-Ensures _ _ (bytes, refl)

module _ {D : Type 0} (env : Env D) where
  -- A callback that returns has sent exactly one response, after those of before.
  pub callback_answer :
      (s s' : Server D) (path : Bytes)
      → callback env s path ≡ ok s'
      → (bytes : Bytes) × (s'.sent ≡ s.sent ++ bytes ∷ [])
  unfolding callback
  callback_answer s s' path h =
      Ensures-ok _ _
        (>>=-Ensures (λ (t : Server D). (bytes : Bytes) × (t.sent ≡ s.sent ++ bytes ∷ []))
          (qparser_parse (qparser_init 10) path) _
          λ info.
            handle-Ensures env _ s (λ d r. send-sent (record s { world = d }) r) (route path) info
              (λ _ email n d t _ e r. send-sent (record s { world = d; sessions = t }) r))
        h

  -- A server that gets through a list of requests has sent one response for each of them, after
  -- those of before, which it has left alone.
  pub serve_answers :
      (s s' : Server D) (paths : List Bytes)
      → serve env s paths ≡ ok s'
      → (answers : List Bytes) × (s'.sent ≡ s.sent ++ answers) × (length answers ≡ length paths)
  unfolding serve
  serve_answers s s' [] h =
      ([], ap (λ (t : Server D). t.sent) (sym (ok-injective h)) ∙ sym (append-nil s.sent), refl)
  serve_answers s s' (path ∷ paths) h =
      let (t, first, rest) = >>=-eq-ok (callback env s path) _ h in
      let (bytes, one) = callback_answer s t path first in
      let (answers, more, count) = serve_answers t s' paths rest in
      (
        bytes ∷ answers,
        more ∙ (ap (λ l. l ++ answers) one ∙ append_assoc s.sent (bytes ∷ []) answers),
        ap suc count,
      )
