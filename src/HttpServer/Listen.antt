-- ===== src/HttpServer/Listen.antt =====
-- server/libs/httpserver.c: the thread of a connection. What `csocket_server_recv` returns, one
-- message after another, is given; each has at most the size of the buffer.
use pal_ft.Base.{ℕ, none, some, List, [], ◌∷◌, ◌++◌, length, drop, Outcome, ok, ◌>>=◌}
use pal_ft.HttpParser.{Request, httpparser_init_request, httpparser_parse_request}
use pal_ft.HttpServer.{Response}
use pal_ft.HttpServer.Connections.{Pool, httpserver_disconnect_client}
use pal_ft.Libc.{Bytes, codes, pos}

unfoldable pub bad_request : Response
bad_request = record {
  status = 400;
  headers = (codes "Content-Length", codes "0") ∷ [];
  headers_length = pos 1;
  body = none;
  body_length = pos 0;
}

-- `recv` writes over the front of the buffer, and leaves what was behind.
unfoldable pub receive : Bytes → Bytes → Bytes
receive payload message = message ++ drop (length message) payload

module _ {S : Type 0} (callback : S → Request → Outcome S)
    (send_response : S → Response → Outcome S) where
  -- The loop, and the answer to a request that is not valid, which ends it.
  unfoldable pub handle_messages : Bytes → List Bytes → S → Outcome S
  handle_messages payload [] s = ok s
  handle_messages payload (message ∷ messages) s = do
    request ←
        httpparser_parse_request (httpparser_init_request 30) (receive payload message)
          (length message)
    elim request [
      | none ↦ send_response s bad_request
      | some r ↦ do s' ← callback s r; handle_messages (receive payload message) messages s'
    ]

  unfoldable pub listen_messages :
      {V : Type 0} → (S → Outcome S) → Pool V → ℕ → Bytes → List Bytes → S → Outcome (S × Pool V)
  listen_messages disconnect_callback server socket_index payload messages s = do
    s₁ ← handle_messages payload messages s
    s₂ ← disconnect_callback s₁
    server' ← httpserver_disconnect_client server socket_index
    ok (s₂, server')
