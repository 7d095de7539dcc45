-- ===== src/HttpServer/Sockets.antt =====
-- server/libs/httpserver.c over the sockets of server/libs/csocket-server.c.
use pal_ft.Base.{
  sym, fun_ext, >>=-assoc, exited, ℕ, zero, suc, ◌<◌, ◌≡◌, refl, ◌∙◌, ap, Bool, false, not, ◌&&◌,
  ◌||◌, Option, none, some, List, [], ◌∷◌, ◌==◌, length, arith, if◌then◌else◌, Outcome, ok, fault,
  ◌>>=◌,
}
use pal_ft.Csocket.{
  Os, CsocketServer, CsocketClient, is_negative, minus_1, csocket_server_init,
  csocket_server_accept, csocket_server_recv, csocket_server_close,
}
use pal_ft.HttpParser.{Request, httpparser_init_request, httpparser_parse_request}
use pal_ft.HttpServer.{Response}
use pal_ft.HttpServer.Connections.{Pool, httpserver_start_server, accept_client, stop_server}
use pal_ft.HttpServer.Listen.{bad_request, receive, handle_messages}
use pal_ft.Libc.{Bytes, pos}

abbrev pub packet_size : ℕ
packet_size = 65536

-- PORT
abbrev pub unbound : CsocketServer
unbound = record { socket = pos 0; port = 8888 }

-- What the loop of `listen_messages` does with what was parsed, before it goes on.
unfoldable pub answer_request :
    {S : Type 0}
    → (S → Request → Outcome S)
    → (S → Response → Outcome S)
    → (S → Outcome (Option S))
    → S
    → Option Request
    → Outcome (Option S)
answer_request callback send_response go_on s none = do
  s' ← send_response s bad_request
  ok (some s')
answer_request callback send_response go_on s (some r) = do s' ← callback s r; go_on s'

module _ {W : Type 0} (os : Os W) where
  -- `httpserver_start_server` with the call that it begins with
  unfoldable pub open_server : {V : Type 0} → W → Outcome (CsocketServer × Pool V) × W
  open_server w =
      let (init, server, w') = csocket_server_init os unbound w in
      (do pool ← httpserver_start_server init; ok (server, pool), w')

  -- The test of the loop in `httpserver_handle_request`, and its round; `none` ends the loop.
  unfoldable pub accept_round :
      {V : Type 0}
      → CsocketServer
      → CsocketClient
      → Pool V
      → ℕ
      → W
      → Outcome (Option (ℕ × Pool V)) × CsocketClient × W
  accept_round server client pool thread w =
      let (socket, client', w') = csocket_server_accept os server client w in
      (
        if is_negative socket
            then ok none
            else (do taken ← accept_client pool thread; ok (some taken)),
        client',
        w',
      )

  -- `httpserver_stop_server`: the threads that it cancels, and the listening socket that it closes.
  unfoldable pub httpserver_stop_server :
      {V : Type 0} → CsocketServer → Pool V → W → List (Option ℕ) × W
  httpserver_stop_server server pool w =
      (stop_server pool.sockets, (csocket_server_close os server w).1)

  -- The loop of `listen_messages` for at most `n` messages; `none` is that they do not suffice.
  unfoldable pub recv_messages :
      {S : Type 0}
      → (S → Request → Outcome S)
      → (S → Response → Outcome S)
      → CsocketClient
      → ℕ
      → Bytes
      → S
      → W
      → Outcome (Option S)
  recv_messages callback send_response client zero payload s w = ok none
  recv_messages callback send_response client (suc n) payload s w =
      let (size, message, w') = csocket_server_recv os client packet_size w in
      if is_negative size || length message == 0 then ok (some s) else (do
        request ←
            httpparser_parse_request (httpparser_init_request 30) (receive payload message)
              (length message)
        answer_request callback send_response
            (λ s'. recv_messages callback send_response client n (receive payload message) s' w') s
            request)

-- Whether each of the calls in `csocket_server_init` succeeds.
abbrev pub calls_succeed : {W : Type 0} → Os W → CsocketServer → W → Bool
calls_succeed os server w =
    let (fd, w₁) = os.socket w in
    let (set, w₂) = os.setsockopt fd w₁ in
    let (bound, w₃) = os.bind fd server.port w₂ in
    let (listening, w₄) = os.listen fd w₃ in
    not (is_negative fd)
    && (not (is_negative set) && (not (is_negative bound) && not (is_negative listening)))

-- What a client sends, as the calls of `recv` give it: messages that are not empty, and then the end
-- of the connection or a failure.
pub data Delivers {W : Type 0} (os : Os W) (client : CsocketClient) : W → List Bytes → Type 0 where
  failed : {w w' : W} → os.recv client.socket packet_size w ≡ (none, w') → Delivers os client w []
  ended : {w w' : W} → os.recv client.socket packet_size w ≡ (some [], w') → Delivers os client w []
  message :
      {w w' : W} (c : ℕ) (m : Bytes) (more : List Bytes)
      → os.recv client.socket packet_size w ≡ (some (c ∷ m), w')
      → Delivers os client w' more
      → Delivers os client w ((c ∷ m) ∷ more)

recv_some :
    {W : Type 0} (os : Os W) (client : CsocketClient) {w w' : W} (m : Bytes)
    → os.recv client.socket packet_size w ≡ (some m, w')
    → csocket_server_recv os client packet_size w ≡ (pos (length m), m, w')
unfolding csocket_server_recv
recv_some os client m e = rw (csocket_server_recv, e) (ap (λ r. (pos (length m), m, r.1)) e)

recv_none :
    {W : Type 0} (os : Os W) (client : CsocketClient) {w w' : W}
    → os.recv client.socket packet_size w ≡ (none, w')
    → csocket_server_recv os client packet_size w ≡ (minus_1, [], w')
unfolding csocket_server_recv
recv_none os client e = rw (csocket_server_recv, e) (ap (λ r. (minus_1, [], r.1)) e)

suc_not_zero : (n : ℕ) → suc n == 0 ≡ false
suc_not_zero n = ground arith

module _ {S : Type 0} (callback : S → Request → Outcome S)
    (send_response : S → Response → Outcome S) where
  -- If what follows is known, so is what is done with any request.
  answer_request_then :
      (go_on : S → Outcome (Option S)) (rest : S → Outcome S) (s : S)
      (parsed : Outcome (Option Request))
      → ((s' : S) → go_on s' ≡ (rest s' >>= λ t. ok (some t)))
      → (parsed >>= answer_request callback send_response go_on s) ≡ (
          (parsed >>= λ request. elim request [
            | none ↦ send_response s bad_request
            | some r ↦ callback s r >>= rest
          ])
          >>= λ t. ok (some t))
  unfolding answer_request
  answer_request_then go_on rest s fault e = refl
  answer_request_then go_on rest s (exited status) e = refl
  answer_request_then go_on rest s (ok none) e = refl
  answer_request_then go_on rest s (ok (some r)) e =
      ap (λ f. callback s r >>= f) (fun_ext e)
      ∙ sym (>>=-assoc (callback s r) rest (λ t. ok (some t)))

module _ {W S : Type 0} (os : Os W) (callback : S → Request → Outcome S)
    (send_response : S → Response → Outcome S) (client : CsocketClient) where
  -- If the calls of `recv` on a client give messages that are not empty, and then the end of the
  -- connection or a failure, then the loop that calls `csocket_server_recv`, given one more round
  -- than there are messages, does what it does on the list of these messages, whatever the
  -- callbacks are.
  pub recv_messages-handle_messages :
      {w : W} {messages : List Bytes} (n : ℕ) (payload : Bytes) (s : S)
      → Delivers os client w messages
      → length messages < n
      → recv_messages os callback send_response client n payload s w
        ≡ (handle_messages callback send_response payload messages s >>= λ s'. ok (some s'))
  unfolding recv_messages handle_messages
  recv_messages-handle_messages zero payload s d enough = absurd (omega arith)
  recv_messages-handle_messages (suc n) payload s (failed e) enough =
      rw (recv_none os client e) refl
  recv_messages-handle_messages (suc n) payload s (ended e) enough =
      rw (recv_some os client [] e) refl
  recv_messages-handle_messages {w = w} (suc n) payload s (message {w' = w'} c m more e d) enough =
      rw (recv_some os client (c ∷ m) e, suc_not_zero (length m))
        (answer_request_then callback send_response
          (λ s'. recv_messages os callback send_response client n (receive payload (c ∷ m)) s' w')
          (handle_messages callback send_response (receive payload (c ∷ m)) more) s
          (httpparser_parse_request (httpparser_init_request 30) (receive payload (c ∷ m))
            (suc (length m)))
          (λ s'.
            recv_messages-handle_messages {w = w'} n (receive payload (c ∷ m)) s' d (omega arith)))
