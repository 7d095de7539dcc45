-- ===== src/Main/Connection.antt =====
-- A connection of server/main.c: `callback` and `disconnect_callback` as server/libs/httpserver.c
-- calls them, from the bytes that are received to the answers.
use pal_ft.Base.{
  ℕ, ◌≤◌, ◌<◌, ◌≡◌, refl, sym, ap, ◌∙◌, List, [], ◌∷◌, ◌++◌, map, append_assoc, append-nil, lt→ltb,
  length, drop, true, false, Outcome, ok, ◌>>=◌, >>=-assoc, deref, fun_ext,
}
use pal_ft.HttpParser.{Request, check_method, httpparser_init_request, httpparser_parse_request}
use pal_ft.HttpParser.Methods.{httpparser_parse_request-method}
use pal_ft.HttpParser.RoundTrip.{httpparser_parse_request-text}
use pal_ft.Libc.{pos}
use pal_ft.HttpParser.Text.{announced, request_text, ArePlain}
use pal_ft.HttpServer.{
  Header, rounds, int_length, add_headers, calculate_response_length, headers_text, body_text,
  head_text, has_size, httpserver_send_response,
}
use pal_ft.HttpServer.Status.{status_text, select}
use pal_ft.HttpServer.Connections.{Pool}
use pal_ft.HttpServer.Connections.Counts.{uses, remove}
use pal_ft.HttpServer.Connections.Slots.{IsSound}
use pal_ft.HttpServer.Connections.Slots.Updates.{httpserver_disconnect_client-IsSound}
use pal_ft.HttpServer.Listen.{bad_request, receive, handle_messages, listen_messages}
use pal_ft.Libc.{Bytes, codes, wrap_int, add_int, snprintf, decimal}
use pal_ft.Libtstr.Finds.{Without}
use pal_ft.Main.{Env, Server, send}
use pal_ft.Main.Callback.{callback, serve}
use pal_ft.Main.Sending.{send_lem}

-- A request with no body, and what else was received with it.
pub record Message : Type 0 where
  pub method : Bytes
  pub path : Bytes
  pub headers : List Header
  pub rest : Bytes

abbrev pub wire : Message → Bytes
wire m = request_text m.method m.path m.headers m.rest

pub record IsMessage (m : Message) : Type 0 where
  pub known : check_method m.method ≡ true
  pub short : length m.method < 7
  pub one_word : Without 32 m.path
  pub one_line : Without 13 m.path
  pub plain : ArePlain m.headers
  pub room : length m.headers ≤ 30
  pub no_body : announced (pos 0) m.headers ≡ pos 0

-- A request with no body, and a method that the parser does not know.
pub record IsRejected (m : Message) : Type 0 where
  pub unknown : check_method m.method ≡ false
  pub short : length m.method < 7
  pub some_method : 1 ≤ length m.method
  pub method_word : Without 32 m.method
  pub method_line : Without 13 m.method
  pub one_line : Without 13 m.path
  pub plain : ArePlain m.headers

abbrev pub AreMessages : List Message → Type 0
AreMessages [] = Unit
AreMessages (m ∷ ms) = IsMessage m × AreMessages ms

-- The bytes that answer a request that is not valid.
abbrev pub answer_400 : Bytes
answer_400 = codes "HTTP/1.1 400 Bad request\r\nContent-Length: 0\r\n\r\n"

bad_request_lem : httpserver_send_response bad_request ≡ ok answer_400
unfolding httpserver_send_response bad_request calculate_response_length add_headers add_int
    int_length wrap_int rounds has_size body_text head_text headers_text status_text select snprintf
    decimal
bad_request_lem = refl

-- The buffer after the messages.
abbrev left_over : Bytes → List Message → Bytes
left_over payload [] = payload
left_over payload (m ∷ ms) = left_over (receive payload (wire m)) ms

abbrev pub path_of : Message → Bytes
path_of m = m.path

module _ {D : Type 0} (env : Env D) where
  -- `callback` reads nothing of a request but its path.
  unfoldable pub request_callback : Server D → Request → Outcome (Server D)
  request_callback s request = do path ← deref request.path; callback env s path

  -- `disconnect_callback` only logs.
  unfoldable pub disconnect_callback : Server D → Outcome (Server D)
  disconnect_callback s = ok s

  abbrev pub answer_all : Bytes → List Bytes → Server D → Outcome (Server D)
  answer_all = handle_messages request_callback send

  -- What is behind a message in the buffer does not matter.
  receive-wire :
      (m : Message) (payload : Bytes)
      → receive payload (wire m)
        ≡ request_text m.method m.path m.headers (m.rest ++ drop (length (wire m)) payload)
  unfolding receive
  receive-wire m payload = simp append_assoc

  answer_all-Message :
      (m : Message) (payload : Bytes) (messages : List Bytes) (s : Server D)
      → IsMessage m
      → answer_all payload (wire m ∷ messages) s
        ≡ (callback env s m.path >>= answer_all (receive payload (wire m)) messages)
  unfolding handle_messages request_callback
  answer_all-Message m payload messages s h =
      let e =
        ap (λ b. httpparser_parse_request (httpparser_init_request 30) b (length (wire m)))
          (receive-wire m payload)
        ∙ httpparser_parse_request-text m.method m.path m.headers
            (m.rest ++ drop (length (wire m)) payload) 30 (length (wire m)) h.known h.short
            h.one_word h.one_line h.plain h.room h.no_body in
      rw e refl

  answer_all_rejected :
      (m : Message) (payload : Bytes) (messages : List Bytes) (s : Server D)
      → IsRejected m
      → answer_all payload (wire m ∷ messages) s ≡ send s bad_request
  unfolding handle_messages
  answer_all_rejected m payload messages s h =
      let rest = m.rest ++ drop (length (wire m)) payload in
      let e =
        ap (λ b. httpparser_parse_request (httpparser_init_request 30) b (length (wire m)))
          (receive-wire m payload)
        ∙ httpparser_parse_request-method m.method m.path m.headers rest 30 (length (wire m))
            h.method_word h.method_line h.some_method h.one_line h.plain (rw h.unknown refl) in
      rw (e, lt→ltb (length m.method) 7 h.short) refl

  answer_all-serve :
      (payload : Bytes) (ms : List Message) (more : List Bytes) (s : Server D)
      → AreMessages ms
      → answer_all payload (map wire ms ++ more) s
        ≡ (serve env s (map path_of ms) >>= answer_all (left_over payload ms) more)
  unfolding serve
  answer_all-serve payload [] more s h = refl
  answer_all-serve payload (m ∷ ms) more s (is, are) =
      answer_all-Message m payload (map wire ms ++ more) s is
      ∙ ap (λ k. callback env s m.path >>= k)
          (fun_ext λ s'. answer_all-serve (receive payload (wire m)) ms more s' are)
      ∙ sym (
          >>=-assoc (callback env s m.path) (λ s'. serve env s' (map path_of ms))
            (answer_all (left_over payload (m ∷ ms)) more))

  -- A connection in an open slot of a sound pool, which receives requests with no body, each with
  -- a known method of up to 6 bytes, a path on one line with no space, and at most 30 headers that
  -- fit, is answered as the callback answers their paths in this order, whatever is left in the
  -- buffer; if that returns, so does the thread, and its slot is no longer taken in the pool,
  -- which is sound.
  pub listen_messages-serve :
      {V : Type 0} (pool : Pool V) (open_slots : List ℕ) (i : ℕ) (payload : Bytes)
      (ms : List Message) (s : Server D)
      → IsSound pool open_slots
      → 1 ≤ uses i open_slots
      → AreMessages ms
      → (pool' : Pool V) × IsSound pool' (remove i open_slots)
        × (listen_messages request_callback send disconnect_callback pool i payload (map wire ms) s
            ≡ (serve env s (map path_of ms) >>= λ s'. ok (s', pool')))
  unfolding listen_messages disconnect_callback handle_messages
  listen_messages-serve pool open_slots i payload ms s sound in_use are =
      let (pool', closed, sound') =
        httpserver_disconnect_client-IsSound pool open_slots i sound in_use in
      (
        pool',
        sound',
        rw
            (
              ap (λ l. answer_all payload l s) (sym (append-nil (map wire ms)))
                  ∙ answer_all-serve payload ms [] s are,
              closed,
            )
            (>>=-assoc (serve env s (map path_of ms)) (answer_all (left_over payload ms) [])
              (λ s'. ok (s', pool'))),
      )

  -- If a connection receives requests as in the theorem on `listen_messages`, and then one with no
  -- body and an unknown method of 1 to 6 bytes, the first ones are answered as the callback
  -- answers their paths, then just the bytes of a response 400 Bad request with a Content-Length
  -- of 0 are sent, and nothing that is received later is handled.
  pub handle_messages_rejected :
      (payload : Bytes) (ms : List Message) (bad : Message) (more : List Bytes) (s : Server D)
      → AreMessages ms
      → IsRejected bad
      → handle_messages request_callback send payload (map wire ms ++ (wire bad ∷ more)) s ≡ (
          serve env s (map path_of ms) >>= λ s'.
          ok (record s' { sent = s'.sent ++ answer_400 ∷ [] }))
  unfolding handle_messages
  handle_messages_rejected payload ms bad more s are rejected =
      answer_all-serve payload ms (wire bad ∷ more) s are
      ∙ ap (λ k. serve env s (map path_of ms) >>= k)
          (fun_ext λ s'.
            answer_all_rejected bad (left_over payload ms) more s' rejected
            ∙ send_lem s' bad_request answer_400 bad_request_lem)
