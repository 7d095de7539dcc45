-- ===== src/Main/System/Threads.antt =====
-- `listen_messages` of server/libs/httpserver.c against the steps of its thread.
use pal_ft.Base.{
  ℕ, ◌+◌, ◌≤◌, ◌≡◌, ◌∙◌, ap, map, length-append, length-map, arith, refl, subst, ==_iff, Option,
  none, some, List, [], ◌∷◌, length, ok, ok-injective, >>=-eq-ok, ◌>>=◌,
}
use pal_ft.HttpParser.{Request}
use pal_ft.HttpServer.Connections.{Pool, httpserver_disconnect_client}
use pal_ft.HttpServer.Connections.Counts.{uses, remove}
use pal_ft.HttpServer.Listen.{bad_request, receive, handle_messages, listen_messages}
use pal_ft.HttpServer.Sockets.{packet_size}
use pal_ft.Libc.{Bytes}
use pal_ft.Main.{Env, Server, send}
use pal_ft.Main.Answers.{serve_answers}
use pal_ft.Main.Callback.{serve}
use pal_ft.Main.Connection.{
  request_callback, disconnect_callback, Message, wire, path_of, AreMessages, listen_messages-serve,
}
use pal_ft.Main.System.Serial.{Reached-IsSound}
use pal_ft.HttpServer.Connections.Slots
use pal_ft.Main.System.{
  Thread, reading, ending, System, Event, asked, refused, silent, parsed, set_thread, Step, Run,
  Reached,
}

-- What `recv` gives for a buffer of the size of `payload`, where it is not the end.
abbrev pub Fit : List Bytes → Type 0
Fit [] = Unit
Fit (m ∷ ms) = (1 ≤ length m) × (length m ≤ packet_size) × Fit ms

set_thread_self :
    (i : ℕ) (thread : Thread) (threads : ℕ → Thread) → set_thread i thread threads i ≡ thread
set_thread_self i thread threads = rw ((==_iff i i).1 refl) refl

module _ {D V : Type 0} (env : Env D) where
  -- `s` with the connection in slot `i` gone.
  abbrev pub ended : System D V → ℕ → Pool V → Server D → (ℕ → Thread) → System D V
  ended s i pool server threads = record {
    listener = (pool, remove i s.listener.1);
    threads = threads;
    server = server;
  }

  closing :
      (s : System D V) (i : ℕ) (pool : Pool V)
      → 1 ≤ uses i s.listener.1
      → httpserver_disconnect_client s.listener.0 i ≡ ok pool
      → Run env s (silent ∷ []) (ended s i pool s.server s.threads)
  unfolding disconnect_callback
  closing s i pool in_use left = Run.next (Step.closed i pool s.server in_use refl left) Run.done

  handle_messages-Run :
      (s : System D V) (i : ℕ) (payload : Bytes) (messages : List Bytes) (server : Server D)
      (pool : Pool V)
      → 1 ≤ uses i s.listener.1
      → s.threads i ≡ reading payload
      → Fit messages
      → handle_messages (request_callback env) send payload messages s.server ≡ ok server
      → httpserver_disconnect_client s.listener.0 i ≡ ok pool
      → (events : List Event) × (threads : ℕ → Thread) × Run env s events
          (ended s i pool server threads)
  unfolding handle_messages
  handle_messages-Run s i payload [] server pool in_use at fit e left = (
    silent ∷ [],
    s.threads,
    subst (λ u. Run env s (silent ∷ []) (ended s i pool u s.threads)) (ok-injective e)
        (closing s i pool in_use left),
  )
  handle_messages-Run s i payload (message ∷ messages) server pool in_use at (some_bytes, fits, fit)
        e left =
      let (found, parse, then) = >>=-eq-ok (parsed payload message) _ e in
      round found parse then λ u rest.
        handle_messages-Run
          (record s {
            threads = set_thread i (reading (receive payload message)) s.threads;
            server = u;
          })
          i (receive payload message) messages server pool in_use
          (set_thread_self i (reading (receive payload message)) s.threads) fit rest left
    where
      round :
          (found : Option Request)
          → parsed payload message ≡ ok found
          → (elim found [
            | none ↦ send s.server bad_request
            | some r ↦ request_callback env s.server r >>= λ u.
                handle_messages (request_callback env) send (receive payload message) messages u
          ])
            ≡ ok server
          → ((u : Server D)
              → handle_messages (request_callback env) send (receive payload message) messages u
                ≡ ok server
              → (events : List Event) × (threads : ℕ → Thread) × Run env
                  (record s {
                    threads = set_thread i (reading (receive payload message)) s.threads;
                    server = u;
                  })
                  events
                  (ended s i pool server threads))
          → (events : List Event) × (threads : ℕ → Thread) × Run env s events
              (ended s i pool server threads)
      round none parse sent again = (
        refused ∷ silent ∷ [],
        set_thread i ending s.threads,
        Run.next (Step.rejected i payload message server in_use at some_bytes fits parse sent) (
            closing (record s { threads = set_thread i ending s.threads; server = server }) i pool
              in_use left),
      )
      round (some r) parse then again =
          let (u, called, rest) = >>=-eq-ok (request_callback env s.server r) _ then in
          let (events, threads, run) = again u rest in
          (
            asked r ∷ events,
            threads,
            Run.next (Step.answered i payload message r u in_use at some_bytes fits parse called)
                run,
          )

  -- From any system with an open slot whose thread reads, what `listen_messages` returns is where a
  -- run of steps leads.
  listen_messages-Run :
      (s : System D V) (i : ℕ) (payload : Bytes) (messages : List Bytes) (server : Server D)
      (pool : Pool V)
      → 1 ≤ uses i s.listener.1
      → s.threads i ≡ reading payload
      → Fit messages
      → listen_messages
          (request_callback env)
          send
          (disconnect_callback env)
          s.listener.0
          i
          payload
          messages
          s.server
        ≡ ok (server, pool)
      → (events : List Event) × (threads : ℕ → Thread) × Run env s events
          (ended s i pool server threads)
  unfolding listen_messages disconnect_callback
  listen_messages-Run s i payload messages server pool in_use at fit e =
      let (u, handled, rest) =
        >>=-eq-ok (handle_messages (request_callback env) send payload messages s.server) _ e in
      let (q, left, result) = >>=-eq-ok (httpserver_disconnect_client s.listener.0 i) _ rest in
      let both : (u, q) ≡ (server, pool) = ok-injective result in
      subst
        (λ x.
          (events : List Event) × (threads : ℕ → Thread) × Run env s events
            (ended s i x.1 x.0 threads))
        both (handle_messages-Run s i payload messages u q in_use at fit handled left)

  -- In every system that the program gets to, by any interleaving of its connections, if the
  -- thread of an open slot reads, its client sends requests of 1 to 65536 bytes that are as in the
  -- theorem on `listen_messages`, and the callback returns on their paths, one after another, from
  -- the globals as they are, then there is a run of steps to a system with the globals that the
  -- callback leaves: its pool is sound, with the slot no longer taken, and as many responses more
  -- were sent as there are requests.
  pub Reached-serves :
      (d : D) (happened : List Event) (t : System D V) (i : ℕ) (payload : Bytes) (ms : List Message)
      (server : Server D)
      → Reached env d happened t
      → 1 ≤ uses i t.listener.1
      → t.threads i ≡ reading payload
      → AreMessages ms
      → Fit (map wire ms)
      → serve env t.server (map path_of ms) ≡ ok server
      → (events : List Event) × (threads : ℕ → Thread) × (pool : Pool V) × Run env t events
          (ended t i pool server threads)
        × Slots.IsSound pool (remove i t.listener.1)
        × (length server.sent ≡ length t.server.sent + length ms)
  Reached-serves d happened t i payload ms server r in_use at are fit served =
      let (pool, sound, answered) =
        listen_messages-serve env t.listener.0 t.listener.1 i payload ms t.server
          (Reached-IsSound env d happened t r).0 in_use are in
      let listened = answered ∙ ap (λ o. o >>= λ s'. ok (s', pool)) served in
      let (events, threads, run) =
        listen_messages-Run t i payload (map wire ms) server pool in_use at fit listened in
      let (answers, more, count) = serve_answers env t.server server (map path_of ms) served in
      (
        events,
        threads,
        pool,
        run,
        sound,
        omega (
          arith,
          ap length more,
          length-append t.server.sent answers,
          count,
          length-map ms path_of,
        ),
      )
