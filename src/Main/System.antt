-- ===== src/Main/System.antt =====
-- The running program of server/main.c and server/libs/httpserver.c: the loop that accepts
-- connections and a thread for each of them, in any interleaving. A step is what a thread does
-- between two waits: a whole accept, a whole round of the loop in `listen_messages`, or its end.
pub mod Serial
pub mod Threads
pub mod Origins
pub mod Effects
pub mod Drains
use pal_ft.Base.{
  ℕ, ◌≤◌, ◌≡◌, Option, none, some, List, [], ◌∷◌, ◌==◌, if◌then◌else◌, length, Outcome, ok, ◌>>=◌,
}
use pal_ft.HttpParser.{Request, httpparser_init_request, httpparser_parse_request}
use pal_ft.HttpServer.Connections.{
  Pool, httpserver_start_server, accept_client, httpserver_disconnect_client,
}
use pal_ft.HttpServer.Connections.Counts.{uses, remove}
use pal_ft.HttpServer.Connections.Reach.{Listener}
use pal_ft.HttpServer.Listen.{bad_request, receive}
use pal_ft.HttpServer.Sockets.{packet_size}
use pal_ft.Libc.{Bytes, ℤ}
use pal_ft.Main.{Env, Server, send}
use pal_ft.Main.Connection.{request_callback, disconnect_callback}
use pal_ft.Main.Startup.{start}

-- Where `listen_messages` is: in its loop, with what its buffer holds, or after an answer 400.
pub data Thread : Type 0 where
  reading : Bytes → Thread
  ending : Thread

-- The pool with its open slots, the thread of each slot, and the globals of server/main.c.
pub record System (D V : Type 0) : Type 0 where
  pub listener : Listener V
  pub threads : ℕ → Thread
  pub server : Server D

-- What a step does to the server: nothing, the callback for a request, or the answer 400.
pub data Event : Type 0 where
  silent : Event
  asked : Request → Event
  refused : Event

abbrev pub parsed : Bytes → Bytes → Outcome (Option Request)
parsed payload message =
    httpparser_parse_request (httpparser_init_request 30) (receive payload message) (length message)

-- The threads with a new state for that of one slot.
abbrev pub set_thread : ℕ → Thread → (ℕ → Thread) → ℕ → Thread
set_thread i thread threads j = if i == j then thread else threads j

module _ {D V : Type 0} (env : Env D) where
  pub data Step (s : System D V) : Event → System D V → Type 0 where
    -- The buffer of a new thread holds anything.
    accepted :
        (thread i : ℕ) (payload : Bytes) (pool : Pool V)
        → accept_client s.listener.0 thread ≡ ok (i, pool)
        → Step s silent (record s {
          listener = (pool, i ∷ s.listener.1);
          threads = set_thread i (reading payload) s.threads;
        })
    answered :
        (i : ℕ) (payload message : Bytes) (request : Request) (server : Server D)
        → 1 ≤ uses i s.listener.1
        → s.threads i ≡ reading payload
        → 1 ≤ length message
        → length message ≤ packet_size
        → parsed payload message ≡ ok (some request)
        → request_callback env s.server request ≡ ok server
        → Step s (asked request) (record s {
          threads = set_thread i (reading (receive payload message)) s.threads;
          server = server;
        })
    rejected :
        (i : ℕ) (payload message : Bytes) (server : Server D)
        → 1 ≤ uses i s.listener.1
        → s.threads i ≡ reading payload
        → 1 ≤ length message
        → length message ≤ packet_size
        → parsed payload message ≡ ok none
        → send s.server bad_request ≡ ok server
        → Step s refused (record s { threads = set_thread i ending s.threads; server = server })
    -- `recv` returned 0 or less, or the request was refused.
    closed :
        (i : ℕ) (pool : Pool V) (server : Server D)
        → 1 ≤ uses i s.listener.1
        → disconnect_callback env s.server ≡ ok server
        → httpserver_disconnect_client s.listener.0 i ≡ ok pool
        → Step s silent (record s { listener = (pool, remove i s.listener.1); server = server })

  pub data Run : System D V → List Event → System D V → Type 0 where
    done : {s : System D V} → Run s [] s
    next :
        {event : Event} {events : List Event} {s t u : System D V}
        → Step s event t
        → Run t events u
        → Run s (event ∷ events) u

  -- A system that the program gets to from its start, by these events.
  pub record Reached (d : D) (events : List Event) (t : System D V) : Type 0 where
    pub init : ℤ
    pub pool : Pool V
    pub threads : ℕ → Thread
    pub server : Server D
    pub started : start env d ≡ ok server
    pub listening : httpserver_start_server init ≡ ok pool
    pub run : Run (record { listener = (pool, []); threads = threads; server = server }) events t

module _ {D : Type 0} (env : Env D) where
  -- One event after another, with no threads.
  unfoldable pub replay : Server D → List Event → Outcome (Server D)
  replay s [] = ok s
  replay s (silent ∷ events) = replay s events
  replay s (asked request ∷ events) = do s' ← request_callback env s request; replay s' events
  replay s (refused ∷ events) = do s' ← send s bad_request; replay s' events
