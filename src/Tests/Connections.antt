-- ===== src/Tests/Connections.antt =====
-- The slots of server/libs/httpserver.c on concrete runs, and a connection from its bytes to its slot.
use pal_ft.Base.{
  ℕ, ◌≤◌, ◌<◌, ◌≡◌, refl, some, [], ◌∷◌, ◌++◌, arith, replicate, Outcome, ok, fault, exited, ◌>>=◌,
}
use pal_ft.HttpServer.Connections
use pal_ft.HttpServer.Connections.{Pool}
use pal_ft.HttpServer.Connections.Counts.{uses}
use pal_ft.HttpServer.Connections.Reach.{
  Step, accepted, Reach, started, next, Reach-IsSound, Reach-progress,
}
use pal_ft.HttpServer.Connections.Slots.{IsSound}
use pal_ft.HttpServer.Listen.{handle_messages, listen_messages}
use pal_ft.Libc.{codes, pos}
use pal_ft.Main.{send}
use pal_ft.Main.Callback.{serve}
use pal_ft.Main.Connection.{
  Message, wire, IsMessage, IsRejected, request_callback, disconnect_callback,
  listen_messages-serve, handle_messages_rejected,
}
use pal_ft.Tests.Requests.{host, host-IsPlain, host_bodiless, get_known, parser}
use pal_ft.Tests.World.{env, empty}

unfoldable pub slots : Unit {0}
unfolding Connections.empty_client Connections.httpserver_start_server Connections.first_zero
    Connections.first_nonzero Connections.new_entries Connections.grow_pool Connections.write_entry
    Connections.select_position Connections.add_available_socket Connections.update_client
    Connections.httpserver_disconnect_client Connections.accept_client Connections.stop_server
    Connections.httpserver_set_socket_data Connections.httpserver_get_socket_data
    Connections.httpserver_upgrade_socket
slots = tt

abbrev outcome_or {ℓ} : {A : Type ℓ} → A → Outcome A → A
outcome_or a (ok b) = b
outcome_or a fault = a
outcome_or a (exited n) = a

abbrev bare : Pool ℕ
bare = record { sockets = []; available_sockets = []; sockets_capacity = 0; sockets_length = pos 0 }

abbrev pub fresh : Pool ℕ
fresh = outcome_or bare (Connections.httpserver_start_server (pos 0))

abbrev pub one : Pool ℕ
one = (outcome_or (0, bare) (Connections.accept_client fresh 40)).1

abbrev pub two : Pool ℕ
two = (outcome_or (0, bare) (Connections.accept_client one 41)).1

fresh_reached : Reach (fresh, [])
unfolding slots
fresh_reached = started (pos 0) fresh refl

one_step : Step (fresh, []) (one, 0 ∷ [])
unfolding slots
one_step = accepted 40 0 refl refl

two_step : Step (one, 0 ∷ []) (two, 1 ∷ 0 ∷ [])
unfolding slots
two_step = accepted 41 1 refl refl

two_reached : Reach (two, 1 ∷ 0 ∷ [])
two_reached = next (next fresh_reached one_step) two_step

pub two-IsSound : IsSound two (1 ∷ 0 ∷ [])
two-IsSound = Reach-IsSound (two, 1 ∷ 0 ∷ []) two_reached

Reach-progress_example :
    ((i : ℕ) × (p : Pool ℕ) × (Connections.accept_client two 42 ≡ ok (i, p))
      × (uses i (1 ∷ 0 ∷ []) ≡ 0)
      × (i < p.sockets_capacity))
    × ((i : ℕ)
        → 1 ≤ uses i (1 ∷ 0 ∷ [])
        → (p : Pool ℕ) × (Connections.httpserver_disconnect_client two i ≡ ok p))
Reach-progress_example = Reach-progress (two, 1 ∷ 0 ∷ []) 42 two_reached

-- The third connection gets the slot of the first, which has closed.
reused :
    (Connections.httpserver_disconnect_client two 0 >>= λ p.
    Connections.accept_client p 42 >>= λ x. ok (x.0 ∷ x.1.available_sockets))
    ≡ ok (0 ∷ 0 ∷ 0 ∷ [])
unfolding slots
reused = refl

-- Only the threads of connections that are open are cancelled.
stopped :
    (Connections.httpserver_disconnect_client two 0 >>= λ p. ok (Connections.stop_server p.sockets))
    ≡ ok (some 41 ∷ [])
unfolding slots
stopped = refl

user_data :
    (Connections.httpserver_set_socket_data two 1 7 >>= λ p.
    Connections.httpserver_get_socket_data p 1)
    ≡ ok (some 7)
unfolding slots
user_data = refl

abbrev pub asks : Message
asks = record { method = codes "GET"; path = codes "/"; headers = host ∷ []; rest = [] }

abbrev pub unknown : Message
unknown = record { method = codes "FETCH"; path = codes "/"; headers = []; rest = [] }

pub asks-IsMessage : IsMessage asks
asks-IsMessage = record {
  known = get_known;
  short = omega arith;
  one_word = ground arith;
  one_line = ground arith;
  plain = (host-IsPlain, tt);
  room = omega arith;
  no_body = host_bodiless;
}

unknown-IsRejected : IsRejected unknown
unfolding parser
unknown-IsRejected = record {
  unknown = refl;
  short = omega arith;
  some_method = omega arith;
  method_word = ground arith;
  method_line = ground arith;
  one_line = ground arith;
  plain = tt;
}

listen_messages-serve_example :
    (pool : Pool ℕ) × IsSound pool (1 ∷ [])
    × (listen_messages
          (request_callback env)
          send
          (disconnect_callback env)
          two
          0
          (replicate 64 0)
          (wire asks ∷ wire asks ∷ [])
          empty
        ≡ (serve env empty (codes "/" ∷ codes "/" ∷ []) >>= λ s. ok (s, pool)))
listen_messages-serve_example =
    listen_messages-serve env two (1 ∷ 0 ∷ []) 0 (replicate 64 0) (asks ∷ asks ∷ []) empty
      two-IsSound (ground arith) (asks-IsMessage, (asks-IsMessage, tt))

handle_messages_rejected_example :
    handle_messages
      (request_callback env)
      send
      (replicate 64 0)
      (wire asks ∷ wire unknown ∷ wire asks ∷ [])
      empty
    ≡ (serve env empty (codes "/" ∷ []) >>= λ s. ok (record s {
      sent = s.sent ++ codes "HTTP/1.1 400 Bad request\r\nContent-Length: 0\r\n\r\n" ∷ [];
    }))
handle_messages_rejected_example =
    handle_messages_rejected env (replicate 64 0) (asks ∷ []) unknown (wire asks ∷ []) empty
      (asks-IsMessage, tt) unknown-IsRejected
