-- ===== src/Tests/Sockets.antt =====
-- The sockets of server/libs/csocket-server.c and server/libs/httpserver.c on a toy system: what is
-- outside is what the client has still to send, and the port is taken.
use pal_ft.Base.{◌≡◌, refl, Option, some, List, [], ◌∷◌, arith, replicate, ok, ◌>>=◌}
use pal_ft.Csocket.{
  Os, CsocketClient, minus_1, csocket_server_init, csocket_server_send,
  csocket_server_client_get_id,
}
use pal_ft.HttpServer.Listen.{handle_messages}
use pal_ft.HttpServer.Sockets.{
  unbound, recv_messages, Delivers, message, ended, recv_messages-handle_messages,
}
use pal_ft.Libc.{Bytes, pos, negsuc}
use pal_ft.Main.{send}
use pal_ft.Main.Connection.{wire, request_callback}
use pal_ft.Tests.Connections.{asks, unknown}
use pal_ft.Tests.World.{env, empty}

abbrev next_message : List Bytes → Option Bytes × List Bytes
next_message [] = (some [], [])
next_message (m ∷ ms) = (some m, ms)

abbrev busy : Os (List Bytes)
busy = record {
  socket = λ w. (pos 3, w);
  setsockopt = λ fd w. (pos 0, w);
  bind = λ fd port w. (negsuc 0, w);
  listen = λ fd w. (pos 0, w);
  accept = λ fd w. (pos 4, w);
  send = λ fd bytes w. (pos 1, w);
  recv = λ fd size w. next_message w;
  close = λ fd w. w;
}

abbrev peer : CsocketClient
peer = record { socket = pos 4 }

taken_port : (csocket_server_init busy unbound []).0 ≡ minus_1
unfolding csocket_server_init
taken_port = refl

-- One byte of three is sent.
part_sent : (csocket_server_send busy peer (1 ∷ 2 ∷ 3 ∷ []) []).0 ≡ pos 0
unfolding csocket_server_send
part_sent = refl

client_id : csocket_server_client_get_id peer ≡ 4
unfolding csocket_server_client_get_id
client_id = refl

two_messages : Delivers busy peer (wire asks ∷ wire unknown ∷ []) (wire asks ∷ wire unknown ∷ [])
two_messages = message 71 _ _ refl (message 70 _ _ refl (ended refl))

recv_messages-handle_messages_example :
    recv_messages busy
      (request_callback env)
      send
      peer
      3
      (replicate 64 0)
      empty
      (wire asks ∷ wire unknown ∷ [])
    ≡ (handle_messages
          (request_callback env)
          send
          (replicate 64 0)
          (wire asks ∷ wire unknown ∷ [])
          empty
        >>= λ s. ok (some s))
recv_messages-handle_messages_example =
    recv_messages-handle_messages busy (request_callback env) send peer 3 (replicate 64 0) empty
      two_messages (omega arith)
