-- ===== src/Tests/Received.antt =====
-- Parameters of concrete paths, and a login from its bytes to its session.
use mathlib.Core.Option
use pal_ft.Base.{ℕ, ◌≡◌, refl, some, [], ◌∷◌, ◌++◌, arith, replicate, if◌then◌else◌, ok}
use pal_ft.HttpServer.{httpserver_send_response}
use pal_ft.HttpServer.Connections.{Pool}
use pal_ft.HttpServer.Connections.Slots.{IsSound}
use pal_ft.HttpServer.Listen.{listen_messages}
use pal_ft.Libc.{Bytes, codes, str_eq}
use pal_ft.Main.{json, normalize_string, send}
use pal_ft.Main.Connection.{Message, wire, IsMessage, request_callback, disconnect_callback}
use pal_ft.Main.Received.{login_params, login_path, login_received}
use pal_ft.Main.Sql
use pal_ft.QueryParser.{Info, qparser_init, qparser_parse, qparser_get_query, value_of}
use pal_ft.QueryParser.RoundTrip.{qparser_parse-lookup}
use pal_ft.QueryParser.Spelled.{ArePairs, lookup}
use pal_ft.Tablec.{Table, tablec_get}
use pal_ft.Tablec.Lookup.{IsValid, tablec_init-IsValid}
use pal_ft.Tests.Connections.{two, two-IsSound}
use pal_ft.Tests.Requests.{host, host-IsPlain, host_bodiless, get_known}
use pal_ft.Tests.Runs.{id}
use pal_ft.Tests.Sessions.{login_row, empty_fresh}
use pal_ft.Tests.World.{row, env, empty}

login_params-ArePairs : ArePairs (login_params (codes "a@b.c") (codes "xy"))
login_params-ArePairs = (
  record {
    key_text = ground arith;
    key_some = omega arith;
    key_fits = omega arith;
    value_text = ground arith;
    value_some = omega arith;
    value_fits = omega arith;
  },
  (
    record {
      key_text = ground arith;
      key_some = omega arith;
      key_fits = omega arith;
      value_text = ground arith;
      value_some = omega arith;
      value_fits = omega arith;
    },
    tt,
  ),
)

qparser_parse-lookup_example :
    (info : Info) × (qparser_parse (qparser_init 10) (codes "/api/login?email=a@b.c&password=xy")
      ≡ ok info)
    × ((key : Bytes)
        → Option.map value_of (qparser_get_query info key)
          ≡ lookup key (login_params (codes "a@b.c") (codes "xy")))
qparser_parse-lookup_example =
    qparser_parse-lookup 10 (codes "/api/login") (codes "email", codes "a@b.c")
      ((codes "password", codes "xy") ∷ []) (ground arith) login_params-ArePairs (omega arith)

abbrev message : Message
message = record {
  method = codes "GET";
  path = login_path (codes "a@b.c") (codes "xy");
  headers = host ∷ [];
  rest = [];
}

message-IsMessage : IsMessage message
message-IsMessage = record {
  known = get_known;
  short = omega arith;
  one_word = ground arith;
  one_line = ground arith;
  plain = (host-IsPlain, tt);
  room = omega arith;
  no_body = host_bodiless;
}

login_received_example :
    (t : Table Bytes) × (bytes : Bytes) × (pool : Pool ℕ) × (httpserver_send_response
        (json 200 id (codes "16") 16)
      ≡ ok bytes)
    × (listen_messages
          (request_callback env)
          send
          (disconnect_callback env)
          two
          0
          (replicate 64 0)
          (wire message ∷ [])
          empty
        ≡ ok (
          record {
            sessions = t;
            world = Sql.login_sql (codes "a@b.c") (codes "xy") ∷ [];
            sent = [] ++ bytes ∷ [];
          },
          pool,
        ))
    × IsSound pool (1 ∷ [])
    × IsValid t
    × ((key : Bytes)
        → tablec_get t key ≡ (
            if str_eq id key
            then ok (some (id, normalize_string (codes "a@b.c")))
            else tablec_get empty.sessions key))
login_received_example =
    login_received env empty two (1 ∷ 0 ∷ []) 0 (replicate 64 0) message (codes "a@b.c")
      (codes "xy") row [] 7 [] (Sql.login_sql (codes "a@b.c") (codes "xy") ∷ [])
      (Sql.login_sql (codes "a@b.c") (codes "xy") ∷ []) two-IsSound (ground arith) message-IsMessage
      refl login_params-ArePairs (tablec_init-IsValid 4 (omega arith)) refl login_row refl
      empty_fresh
