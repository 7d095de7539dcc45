-- ===== src/Tests/System.antt =====
-- A run of the program with its threads: two connections are accepted, the second one logs in and
-- the first one sends a request with an unknown method.
use pal_ft.Base.{ℕ, ◌+◌, ◌≡◌, refl, some, none, List, [], ◌∷◌, ◌++◌, arith, length, ok}
use pal_ft.HttpParser.{Request}
use pal_ft.HttpServer.Connections.{Pool, stop_server}
use pal_ft.HttpServer.Connections.Counts.{uses}
use pal_ft.HttpServer.Connections.Slots
use pal_ft.HttpServer.Listen.{bad_request, receive, handle_messages, listen_messages}
use pal_ft.Libc.{Bytes, codes, pos}
use pal_ft.Main.{Server, send}
use pal_ft.Main.Callback.{serve}
use pal_ft.Main.Connection.{request_callback, disconnect_callback}
use pal_ft.Main.Outside.{Calls}
use pal_ft.Main.Sessions
use pal_ft.Main.Startup.{start}
use pal_ft.Main.System.{
  Thread, reading, ending, System, Event, silent, asked, refused, Run, Step, Reached, set_thread,
  parsed,
}
use pal_ft.Main.System.Drains.{ends, drained, Reached-drains}
use pal_ft.Main.System.Effects.{Reached-Calls}
use pal_ft.Main.System.Origins.{Origin, Reached-Origin}
use pal_ft.Main.System.Serial.{Reached-IsSound}
use pal_ft.Main.System.Threads.{ended, Reached-serves}
use pal_ft.Tablec.{tablec_get}
use pal_ft.Tests.Connections.{slots, fresh, one, two, asks, asks-IsMessage}
use pal_ft.Tests.Requests.{parser}
use pal_ft.Tests.Runs.{result, login_path, id}
use pal_ft.Tests.World.{Log, env, empty, program}

unfoldable all : Unit {0}
unfolding slots parser program receive bad_request request_callback disconnect_callback
    handle_messages listen_messages
all = tt

abbrev asks_login : Bytes
asks_login = codes "GET " ++ login_path ++ codes " HTTP/1.1\r\nHost: x.y\r\n\r\n"

abbrev asks_nothing : Bytes
asks_nothing = codes "FETCH / HTTP/1.1\r\n\r\n"

abbrev login_request : Request
login_request = record {
  method = codes "GET";
  path = some login_path;
  version = codes "1.1";
  headers = (codes "host", codes "x.y") ∷ [];
  headers_max_length = 30;
  body = none;
  chunk_length = none;
  finished = none;
}

abbrev at_start : Server Log
at_start = result (start env []) empty

abbrev at_login : Server Log
at_login = result (request_callback env at_start login_request) empty

abbrev at_refusal : Server Log
at_refusal = result (send at_login bad_request) empty

abbrev buffer : Bytes
buffer = 0 ∷ 0 ∷ []

idle : ℕ → Thread
idle i = ending

abbrev first : System Log ℕ
first = record { listener = (fresh, []); threads = idle; server = at_start }

abbrev second : System Log ℕ
second = record {
  listener = (one, 0 ∷ []);
  threads = set_thread 0 (reading buffer) idle;
  server = at_start;
}

abbrev third : System Log ℕ
third = record {
  listener = (two, 1 ∷ 0 ∷ []);
  threads = set_thread 1 (reading buffer) second.threads;
  server = at_start;
}

abbrev fourth : System Log ℕ
fourth = record third {
  threads = set_thread 1 (reading (receive buffer asks_login)) third.threads;
  server = at_login;
}

abbrev fifth : System Log ℕ
fifth = record fourth { threads = set_thread 0 ending fourth.threads; server = at_refusal }

abbrev happened : List Event
happened = silent ∷ silent ∷ asked login_request ∷ refused ∷ []

login_parsed : parsed buffer asks_login ≡ ok (some login_request)
unfolding all
login_parsed = refl

nothing_parsed : parsed buffer asks_nothing ≡ ok none
unfolding all
nothing_parsed = refl

login_called : request_callback env at_start login_request ≡ ok at_login
unfolding all
login_called = refl

refusal_sent : send at_login bad_request ≡ ok at_refusal
unfolding all
refusal_sent = refl

first_step : Step env first silent second
unfolding all
first_step = Step.accepted 40 0 buffer one refl

second_step : Step env second silent third
unfolding all
second_step = Step.accepted 41 1 buffer two refl

runs : Run env first happened fifth
runs = Run.next first_step (
    Run.next second_step (
      Run.next
        (Step.answered 1 buffer asks_login login_request at_login (omega arith) refl (omega arith)
          (omega arith) login_parsed login_called)
        (Run.next
          (Step.rejected 0 buffer asks_nothing at_refusal (omega arith) refl (omega arith)
            (omega arith) nothing_parsed refusal_sent)
          Run.done)))

start_runs : start env [] ≡ ok at_start
unfolding all
start_runs = refl

reached : Reached env [] happened fifth
unfolding all
reached = record {
  init = pos 0;
  pool = fresh;
  threads = idle;
  server = at_start;
  started = start_runs;
  listening = refl;
  run = runs;
}

Reached-IsSound_example :
    Slots.IsSound two (1 ∷ 0 ∷ [])
    × (length (stop_server two.sockets) ≡ 2)
    × Sessions.IsSound at_refusal.sessions
    × (length at_refusal.sent ≡ 2)
Reached-IsSound_example = Reached-IsSound env [] happened fifth reached

session_found : tablec_get at_refusal.sessions id ≡ ok (some (id, codes "a@b.c"))
unfolding all
session_found = refl

Reached-Origin_example : Origin env reached.server happened id (codes "a@b.c")
Reached-Origin_example =
    Reached-Origin env [] happened fifth id id (codes "a@b.c") reached session_found

reached_third : Reached env [] (silent ∷ silent ∷ []) third
unfolding all
reached_third = record {
  init = pos 0;
  pool = fresh;
  threads = idle;
  server = at_start;
  started = start_runs;
  listening = refl;
  run = Run.next first_step (Run.next second_step Run.done);
}

abbrev served : Server Log
served = result (serve env at_start (codes "/" ∷ codes "/" ∷ [])) empty

serves : serve env at_start (codes "/" ∷ codes "/" ∷ []) ≡ ok served
unfolding all
serves = refl

Reached-serves_example :
    (events : List Event) × (threads : ℕ → Thread) × (pool : Pool ℕ) × Run env third events
      (ended env third 1 pool served threads)
    × Slots.IsSound pool (0 ∷ [])
    × (length served.sent ≡ length at_start.sent + length (asks ∷ asks ∷ []))
Reached-serves_example =
    Reached-serves env [] (silent ∷ silent ∷ []) third 1 buffer (asks ∷ asks ∷ []) served
      reached_third (omega arith) refl (asks-IsMessage, (asks-IsMessage, tt))
      (omega arith, omega arith, (omega arith, omega arith, tt)) serves

Reached-Calls_example : Calls env [] at_refusal.world
Reached-Calls_example = Reached-Calls env [] happened fifth reached

same_slots : (v : ℕ) → uses v (0 ∷ 1 ∷ []) ≡ uses v (1 ∷ 0 ∷ [])
same_slots v = ground arith

Reached-drains_example :
    (pool : Pool ℕ) × Run env fifth (ends (0 ∷ 1 ∷ [])) (drained env fifth pool)
    × Slots.IsSound pool []
Reached-drains_example = Reached-drains env [] happened fifth (0 ∷ 1 ∷ []) reached same_slots
