-- ===== src/Main.antt =====
-- server/main.c: what the handlers share. libpq, the random source and everything behind them are
-- the parameter `Env`; the socket is the list of the byte strings that were sent. Log messages are
-- left out, and so are the calls that release memory or a connection.
pub mod Products
pub mod Accounts
pub mod Cart
pub mod Callback
pub mod Connection
pub mod Received
pub mod Startup
pub mod Seeds
pub mod Sql
pub mod Frame
pub mod Quotes
pub mod Injection
pub mod Statements
pub mod Cuts
pub mod Outside
pub mod Answers
pub mod Logins
pub mod Sessions
pub mod ProductList
pub mod Sending
pub mod Catalogue
pub mod Routes
pub mod Access
pub mod Changes
pub mod Requests
pub mod System
use mathlib.Core.Option
use pal_ft.Base.{
  ℕ, zero, suc, ◌+◌, ◌≡◌, Bool, true, false, Option, none, some, List, [], ◌∷◌, ◌++◌, map, ◌==◌,
  if◌then◌else◌, Outcome, ok, fault, ◌>>=◌, deref, get_elem?,
}
use pal_ft.HttpServer.{Header, Response, httpserver_send_response}
use pal_ft.Libc.{Bytes, codes, pos, snprintf, decimal}
use pal_ft.QueryParser.{Info, value_of, qparser_get_query}
use pal_ft.Tablec.{Table}

-- One row of a result, as its columns.
abbrev pub Row : Type 0
Row = List Bytes

-- The answer of `PQexec`: PGRES_TUPLES_OK, PGRES_COMMAND_OK, or any other status.
pub data Reply : Type 0 where
  tuples : List Row → Reply
  command : Reply
  failed : Reply

-- What is outside the program, over the state `D` of the database and the kernel.
pub record Env (D : Type 0) : Type 0 where
  -- `PQconnectdb`, and whether `PQstatus` is CONNECTION_OK
  pub connect : D → Bool × D
  -- `PQexec`
  pub exec : Bytes → D → Reply × D
  -- `getrandom`; `none` is -1
  pub getrandom : D → Option ℕ × D
  -- the `i`-th `rand()` after `srand(seed)`
  pub rand : ℕ → ℕ → ℕ

-- The globals, with the outside world and what was sent, oldest first.
pub record Server (D : Type 0) : Type 0 where
  pub sessions : Table Bytes
  pub world : D
  pub sent : List Bytes

abbrev pub cors : Header
cors = (codes "Access-Control-Allow-Origin", codes "*")

-- A response with no body, and the one header that most branches give.
unfoldable pub plain : ℕ → Response
plain status = record {
  status = status;
  headers = cors ∷ [];
  headers_length = pos 1;
  body = none;
  body_length = pos 0;
}

-- A response with a body of a given length, whose text is `content_length`.
unfoldable pub json : ℕ → Bytes → Bytes → ℕ → Response
json status body content_length body_length = record {
  status = status;
  headers =
      (codes "Content-Type", codes "application/json")
      ∷ (codes "Content-Length", content_length)
      ∷ cors
      ∷ [];
  headers_length = pos 3;
  body = some body;
  body_length = pos body_length;
}

unfoldable pub replace : ℕ → ℕ → ℕ → ℕ
replace from to c = if c == from then to else c

-- The loops change a value of the query in place, and no string is read again through the query
-- afterwards.
unfoldable pub normalize_string : Bytes → Bytes
unfolding replace
normalize_string = map (replace b'\'' b'"')

unfoldable pub normalize_query_value : Bytes → Bytes
unfolding replace
normalize_query_value = map (replace b'+' b' ')

-- `qparser_get_query(&parse_info, key)->value`, where the query is there.
unfoldable pub param : Info → Bytes → Option Bytes
param info key = Option.map value_of (qparser_get_query info key)

-- `qparser_get_query(&parse_info, key) != NULL`
unfoldable pub given : Info → Bytes → Bool
given info key = elim (qparser_get_query info key) [ none ↦ false | some _ ↦ true ]

-- `PQgetvalue(res, i, column)` of row `i`; a column that is not there gives NULL, which every caller
-- reads through.
unfoldable pub column : Row → ℕ → Outcome Bytes
column row j = deref (get_elem? row j)

module _ {D : Type 0} where
  unfoldable pub send : Server D → Response → Outcome (Server D)
  send s r = do bytes ← httpserver_send_response r; ok (record s { sent = s.sent ++ bytes ∷ [] })

  -- `PQconnectdb`, and the answer 500 where it fails.
  unfoldable pub with_connection :
      Env D → Server D → (Server D → Outcome (Server D)) → Outcome (Server D)
  with_connection env s k =
      let (up, world) = env.connect s.world in
      let s' : Server D = record s { world = world } in if up then k s' else send s' (plain 500)

  -- `PQexec` of a statement that gives rows, and the answer 400 where it does not.
  unfoldable pub with_tuples :
      Env D → Server D → Bytes → (Server D → List Row → Outcome (Server D)) → Outcome (Server D)
  with_tuples env s sql k =
      let (reply, world) = env.exec sql s.world in
      let s' : Server D = record s { world = world } in
      elim reply [
        | tuples rows ↦ k s' rows
        | command ↦ send s' (plain 400)
        | failed ↦ send s' (plain 400)
      ]

  -- `PQexec` of a statement that gives none, and the answer 400 where it is not PGRES_COMMAND_OK.
  unfoldable pub with_command :
      Env D → Server D → Bytes → (Server D → Outcome (Server D)) → Outcome (Server D)
  with_command env s sql k =
      let (reply, world) = env.exec sql s.world in
      let s' : Server D = record s { world = world } in
      elim reply [
        | tuples rows ↦ send s' (plain 400)
        | command ↦ k s'
        | failed ↦ send s' (plain 400)
      ]
