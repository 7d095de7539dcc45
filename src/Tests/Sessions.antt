-- ===== src/Tests/Sessions.antt =====
-- Logins, and the query parser, at concrete requests.
use pal_ft.Base.{
  ◌≤◌, ◌≡◌, refl, true, ◌⊎◌, none, some, List, [], ◌∷◌, ◌++◌, arith, length, if◌then◌else◌, ok,
}
use pal_ft.HttpServer.{httpserver_send_response}
use pal_ft.Libc.{Bytes, codes, str_eq}
use pal_ft.Main.{tuples, Server, json, param, normalize_string}
use pal_ft.Main.Access.{login_stores}
use pal_ft.Main.Accounts.{login}
use pal_ft.Main.Callback.{serve}
use pal_ft.Main.Logins.{LoggedIn, callback-LoggedIn}
use pal_ft.Main.Sql
use pal_ft.Main.Startup.{main}
use pal_ft.QueryParser.{Info, Query, qparser_init, qparser_parse, qparser_get_query, value_of}
use pal_ft.QueryParser.Room.{qparser_parse_returns}
use pal_ft.QueryParser.Ends.{qparser_get_query-length}
use pal_ft.Tablec.{Table, tablec_get}
use pal_ft.Tablec.Lookup.{IsValid, tablec_init-IsValid, tablec_get-tablec_init}
use pal_ft.SessionId.{generate_session_id}
use pal_ft.SessionId.Alphabet.{every, is_alphanumeric, generate_session_id_lem}
use pal_ft.Tests.Runs.{result, login_path, logged, login_runs, id, info}
use pal_ft.Tests.World.{Log, row, env, empty, program}

callback-LoggedIn_example :
    (logged.sessions ≡ empty.sessions) ⊎ LoggedIn env empty login_path logged.sessions
callback-LoggedIn_example = callback-LoggedIn env empty logged login_path login_runs

pub empty_fresh : tablec_get empty.sessions id ≡ ok none
empty_fresh = tablec_get-tablec_init 4 id (omega arith)

email_given : param info (codes "email") ≡ some (codes "a@b.c")
unfolding program
email_given = refl

password_given : param info (codes "password") ≡ some (codes "xy")
unfolding program
password_given = refl

pub login_row :
    env.exec (Sql.login_sql (codes "a@b.c") (codes "xy")) []
    ≡ (tuples (row ∷ []), Sql.login_sql (codes "a@b.c") (codes "xy") ∷ [])
unfolding program
login_row = refl

login_stores_example :
    (t : Table Bytes) × (bytes : Bytes) × (httpserver_send_response (json 200 id (codes "16") 16)
      ≡ ok bytes)
    × (login env empty info
        ≡ ok (record {
          sessions = t;
          world = Sql.login_sql (codes "a@b.c") (codes "xy") ∷ [];
          sent = [] ++ bytes ∷ [];
        }))
    × IsValid t
    × ((key : Bytes)
        → tablec_get t key ≡ (
            if str_eq id key
            then ok (some (id, normalize_string (codes "a@b.c")))
            else tablec_get empty.sessions key))
login_stores_example =
    login_stores env empty info (codes "a@b.c") (codes "xy") row [] 7 []
      (Sql.login_sql (codes "a@b.c") (codes "xy") ∷ [])
      (Sql.login_sql (codes "a@b.c") (codes "xy") ∷ []) (tablec_init-IsValid 4 (omega arith))
      email_given password_given refl login_row refl empty_fresh

abbrev requests : List Bytes
requests = login_path ∷ codes "/api/produtos/lista" ∷ []

abbrev served : Server Log
served = result (main env [] requests) empty

main_runs : main env [] requests ≡ ok served
unfolding program
main_runs = refl

abbrev both : Server Log
both = result (serve env empty requests) empty

serve_runs : serve env empty requests ≡ ok both
unfolding program
serve_runs = refl

login_parsed : qparser_parse (qparser_init 10) login_path ≡ ok info
unfolding program
login_parsed = refl

qparser_parse_returns_example :
    (parsed : Info) × (qparser_parse (qparser_init 10) login_path ≡ ok parsed)
    × (parsed.length ≡ 10)
    × (parsed.queries_length ≤ 10)
qparser_parse_returns_example = qparser_parse_returns 10 login_path (omega arith) (omega arith)

abbrev email_query : Query
email_query = info.queries 0

email_found : qparser_get_query info (codes "email") ≡ some email_query
unfolding program
email_found = refl

qparser_get_query-length_example : length (value_of email_query) ≤ 1023
qparser_get_query-length_example =
    qparser_get_query-length 10 login_path (codes "email") info email_query login_parsed email_found

generate_session_id_lem_example :
    (length (generate_session_id (env.rand 7)) ≡ 16)
    × (every is_alphanumeric (generate_session_id (env.rand 7)) ≡ true)
generate_session_id_lem_example = generate_session_id_lem (env.rand 7)
