-- ===== src/Lib.antt =====
-- The server of PalFT, in C under server/: a shop's HTTP API over PostgreSQL.
--
-- A connection gets a slot and a thread, which parses what it receives and calls the callback.
-- `callback` in server/main.c gets the path of a request. `qparser_parse` splits its query into
-- parameters, the path's prefix picks a handler, and the handler formats a statement, asks the
-- database over libpq and sends one response with `httpserver_send_response`. A login draws an id,
-- and stores the email under it in the hash table `sessions`; the handlers of the cart look it up.
-- Lists are answered as JSON text.
--
--   Base         conditions, lists, faults (`Outcome`) and what a run that returns ensures
--   Libc         byte strings, `strcmp`, `strncmp`, `snprintf`, `atoi` as the sources use them
--   Tablec       server/libs/tablec.c, the hash table
--   QueryParser  server/libs/queryparser.c, the parameters of a path
--   Pjsonb       server/libs/pjsonb.c, the builder of JSON text
--   Csocket      server/libs/csocket-server.c, the sockets
--   Libtstr      server/libs/libtstr.c, the searches in a string
--   HttpParser   server/libs/httpparser.c, the parser of a request
--   HttpServer   server/libs/httpserver.c: HttpServer the responses, with `tstr_append` of
--                libs/libtstr.c, HttpServer.Connections the slots of the connections,
--                HttpServer.Listen the thread of one, HttpServer.Sockets both over the sockets
--   SessionId    server/libs/fq_utils.c: SessionId `frequenc_generate_session_id`,
--                SessionId.Seeding `frequenc_safe_seeding`
--   Main         server/main.c: Main has what the handlers share, Main.Sql the statements,
--                Main.Products, Main.Accounts and Main.Cart the handlers, Main.Callback the routes,
--                Main.Startup the function `main`, Main.Connection a connection from the bytes
--                that it receives to its answers, Main.Received a login on one, Main.System the
--                running program, with all its connections, Main.Statements, Main.Cuts and
--                Main.Outside what it asks of the database
--   Tests        runs on concrete requests
--
-- A definition has the name of its C function where there is one. A function that may read or write
-- outside an object gives an `Outcome`: `ok`, `fault` for behaviour that C leaves undefined, or
-- `exited` with the status of the process. A C string is the list of its bytes before the
-- terminator; a buffer of the query parser, whose terminator may be missing, is a function from the
-- index, of 64 or 1024 bytes. The position of the JSON builder and the length of a response are an
-- `int`: the casts to it keep 32 bits, and a sum past its range is a `fault`. The hash is computed modulo 2 ^ 64, `atoi` wraps to 32 bits, and
-- `snprintf` cuts off at the size of its buffer. Every loop but that over `recv` is a structural
-- recursion on what it runs through, so it needs no fuel; the counts are the capacity of an array
-- that is searched, and the headers that there is still room for.
--
-- `Main.Env` stands for what is outside: `PQconnectdb` and `PQexec` on the state of the database,
-- `getrandom`, and `rand` after `srand`. The state `Server` holds the sessions, that outside state,
-- and the byte strings sent so far.
--
-- The request parser searches a buffer of which a message overwrites the front; what `recv` returned
-- before may stand behind it. `Csocket.Os` stands for the calls of the operating system on sockets,
-- on a state of what is outside; the build is that of server/Makefile, on POSIX and without TLS. The
-- loop over `recv` has no bound in the code: `recv_messages` has one as its fuel, and one more than
-- the number of messages is enough.
--
-- `Main.System` puts the parts together. A step is what a thread does between two waits: the accept
-- of a connection, a round of its loop with the callback, the answer 400, or its end. Steps of
-- different connections come in any order, and `Reached` holds of what the program may get to.
--
-- Not modelled: server/libs/cthreads.c and server/libs/pcll.c, libraries of another project, the
-- second of which only a build with CSOCKET_SECURE calls; the races of two callbacks that run at
-- once, for which the program takes no lock, and a connection that ends before its slot is stored;
-- memory that is freed or cannot be had; log messages; branches for other systems, but those of
-- `frequenc_safe_seeding`; the page in web/.
pub mod Base
pub mod Libc
pub mod Tablec
pub mod Csocket
pub mod Libtstr
pub mod HttpParser
pub mod QueryParser
pub mod Pjsonb
pub mod HttpServer
pub mod SessionId
pub mod Main
mod Tests
