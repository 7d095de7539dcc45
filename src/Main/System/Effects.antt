-- ===== src/Main/System/Effects.antt =====
-- What the running program of server/main.c does to what is outside.
use pal_ft.Base.{
  ℕ, suc, ◌≡◌, refl, subst, not, some, List, [], ◌∷◌, get_elem?, Outcome, ok, exited, ok-injective,
  >>=-eq-ok,
}
use pal_ft.Base.{Ensures, if-Ensures, >>=-Ensures_of, ok-Ensures, exited-Ensures, Ensures-ok}
use pal_ft.HttpServer.Listen.{bad_request}
use pal_ft.Libc.{Bytes}
use pal_ft.Main.{Reply, tuples, command, failed, Env, Server, send}
use pal_ft.Main.Connection.{request_callback}
use pal_ft.Main.Outside.{Asked, creates, Calls, none_yet, connects, asks, send-Called}
use pal_ft.Main.Outside.Routes.{callback-Called}
use pal_ft.Main.Sessions
use pal_ft.Main.Startup.{start, run_all, create_tables}
use pal_ft.Main.System.{System, Event, silent, asked, refused, Reached, replay}
use pal_ft.Main.System.Serial.{request_callback-callback, replay-Sessions, Run-replay}

module _ {D : Type 0} (env : Env D) (d : D) where
  run_all-Calls :
      (statements : List Bytes) (e : D)
      → ((i : ℕ) (sql : Bytes) → get_elem? statements i ≡ some sql → Asked env sql)
      → Calls env d e
      → Ensures (Calls env d) (run_all env statements e)
  unfolding run_all
  run_all-Calls [] e known q = ok-Ensures _ _ q
  run_all-Calls (sql ∷ more) e known q =
      go
        (run_all-Calls more (env.exec sql e).1 (λ i other at. known (suc i) other at)
          (asks sql e (known 0 sql refl) q))
        (env.exec sql e).0
    where
      go :
          Ensures (Calls env d) (run_all env more (env.exec sql e).1)
          → (reply : Reply)
          → Ensures (Calls env d) (elim reply as (λ _. Outcome D) [
            | tuples _ ↦ exited 1
            | command ↦ run_all env more (env.exec sql e).1
            | failed ↦ exited 1
          ])
      go rest (tuples rows) = exited-Ensures _ 1
      go rest command = rest
      go rest failed = exited-Ensures _ 1

  start-Calls : (s : Server D) → start env d ≡ ok s → Calls env d s.world
  unfolding start
  start-Calls s h =
      Ensures-ok _ _
        (if-Ensures (λ (t : Server D). Calls env d t.world) (not (env.connect d).0) _ _
          (exited-Ensures _ 1)
          (>>=-Ensures_of (Calls env d) _ (run_all env create_tables (env.connect d).1) _
            (run_all-Calls create_tables (env.connect d).1 creates (connects d none_yet))
            λ d₂ q. ok-Ensures _ _ q))
        h

  replay-Calls :
      (s t : Server D) (events : List Event)
      → Sessions.IsSound s.sessions
      → Calls env d s.world
      → replay env s events ≡ ok t
      → Calls env d t.world
  unfolding replay
  replay-Calls s t [] sound q h = subst (λ (u : Server D). Calls env d u.world) (ok-injective h) q
  replay-Calls s t (silent ∷ events) sound q h = replay-Calls s t events sound q h
  replay-Calls s t (asked request ∷ events) sound q h =
      let (u, first, rest) = >>=-eq-ok (request_callback env s request) _ h in
      let (path, _, called) = request_callback-callback env s u request first in
      replay-Calls u t events (Sessions.callback-IsSound env s u path sound called)
        (callback-Called env d s u path sound q called) rest
  replay-Calls s t (refused ∷ events) sound q h =
      let (u, first, rest) = >>=-eq-ok (send s bad_request) _ h in
      replay-Calls u t events (replay-Sessions env s u (refused ∷ []) (rw first refl) sound)
        (Ensures-ok _ _ (send-Called env d s bad_request q) first) rest

  -- In every system that the program gets to, by any interleaving of its connections, what is
  -- outside has come about from what was outside at the start by connections, by seeds and by
  -- statements, each of which creates one of the three tables, lists the products, finds a product
  -- by a name, which is the second column of a row that the database gave, or is one of the seven
  -- that hold values from a request or a session. Such a one, split at its single quotes, is the
  -- beginning of the fixed text with the values between their quotes, the last piece of which may
  -- be cut off; its values from the query have up to 1023 bytes, and the user of a cart, who is
  -- that of a session, holds no single quote.
  pub Reached-Calls :
      {V : Type 0} (events : List Event) (t : System D V)
      → Reached env d events t
      → Calls env d t.server.world
  Reached-Calls events t r =
      replay-Calls r.server t.server events (Sessions.start-IsSound env d r.server r.started)
        (start-Calls r.server r.started) (Run-replay env r.run)
