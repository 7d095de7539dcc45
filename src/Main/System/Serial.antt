-- ===== src/Main/System/Serial.antt =====
-- The runs of server/main.c with its threads, against one request after another.
use pal_ft.Base.{
  ℕ, suc, ◌+◌, ◌≡◌, refl, sym, ap, subst, ◌∙◌, List, [], ◌∷◌, arith, length, length-append, Outcome,
  some, deref, if-Ensures, >>=-Ensures, ok-Ensures, exited-Ensures, not, ok, ok-injective,
  >>=-eq-ok, deref-eq-ok, Ensures-ok,
}
use pal_ft.HttpParser.{Request}
use pal_ft.HttpServer.Connections.{stop_server}
use pal_ft.HttpServer.Connections.Stops.{stop_server-length}
use pal_ft.HttpServer.Connections.Reach.{Step-IsSound, accepted, closed}
use pal_ft.HttpServer.Connections.Slots
use pal_ft.HttpServer.Listen.{bad_request}
use pal_ft.Libc.{Bytes}
use pal_ft.Main.{Env, Server, send}
use pal_ft.Main.Answers.{send-sent, callback_answer}
use pal_ft.Main.Callback.{callback}
use pal_ft.Main.Connection.{request_callback, disconnect_callback}
use pal_ft.Main.Logins.{send-sessions}
use pal_ft.Main.Sessions
use pal_ft.Main.Startup.{start, run_all, create_tables}
use pal_ft.Main.System.{System, Event, silent, asked, refused, Step, Run, Reached, replay}

-- How many requests were answered.
abbrev pub answers : List Event → ℕ
answers [] = 0
answers (silent ∷ events) = answers events
answers (asked request ∷ events) = suc (answers events)
answers (refused ∷ events) = suc (answers events)

module _ {D : Type 0} (env : Env D) where
  -- One event of a replay.
  replay_one : Server D → Event → Outcome (Server D)
  replay_one s event = replay env s (event ∷ [])

  pub replay-cons :
      (s s' t : Server D) (event : Event) (events : List Event)
      → replay env s (event ∷ []) ≡ ok s'
      → replay env s' events ≡ ok t
      → replay env s (event ∷ events) ≡ ok t
  unfolding replay
  replay-cons s s' t silent events one rest =
      subst (λ u. replay env u events ≡ ok t) (sym (ok-injective one)) rest
  replay-cons s s' t (asked request) events one rest =
      let (u, first, same) = >>=-eq-ok (request_callback env s request) _ one in
      rw first (subst (λ u. replay env u events ≡ ok t) (sym (ok-injective same)) rest)
  replay-cons s s' t refused events one rest =
      let (u, first, same) = >>=-eq-ok (send s bad_request) _ one in
      rw first (subst (λ u. replay env u events ≡ ok t) (sym (ok-injective same)) rest)

  pub request_callback-callback :
      (s t : Server D) (request : Request)
      → request_callback env s request ≡ ok t
      → (path : Bytes) × (request.path ≡ some path) × (callback env s path ≡ ok t)
  unfolding request_callback
  request_callback-callback s t request e =
      let (path, given, called) = >>=-eq-ok (deref request.path) _ e in
      (path, deref-eq-ok request.path given, called)

  pub replay-Sessions :
      (s t : Server D) (events : List Event)
      → replay env s events ≡ ok t
      → Sessions.IsSound s.sessions
      → Sessions.IsSound t.sessions
  unfolding replay
  replay-Sessions s t [] e sound =
      subst (λ (u : Server D). Sessions.IsSound u.sessions) (ok-injective e) sound
  replay-Sessions s t (silent ∷ events) e sound = replay-Sessions s t events e sound
  replay-Sessions s t (asked request ∷ events) e sound =
      let (u, first, rest) = >>=-eq-ok (request_callback env s request) _ e in
      let (path, _, called) = request_callback-callback s u request first in
      replay-Sessions u t events rest (Sessions.callback-IsSound env s u path sound called)
  replay-Sessions s t (refused ∷ events) e sound =
      let (u, first, rest) = >>=-eq-ok (send s bad_request) _ e in
      replay-Sessions u t events rest
        (Ensures-ok _ _ (send-sessions Sessions.IsSound s bad_request sound) first)

  replay-answers :
      (s t : Server D) (events : List Event)
      → replay env s events ≡ ok t
      → length t.sent ≡ length s.sent + answers events
  unfolding replay
  replay-answers s t [] e =
      ap (λ (u : Server D). length u.sent) (sym (ok-injective e)) ∙ omega arith
  replay-answers s t (silent ∷ events) e = replay-answers s t events e
  replay-answers s t (asked request ∷ events) e =
      let (u, first, rest) = >>=-eq-ok (request_callback env s request) _ e in
      let (path, _, called) = request_callback-callback s u request first in
      let (bytes, one) = callback_answer env s u path called in
      omega
        (arith, replay-answers u t events rest, ap length one, length-append s.sent (bytes ∷ []))
  replay-answers s t (refused ∷ events) e =
      let (u, first, rest) = >>=-eq-ok (send s bad_request) _ e in
      let (bytes, one) = Ensures-ok _ _ (send-sent s bad_request) first in
      omega
        (arith, replay-answers u t events rest, ap length one, length-append s.sent (bytes ∷ []))

  start-sent : (d : D) (s : Server D) → start env d ≡ ok s → length s.sent ≡ 0
  unfolding start
  start-sent d s h =
      Ensures-ok _ _
        (if-Ensures (λ (t : Server D). length t.sent ≡ 0) (not (env.connect d).0) _ _
          (exited-Ensures _ 1)
          (>>=-Ensures _ (run_all env create_tables (env.connect d).1) _ λ d₂. ok-Ensures _ _ refl))
        h

  module _ {V : Type 0} where
    Step-replay :
        (s t : System D V) (event : Event)
        → Step env s event t
        → replay env s.server (event ∷ []) ≡ ok t.server
    unfolding replay disconnect_callback
    Step-replay s t event (Step.accepted thread i payload pool e) = refl
    Step-replay s t event
          (Step.answered i payload message request server u at some_bytes fits p e) =
        rw e refl
    Step-replay s t event (Step.rejected i payload message server u at some_bytes fits p e) =
        rw e refl
    Step-replay s t event (Step.closed i pool server u e left) = e

    pub Run-replay :
        {s t : System D V} {events : List Event}
        → Run env s events t
        → replay env s.server events ≡ ok t.server
    unfolding replay
    Run-replay Run.done = refl
    Run-replay {s = s} {t = t} (Run.next {event = event} {events = events} {t = u} st run) =
        replay-cons s.server u.server t.server event events (Step-replay s u event st)
          (Run-replay run)

    Run-Slots :
        {s t : System D V} {events : List Event}
        → Run env s events t
        → Slots.IsSound s.listener.0 s.listener.1
        → Slots.IsSound t.listener.0 t.listener.1
    Run-Slots Run.done sound = sound
    Run-Slots (Run.next (Step.accepted thread i payload pool e) run) sound =
        Run-Slots run (Step-IsSound _ _ sound (accepted thread i e refl))
    Run-Slots
          (Run.next (Step.answered i payload message request server u at some_bytes fits p e) run)
          sound =
        Run-Slots run sound
    Run-Slots (Run.next (Step.rejected i payload message server u at some_bytes fits p e) run)
          sound =
        Run-Slots run sound
    Run-Slots (Run.next (Step.closed i pool server u e left) run) sound =
        Run-Slots run (Step-IsSound _ _ sound (closed i u left refl))

    -- In every system that the program gets to, by any interleaving of its connections, the pool
    -- is sound for its open slots: both arrays have its capacity, `sockets_length` is the number
    -- of open connections, every slot below the capacity is either available once or taken by one
    -- open connection, and the socket kept for a slot is -1 if and only if no open connection has
    -- it. A stop of the server cancels as many threads as there are open connections. The table of
    -- sessions is valid, no user that a key finds in it holds a single quote, and as many
    -- responses were sent as requests were answered or refused.
    pub Reached-IsSound :
        (d : D) (events : List Event) (t : System D V)
        → Reached env d events t
        → Slots.IsSound t.listener.0 t.listener.1
          × (length (stop_server t.listener.0.sockets) ≡ length t.listener.1)
          × Sessions.IsSound t.server.sessions
          × (length t.server.sent ≡ answers events)
    Reached-IsSound d events t r =
        let slots = Run-Slots r.run (Slots.start-IsSound r.init r.pool r.listening) in
        let replayed = Run-replay r.run in
        (
          slots,
          stop_server-length t.listener.0 t.listener.1 slots,
          replay-Sessions r.server t.server events replayed
              (Sessions.start-IsSound env d r.server r.started),
          replay-answers r.server t.server events replayed
              ∙ omega (arith, start-sent d r.server r.started),
        )
