-- ===== src/Main/System/Drains.antt =====
-- The end of all connections of the running program of server/main.c.
use pal_ft.Base.{ℕ, ◌≤◌, ◌≡◌, refl, sym, subst, List, [], ◌∷◌, map, arith}
use pal_ft.HttpServer.Connections.{Pool}
use pal_ft.HttpServer.Connections.Counts.{uses, remove, uses-remove}
use pal_ft.HttpServer.Connections.Reach.{no_slot}
use pal_ft.HttpServer.Connections.Slots
use pal_ft.HttpServer.Connections.Slots.Updates.{httpserver_disconnect_client-IsSound}
use pal_ft.Main.{Env}
use pal_ft.Main.Connection.{disconnect_callback}
use pal_ft.Main.System.{System, Event, silent, Run, Step, Reached}
use pal_ft.Main.System.Serial.{Reached-IsSound}

-- One silent step for each connection.
abbrev pub ends : List ℕ → List Event
ends order = map (λ _. silent) order

module _ {D V : Type 0} (env : Env D) where
  -- The system with another pool, and with no open connection.
  abbrev pub drained : System D V → Pool V → System D V
  drained s pool = record s { listener = (pool, []) }

  drain :
      (s : System D V) (order : List ℕ)
      → Slots.IsSound s.listener.0 s.listener.1
      → ((v : ℕ) → uses v order ≡ uses v s.listener.1)
      → (pool : Pool V) × Run env s (ends order) (drained s pool) × Slots.IsSound pool []
  unfolding disconnect_callback
  drain s [] sound h =
      let none_left : s.listener.1 ≡ [] = no_slot s.listener.1 (λ v. sym (h v)) in
      (
        s.listener.0,
        subst (λ l. Run env s [] (record s { listener = (s.listener.0, l) })) none_left Run.done,
        subst (λ l. Slots.IsSound s.listener.0 l) none_left sound,
      )
  drain s (i ∷ order) sound h =
      let in_use : 1 ≤ uses i s.listener.1 = ground (arith, h i) in
      let (pool, left, sound') =
        httpserver_disconnect_client-IsSound s.listener.0 s.listener.1 i sound in_use in
      let (pool', run, sound'') =
        drain (record s { listener = (pool, remove i s.listener.1) }) order sound'
          (λ v. ground (arith, h v, uses-remove i v s.listener.1 in_use)) in
      (pool', Run.next (Step.closed i pool s.server in_use refl left) run, sound'')

  -- From every system that the program gets to, by any interleaving of its connections, and for
  -- every order of the open ones, there is a run in which they end in this order, one step each,
  -- to a system with no open connection, whose pool is sound and has every slot available, and
  -- whose sessions, outside state and sent responses are those of before.
  pub Reached-drains :
      (d : D) (events : List Event) (t : System D V) (order : List ℕ)
      → Reached env d events t
      → ((v : ℕ) → uses v order ≡ uses v t.listener.1)
      → (pool : Pool V) × Run env t (ends order) (drained t pool) × Slots.IsSound pool []
  Reached-drains d events t order r h = drain t order (Reached-IsSound env d events t r).0 h
