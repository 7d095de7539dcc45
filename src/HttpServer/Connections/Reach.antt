-- ===== src/HttpServer/Connections/Reach.antt =====
-- The runs of the connections of server/libs/httpserver.c: connections are accepted and close in
-- any order, each with the whole operation as one step.
use pal_ft.Base.{
  ℕ, ◌≤◌, ◌<◌, ◌≡◌, refl, sym, subst, ◌∙◌, List, [], ◌∷◌, arith, Outcome, ok, ok-injective, ◌>>=◌,
}
use pal_ft.HttpServer.Connections.{
  Pool, httpserver_start_server, httpserver_disconnect_client, accept_client,
}
use pal_ft.Libc.{ℤ}
use pal_ft.HttpServer.Connections.Counts.{uses, remove, uses-remove}
use pal_ft.HttpServer.Connections.Slots.{IsSound, start-IsSound}
use pal_ft.HttpServer.Connections.Slots.Updates.{
  accept_client-IsSound, httpserver_disconnect_client-IsSound,
}

-- A server and the slots of its open connections.
abbrev pub Listener : Type 0 → Type 0
Listener V = Pool V × List ℕ

-- A connection is accepted and its thread is given its slot, or the thread of an open one ends.
pub data Step {V : Type 0} (s t : Listener V) : Type 0 where
  accepted : (thread i : ℕ) → accept_client s.0 thread ≡ ok (i, t.0) → t.1 ≡ i ∷ s.1 → Step s t
  closed :
      (i : ℕ)
      → 1 ≤ uses i s.1
      → httpserver_disconnect_client s.0 i ≡ ok t.0
      → t.1 ≡ remove i s.1
      → Step s t

pub data Reach {V : Type 0} : Listener V → Type 0 where
  started : (init : ℤ) (p : Pool V) → httpserver_start_server init ≡ ok p → Reach (p, [])
  next : {s t : Listener V} → Reach s → Step s t → Reach t

pub no_slot : (slots : List ℕ) → ((v : ℕ) → uses v slots ≡ 0) → slots ≡ []
no_slot [] h = refl
no_slot (x ∷ slots) h = absurd (ground (arith, h x))

module _ {V : Type 0} where
  pub Step-IsSound : (s t : Listener V) → IsSound s.0 s.1 → Step s t → IsSound t.0 t.1
  Step-IsSound s t sound (accepted thread i e same) =
      let (j, q, accept, unused, sound') = accept_client-IsSound s.0 s.1 thread sound in
      let both : (j, q) ≡ (i, t.0) = ok-injective (sym accept ∙ e) in
      subst (λ l. IsSound t.0 l) (sym same) (subst (λ x. IsSound x.1 (x.0 ∷ s.1)) both sound')
  Step-IsSound s t sound (closed i in_use e same) =
      let (q, disconnect, sound') = httpserver_disconnect_client-IsSound s.0 s.1 i sound in_use in
      subst (λ l. IsSound t.0 l) (sym same)
        (subst (λ x. IsSound x (remove i s.1)) (ok-injective (sym disconnect ∙ e)) sound')

  -- After any accepts and ends of connections, in any order, since the server has started, both
  -- arrays of the pool have its capacity, `sockets_length` is the number of open connections, as
  -- many entries are 0, every slot below the capacity is either available once or taken by one
  -- open connection, and the socket that is kept for a slot is -1 if and only if no open
  -- connection has it.
  pub Reach-IsSound : (t : Listener V) → Reach t → IsSound t.0 t.1
  Reach-IsSound t (started init p e) = start-IsSound init p e
  Reach-IsSound t (next {s = s} r st) = Step-IsSound s t (Reach-IsSound s r) st

  -- The threads of the connections end in the order of the list.
  abbrev pub close_all : Pool V → List ℕ → Outcome (Pool V)
  close_all p [] = ok p
  close_all p (i ∷ slots) = do p' ← httpserver_disconnect_client p i; close_all p' slots

  every_slot :
      (p : Pool V) (open_slots order : List ℕ)
      → IsSound p open_slots
      → ((v : ℕ) → uses v order ≡ uses v open_slots)
      → (p' : Pool V) × (close_all p order ≡ ok p') × IsSound p' []
  every_slot p open_slots [] s h =
      (p, refl, subst (λ l. IsSound p l) (no_slot open_slots (λ v. sym (h v))) s)
  every_slot p open_slots (i ∷ order) s h =
      let in_use : 1 ≤ uses i open_slots = ground (arith, h i) in
      let (q, disconnect, sound) = httpserver_disconnect_client-IsSound p open_slots i s in_use in
      let (p', rest, sound') =
        every_slot q (remove i open_slots) order sound
          (λ v. ground (arith, h v, uses-remove i v open_slots in_use)) in
      (p', rw disconnect rest, sound')

  -- If all open connections of a server that has been reached end, in whatever order, then every
  -- end returns, and the pool is one of no open connection, which has every slot available.
  pub close_all-returns :
      (t : Listener V) (order : List ℕ)
      → Reach t
      → ((v : ℕ) → uses v order ≡ uses v t.1)
      → (p : Pool V) × (close_all t.0 order ≡ ok p) × IsSound p []
  close_all-returns t order r h = every_slot t.0 t.1 order (Reach-IsSound t r) h

  -- Of a server that has been reached, an accept returns, with a slot below the capacity that no
  -- open connection has, and the end of any open connection returns.
  pub Reach-progress :
      (t : Listener V) (thread : ℕ)
      → Reach t
      → ((i : ℕ) × (p : Pool V) × (accept_client t.0 thread ≡ ok (i, p))
          × (uses i t.1 ≡ 0)
          × (i < p.sockets_capacity))
        × ((i : ℕ) → 1 ≤ uses i t.1 → (p : Pool V) × (httpserver_disconnect_client t.0 i ≡ ok p))
  Reach-progress t thread r =
      let sound = Reach-IsSound t r in
      let (i, p, accept, unused, sound') = accept_client-IsSound t.0 t.1 thread sound in
      (
        (i, p, accept, unused, ground (arith, sound'.each i)),
        λ j in_use.
            let (q, disconnect, sound'') =
              httpserver_disconnect_client-IsSound t.0 t.1 j sound in_use in
            (q, disconnect),
      )
