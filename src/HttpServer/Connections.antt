-- ===== src/HttpServer/Connections.antt =====
-- server/libs/httpserver.c: the slots of the connections. A client's thread is the number that
-- `cthreads_thread_create` gave it, and its `thread_data` is known by the slot that it names. Memory
-- that is freed is not modelled, and an allocation succeeds.
pub mod Counts
pub mod Marks
pub mod Slots
pub mod Stops
pub mod Reach
use pal_ft.Base.{
  ℕ, zero, suc, ◌+◌, ◌-◌, ◌*◌, ◌≡◌, Option, none, some, Bool, true, false, List, [], ◌∷◌, ◌++◌,
  ◌==◌, ltb, if◌then◌else◌, length, get_elem?, set, replicate, Outcome, ok, fault, exited, ◌>>=◌,
  deref,
}
use pal_ft.Libc.{ℤ, pos, negsuc}

-- struct httpserver_client
pub record Client (V : Type 0) : Type 0 where
  pub thread : Option ℕ
  pub thread_data : Option ℕ
  pub socket : ℤ
  pub upgraded : Bool
  pub user_data : Option V

-- struct httpserver, without the listening socket and the handler that nothing sets
pub record Pool (V : Type 0) : Type 0 where
  pub sockets : List (Client V)
  pub available_sockets : List ℕ
  pub sockets_capacity : ℕ
  pub sockets_length : ℤ

abbrev pub plus_one : ℤ → ℤ
plus_one (pos n) = pos (n + 1)
plus_one (negsuc zero) = pos 0
plus_one (negsuc (suc n)) = negsuc n

abbrev pub minus_one : ℤ → ℤ
minus_one (pos zero) = negsuc 0
minus_one (pos (suc n)) = pos n
minus_one (negsuc n) = negsuc (suc n)

-- `== 1` of an `int`
abbrev pub is_one : ℤ → Bool
is_one (pos n) = n == 1
is_one (negsuc n) = false

-- `socket == -1`
abbrev pub is_closed : ℤ → Bool
is_closed (pos n) = false
is_closed (negsuc n) = n == 0

-- The loop of `_httpserver_add_available_socket` with `n` rounds left, over the entries from `i`
-- on: the first one that is 0.
unfoldable pub first_zero : ℕ → List ℕ → ℕ → Outcome (Option ℕ)
first_zero zero entries i = ok none
first_zero (suc n) [] i = fault
first_zero (suc n) (v ∷ entries) i = if v == 0 then ok (some i) else first_zero n entries (i + 1)

-- The loop of `_httpserver_select_position`: the first entry that is not 0, and what it is.
unfoldable pub first_nonzero : ℕ → List ℕ → ℕ → Outcome (Option (ℕ × ℕ))
first_nonzero zero entries i = ok none
first_nonzero (suc n) [] i = fault
first_nonzero (suc n) (v ∷ entries) i =
    if v == 0 then first_nonzero n entries (i + 1) else ok (some (i, v))

-- `n` entries for the slots from `i` on, all available
unfoldable pub new_entries : ℕ → ℕ → List ℕ
new_entries i zero = []
new_entries i (suc n) = (i + 1) ∷ new_entries (i + 1) n

module _ {V : Type 0} where
  unfoldable pub empty_client : Client V
  empty_client = record {
    thread = none;
    thread_data = none;
    socket = negsuc 0;
    upgraded = false;
    user_data = none;
  }

  -- `init` is what `csocket_server_init` has returned.
  unfoldable pub httpserver_start_server : ℤ → Outcome (Pool V)
  unfolding empty_client
  httpserver_start_server init =
      if is_one init
      then exited 1
      else ok (record {
        sockets = empty_client ∷ [];
        available_sockets = 1 ∷ [];
        sockets_capacity = 1;
        sockets_length = pos 0;
      })

  -- Both arrays have `sockets_capacity` elements, and get as many again.
  unfoldable pub grow_pool : Pool V → Pool V
  unfolding empty_client new_entries
  grow_pool p = record p {
    sockets = p.sockets ++ replicate p.sockets_capacity empty_client;
    available_sockets = p.available_sockets ++ new_entries p.sockets_capacity p.sockets_capacity;
    sockets_capacity = p.sockets_capacity * 2;
  }

  -- `available_sockets[i] = v`
  unfoldable pub write_entry : Pool V → ℕ → ℕ → Outcome (Pool V)
  write_entry p i v =
      if ltb i (length p.available_sockets)
      then ok (record p { available_sockets = set p.available_sockets i v })
      else fault

  -- `_httpserver_select_position`
  unfoldable pub select_position : Pool V → Outcome (ℕ × Pool V)
  select_position p = do
    found ← first_nonzero p.sockets_capacity p.available_sockets 0
    elim found [
      | some (i, v) ↦ do p' ← write_entry p i 0; ok (v - 1, p')
      | none ↦ elim p.sockets_length [
        | negsuc n ↦ fault
        | pos n ↦ do p' ← write_entry (grow_pool p) n 0; ok (n, p')
      ]
    ]

  -- `_httpserver_add_available_socket`
  unfoldable pub add_available_socket : Pool V → ℕ → Outcome (Pool V)
  add_available_socket p socket_index = do
    found ← first_zero p.sockets_capacity p.available_sockets 0
    elim found [
      | none ↦ ok p
      | some i ↦ do
        p' ← write_entry p i (socket_index + 1)
        ok (record p' { sockets_length = minus_one p'.sockets_length })
    ]

  -- `sockets[i]` after an update
  unfoldable pub update_client : Pool V → ℕ → (Client V → Client V) → Outcome (Pool V)
  update_client p i f = do
    c ← deref (get_elem? p.sockets i)
    ok (record p { sockets = set p.sockets i (f c) })

  -- The thread is cancelled and its data freed; the fields keep what they point to.
  unfoldable pub httpserver_disconnect_client : Pool V → ℕ → Outcome (Pool V)
  httpserver_disconnect_client p socket_index = do
    p' ← update_client p socket_index (λ c. record c { socket = negsuc 0; upgraded = false })
    add_available_socket p' socket_index

  -- One round of the loop in `httpserver_handle_request`, whose `csocket_server_accept` has returned
  -- 0. That is the number that is kept as the socket. The thread is given, and runs only afterwards.
  unfoldable pub accept_client : Pool V → ℕ → Outcome (ℕ × Pool V)
  accept_client p thread = do
    (socket_index, p₁) ← select_position p
    p₂ ←
        update_client (record p₁ { sockets_length = plus_one p₁.sockets_length }) socket_index
          (λ _. record {
            thread = some thread;
            thread_data = some socket_index;
            socket = pos 0;
            upgraded = false;
            user_data = none;
          })
    ok (socket_index, p₂)

  -- The threads that `httpserver_stop_server` cancels, in order.
  unfoldable pub stop_server : List (Client V) → List (Option ℕ)
  stop_server [] = []
  stop_server (c ∷ clients) =
      if is_closed c.socket then stop_server clients else c.thread ∷ stop_server clients

  unfoldable pub httpserver_set_socket_data : Pool V → ℕ → V → Outcome (Pool V)
  httpserver_set_socket_data p i value =
      update_client p i (λ c. record c { user_data = some value })

  unfoldable pub httpserver_get_socket_data : Pool V → ℕ → Outcome (Option V)
  httpserver_get_socket_data p i = do c ← deref (get_elem? p.sockets i); ok c.user_data

  unfoldable pub httpserver_upgrade_socket : Pool V → ℕ → Outcome (Pool V)
  httpserver_upgrade_socket p i = update_client p i (λ c. record c { upgraded = true })
