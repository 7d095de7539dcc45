-- ===== src/Csocket.antt =====
-- server/libs/csocket-server.c, in the build of server/Makefile: on POSIX, and without CSOCKET_SECURE.
-- The calls of the operating system are the parameter `Os`; what `perror` prints is left out.
use pal_ft.Base.{ℕ, ◌-◌, ◌^◌, Bool, true, false, Option, none, some, [], length, if◌then◌else◌}
use pal_ft.Libc.{Bytes, ℤ, pos, negsuc}

-- What each call returns, by what is outside when it is made, and what is outside afterwards.
pub record Os (W : Type 0) : Type 0 where
  pub socket : W → ℤ × W
  -- SO_REUSEADDR on a socket
  pub setsockopt : ℤ → W → ℤ × W
  -- to a port, at any address
  pub bind : ℤ → ℕ → W → ℤ × W
  pub listen : ℤ → W → ℤ × W
  pub accept : ℤ → W → ℤ × W
  -- the number of bytes that were taken, or a number below 0
  pub send : ℤ → Bytes → W → ℤ × W
  -- at most so many bytes; `none` is a number below 0
  pub recv : ℤ → ℕ → W → Option Bytes × W
  pub close : ℤ → W → W

-- struct csocket_server, of which only these fields are used
pub record CsocketServer : Type 0 where
  pub socket : ℤ
  pub port : ℕ

-- struct csocket_server_client, without the address, which only `accept` writes
pub record CsocketClient : Type 0 where
  pub socket : ℤ

abbrev pub is_negative : ℤ → Bool
is_negative (pos n) = false
is_negative (negsuc n) = true

abbrev pub minus_1 : ℤ
minus_1 = negsuc 0

module _ {W : Type 0} (os : Os W) where
  unfoldable pub csocket_server_init : CsocketServer → W → ℤ × CsocketServer × W
  csocket_server_init server w =
      let (fd, w₁) = os.socket w in
      let server' : CsocketServer = record server { socket = fd } in
      let (set, w₂) = os.setsockopt fd w₁ in
      let (bound, w₃) = os.bind fd server.port w₂ in
      let (listening, w₄) = os.listen fd w₃ in
      if is_negative fd
      then (minus_1, server', w₁)
      else if is_negative set
      then (minus_1, server', w₂)
      else if is_negative bound
      then (minus_1, server', w₃)
      else if is_negative listening
      then (minus_1, server', w₄)
      else (pos 0, server', w₄)

  unfoldable pub csocket_server_accept : CsocketServer → CsocketClient → W → ℤ × CsocketClient × W
  csocket_server_accept server client w =
      let (fd, w') = os.accept server.socket w in
      (if is_negative fd then minus_1 else pos 0, record client { socket = fd }, w')

  -- A send of a part of the bytes counts as one of all.
  unfoldable pub csocket_server_send : CsocketClient → Bytes → W → ℤ × W
  csocket_server_send client bytes w =
      let (sent, w') = os.send client.socket bytes w in
      (if is_negative sent then minus_1 else pos 0, w')

  unfoldable pub csocket_close_client : CsocketClient → W → ℤ × W
  csocket_close_client client w = (pos 0, os.close client.socket w)

  -- The bytes that were written to the buffer, with the return value.
  unfoldable pub csocket_server_recv : CsocketClient → ℕ → W → ℤ × Bytes × W
  csocket_server_recv client size w =
      let (received, w') = os.recv client.socket size w in
      elim received [ none ↦ (minus_1, [], w') | some bytes ↦ (pos (length bytes), bytes, w') ]

  unfoldable pub csocket_server_close : CsocketServer → W → ℤ × W
  csocket_server_close server w = (pos 0, os.close server.socket w)

-- `csocket_server_client_get_id`: the conversion of an `int` to an `unsigned int`
unfoldable pub csocket_server_client_get_id : CsocketClient → ℕ
csocket_server_client_get_id client = elim client.socket [ pos n ↦ n | negsuc n ↦ 2 ^ 32 - n - 1 ]
