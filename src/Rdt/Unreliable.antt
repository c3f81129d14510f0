-- ===== src/Rdt/Unreliable.antt =====
-- UnreliableSocket.cpp: a UDP socket. Addresses are numbers; a message to the terminal is left out.
use networking_projects.Base.{
  ℕ, suc, ◌%◌, ◌^◌, true, false, List, ◌++◌, ◌==◌, if◌then◌else◌, length, take, drop, min,
}
use networking_projects.Rdt.Clock.{msec_to_timeval}
use networking_projects.Rdt.Segment.{max_seg_size}
use networking_projects.Rdt.State.{
  State, Os, Action, opened, shut, bound, connected_to, connected_back, timeout_set, sent, Event,
  datagram, again, broken, exited, M, ok, halt, pure, stop, ◌>>◌, done,
}

-- What `receive` does but exit: it returns the count and fills the buffer, throws SocketTimeout, or
-- throws ConnectionClosed.
pub data Receipt : Type 0 where
  received : ℕ → List ℕ → Receipt
  socket_timeout connection_closed : Receipt

-- The bytes at the start of the buffer; what does not fit is lost.
unfoldable pub overwrite : List ℕ → List ℕ → List ℕ
overwrite bytes buffer = take (length buffer) bytes ++ drop (length bytes) buffer

module _ (os : Os) where
  -- A call of the system that the program gives up on when it fails.
  abbrev pub demand : Action → M (Unit {0})
  demand a s =
      if os.succeeds s.calls
      then ok tt (done a s)
      else halt exited (record s { calls = suc s.calls })

  -- The constructor: the members, then `socket`.
  unfoldable pub construct : M (Unit {0})
  construct s = demand opened (record s {
    self = record s.self { socket = record { timeout_length = 0; connected = false } };
  })

  unfoldable pub bind_port : ℕ → M (Unit {0})
  bind_port port_num = demand (bound (port_num % 2 ^ 16))

  abbrev pub set_connected : M (Unit {0})
  set_connected s =
      ok tt (record s { self = record s.self { socket = record s.socket { connected = true } } })

  unfoldable pub connect : ℕ → ℕ → M (Unit {0})
  connect hostname port_num = do demand (connected_to hostname (port_num % 2 ^ 16)); set_connected

  unfoldable pub set_timeout_length : ℕ → M (Unit {0})
  set_timeout_length timeout_length_ms s =
      demand (timeout_set (msec_to_timeval timeout_length_ms)) (record s {
        self = record s.self { socket = record s.socket { timeout_length = timeout_length_ms } };
      })

  unfoldable pub send : List ℕ → M (Unit {0})
  send buffer s = if s.connected then demand (sent buffer) s else ok tt s

  -- The first datagram's sender becomes the remote host.
  unfoldable pub connect_back : M (Unit {0})
  connect_back s = if s.connected then ok tt s else (demand connected_back >> set_connected) s

  -- `e` is the answer of `recv` or `recvfrom`.
  unfoldable pub receive : Event → List ℕ → M Receipt
  receive again buffer = pure socket_timeout
  receive broken buffer = stop exited
  receive (datagram bytes) buffer = if length bytes == 0 then pure connection_closed else (do
    connect_back
    pure (received (min (length bytes) max_seg_size) (overwrite bytes buffer)))

  -- A failure is reported and ignored.
  unfoldable pub close : M (Unit {0})
  close s =
      if os.succeeds s.calls then ok tt (done shut s) else ok tt (record s { calls = suc s.calls })

unfoldable pub get_timeout_length : State → ℕ
get_timeout_length s = s.timeout_length
