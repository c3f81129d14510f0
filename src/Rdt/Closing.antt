-- ===== src/Rdt/Closing.antt =====
-- ReliableSocket.cpp, close_connection.
pub mod Sides
use networking_projects.Base.{Bool, true, false, List, [], ◌∷◌, ◌==◌, if◌then◌else◌}
use networking_projects.Rdt.Segment.{control_segment, get_type, rdt_close}
use networking_projects.Rdt.State.{
  Status, wait_send, closing, closed, Os, Event, M, ok, pure, stop, blocked, ◌>>=◌, ◌>>◌,
}
use networking_projects.Rdt.Unreliable.{
  received, socket_timeout, connection_closed, set_timeout_length, receive, close,
}
use networking_projects.Rdt.Reliable.{blank, set_state, parse, send_ack}
use networking_projects.Rdt.Sender.{send_until_acked}

module _ (os : Os) where
  -- One round of the receiver's wait for repeated close requests: whether to stop waiting.
  unfoldable pub linger_round : Event → M Bool
  linger_round e = do
    receipt ← receive os e blank
    elim receipt [
      | received count segment ↦ (do
        seg ← parse segment
        if get_type seg == rdt_close then (send_ack os 4 >> pure false) else pure false)
      | socket_timeout ↦ pure true
      | connection_closed ↦ pure true
    ]

  unfoldable pub linger_loop : List Event → M (List Event)
  linger_loop [] = stop blocked
  linger_loop (e ∷ es) = do waiting ← linger_round e; if waiting then pure es else linger_loop es

  -- What comes before the descriptor is closed, by the state.
  unfoldable pub leave : Status → List Event → M (List Event)
  leave wait_send es s =
      (do
        rest ← send_until_acked os (control_segment (os.padding s.calls) 4 0 rdt_close) es
        set_state closed
        pure rest)
        s
  leave closing es s =
      (do set_timeout_length os 2000; rest ← linger_loop es; set_state closed; pure rest) s
  leave _ es s = ok es s

  unfoldable pub close_connection : List Event → M (List Event)
  close_connection es s = (do rest ← leave s.state es; close os; pure rest) s
