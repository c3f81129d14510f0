-- ===== src/Rdt/Receiver.antt =====
-- ReliableSocket.cpp, the side that accepts and receives. Loops are as in Sender.
pub mod Rounds
pub mod Delivery
pub mod Overrun
pub mod Confirm
pub mod Accept
use networking_projects.Base.{
  ℕ, ◌-◌, ◌%◌, ◌^◌, Bool, true, false, ◌&&◌, Option, none, some, List, [], ◌∷◌, ◌==◌, if◌then◌else◌,
}
use networking_projects.Rdt.Segment.{
  Segment, copy_payload_to, get_type, get_ack_number, get_sequence_number, get_payload_size,
  rdt_data, rdt_ack, rdt_conn, rdt_close,
}
use networking_projects.Rdt.State.{
  Status, wait_data0, wait_data1, closing, Os, Event, M, ok, pure, stop, exited, uncaught,
  undefined, blocked, ◌>>=◌, ◌>>◌,
}
use networking_projects.Rdt.Unreliable.{
  received, socket_timeout, connection_closed, bind_port, set_timeout_length, receive,
}
use networking_projects.Rdt.Reliable.{blank, set_state, parse, announce, reset_timeout, send_ack}
use networking_projects.Rdt.Sender.{is_init}

-- How a receiver's state tells the sequence number that it waits for; `none` where it may not
-- receive.
abbrev pub expected_seq : Status → Option ℕ
expected_seq wait_data0 = some 0
expected_seq wait_data1 = some 1
expected_seq _ = none

-- `this->state == WAIT_DATA0 ? WAIT_DATA1 : WAIT_DATA0`
abbrev pub alternate : Status → Status
alternate wait_data0 = wait_data1
alternate _ = wait_data0

abbrev pub alternate_state : M (Unit {0})
alternate_state s = set_state (alternate s.state) s

-- What one round of `receive_data` comes to: it returns a size and the caller's buffer, or goes on
-- with the segment buffer, which is not cleared between rounds.
pub data Round : Type 0 where
  returns : ℕ → List ℕ → Round
  again_with : List ℕ → Round

module _ (os : Os) where
  -- One round of the loop that waits for RDT_CONN.
  unfoldable pub request_round : Event → M Bool
  request_round e = do
    receipt ← receive os e blank
    elim receipt [
      | received count segment ↦ (do seg ← parse segment; pure (get_type seg == rdt_conn))
      | socket_timeout ↦ stop uncaught
      | connection_closed ↦ stop uncaught
    ]

  unfoldable pub request_loop : List Event → M (List Event)
  request_loop [] = stop blocked
  request_loop (e ∷ es) = do
    requested ← request_round e
    if requested then pure es else request_loop es

  -- One round of the loop that waits for ACK 3: whether the handshake is complete.
  unfoldable pub confirm_round : Event → M Bool
  confirm_round e = do
    receipt ← receive os e blank
    elim receipt [
      | received count response ↦ (do
        seg ← parse response
        if get_type seg == rdt_ack && get_ack_number seg == 3
            then pure true
            else if get_type seg == rdt_conn
            then (send_ack os 2 >> pure false)
            else pure false)
      | socket_timeout ↦ send_ack os 2 >> pure false
      | connection_closed ↦ stop uncaught
    ]

  unfoldable pub confirm_loop : List Event → M (List Event)
  confirm_loop [] = stop blocked
  confirm_loop (e ∷ es) = do
    confirmed ← confirm_round e
    if confirmed then pure es else confirm_loop es

  unfoldable pub accept_connection : ℕ → List Event → M (List Event)
  accept_connection port_num es s =
      if is_init s.state
      then (do
        bind_port os port_num
        waiting ← request_loop es
        send_ack os 2
        reset_timeout os
        rest ← confirm_loop waiting
        set_state wait_data0
        pure rest)
          s
      else stop exited s

  -- The branches on the type of a segment and its sequence number.
  unfoldable pub handle_segment : ℕ → List ℕ → List ℕ → Segment → M Round
  handle_segment expected buffer received_segment seg =
      if get_type seg == rdt_data
      then (if get_sequence_number seg == expected
          then (do
            send_ack os expected
            alternate_state
            elim (copy_payload_to seg buffer) [
              | none ↦ stop undefined
              | some filled ↦ pure (returns (get_payload_size seg) filled)
            ])
          else (do send_ack os ((257 - expected) % 2 ^ 8); pure (again_with received_segment)))
      else if get_type seg == rdt_close
      then (do send_ack os 4; set_state closing; pure (returns 0 buffer))
      else pure (again_with received_segment)

  unfoldable pub data_round : ℕ → List ℕ → List ℕ → Event → M Round
  unfolding handle_segment
  data_round expected buffer received_segment e = do
    receipt ← receive os e received_segment
    elim receipt [
      | received count filled ↦ (do
        seg ← parse filled
        announce seg
        handle_segment expected buffer filled seg)
      | socket_timeout ↦ stop uncaught
      | connection_closed ↦ stop exited
    ]

  unfoldable pub data_loop : ℕ → List ℕ → List ℕ → List Event → M (ℕ × List ℕ × List Event)
  data_loop expected buffer received_segment [] = stop blocked
  data_loop expected buffer received_segment (e ∷ es) = do
    round ← data_round expected buffer received_segment e
    elim round [
      | returns count filled ↦ pure (count, filled, es)
      | again_with next ↦ data_loop expected buffer next es
    ]

  -- `buffer` is the caller's array; the result is what is returned, the array, and the answers left.
  unfoldable pub receive_data : List ℕ → List Event → M (ℕ × List ℕ × List Event)
  receive_data buffer es s = elim (expected_seq s.state) [
    | none ↦ ok (0, buffer, es) s
    | some expected ↦ (do set_timeout_length os 0; data_loop expected buffer blank es) s
  ]
