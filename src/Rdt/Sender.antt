-- ===== src/Rdt/Sender.antt =====
-- ReliableSocket.cpp, the side that connects and sends. A `while (true)` takes an answer of `recv`
-- each time round; where the answers end it waits for ever. What a call returns first is the
-- answers that it left.
pub mod Acked
pub mod Data
pub mod Connect
use networking_projects.Base.{
  ℕ, ◌+◌, ◌-◌, ◌%◌, ◌^◌, Bool, true, false, ◌&&◌, List, [], ◌∷◌, ◌==◌, if◌then◌else◌,
}
use networking_projects.Rdt.Segment.{
  Segment, Span, control_segment, payload_segment, get_type, get_ack_number, get_sequence_number,
  rdt_data, rdt_ack, rdt_conn, rdt_close,
}
use networking_projects.Rdt.State.{
  Status, init, wait_hs2, wait_hs3, wait_send, wait_ack0, wait_ack1, Os, Event, M, ok, pure, stop,
  exited, uncaught, blocked, ◌>>=◌, ◌>>◌, get,
}
use networking_projects.Rdt.Unreliable.{
  received, socket_timeout, connection_closed, connect, send, receive,
}
use networking_projects.Rdt.Reliable.{
  blank, set_state, parse, announce, to_buffer, current_msec, update_rtt, reset_timeout, send_ack,
}

abbrev pub is_init : Status → Bool
is_init init = true
is_init _ = false

abbrev pub is_wait_send : Status → Bool
is_wait_send wait_send = true
is_wait_send _ = false

-- The test by which a loop of the sender ends.
abbrev pub is_ack : Segment → ℕ → Bool
is_ack seg ack_number = get_type seg == rdt_ack && get_ack_number seg == ack_number

abbrev pub flip_sequence : M (Unit {0})
flip_sequence s =
    ok tt
      (record s { self = record s.self { sequence_number = (257 - s.sequence_number) % 2 ^ 8 } })

module _ (os : Os) where
  -- One round of the loop that sends RDT_CONN: whether ACK 2 came.
  unfoldable pub connect_round : List ℕ → Event → M Bool
  connect_round send_buffer e = do
    send os send_buffer
    receipt ← receive os e blank
    elim receipt [
      | received count response ↦ (do seg ← parse response; pure (is_ack seg 2))
      | socket_timeout ↦ pure false
      | connection_closed ↦ stop uncaught
    ]

  unfoldable pub connect_loop : List ℕ → List Event → M (List Event)
  connect_loop send_buffer [] = send os send_buffer >> stop blocked
  connect_loop send_buffer (e ∷ es) = do
    acked ← connect_round send_buffer e
    if acked then pure es else connect_loop send_buffer es

  unfoldable pub connect_to_remote : ℕ → ℕ → List Event → M (List Event)
  connect_to_remote hostname port_num es s =
      if is_init s.state
      then (do
        connect os hostname port_num
        now ← get
        reset_timeout os
        set_state wait_hs2
        send_buffer ← to_buffer (control_segment (os.padding now.calls) 0 0 rdt_conn)
        rest ← connect_loop send_buffer es
        set_state wait_hs3
        send_ack os 3
        set_state wait_send
        pure rest)
          s
      else stop exited s

  -- One round of the loop that sends a segment: whether the expected ACK came.
  unfoldable pub ack_round : Segment → List ℕ → ℕ → Event → M Bool
  ack_round segment send_buffer expect_ack e = do
    time_sent ← current_msec os
    send os send_buffer
    receipt ← receive os e blank
    elim receipt [
      | socket_timeout ↦ pure false
      | connection_closed ↦ stop exited
      | received count received_data ↦ (do
        time_received ← current_msec os
        response ← parse received_data
        announce response
        if is_ack response expect_ack
            then (if get_type segment == rdt_data
                then update_rtt os ((time_received + 2 ^ 32 - time_sent) % 2 ^ 32)
                else pure tt)
              >> pure true
            else pure false)
    ]

  unfoldable pub ack_loop : Segment → List ℕ → ℕ → List Event → M (List Event)
  ack_loop segment send_buffer expect_ack [] = do current_msec os; send os send_buffer; stop blocked
  ack_loop segment send_buffer expect_ack (e ∷ es) = do
    acked ← ack_round segment send_buffer expect_ack e
    if acked then pure es else ack_loop segment send_buffer expect_ack es

  unfoldable pub send_until_acked : Segment → List Event → M (List Event)
  send_until_acked segment es = do
    announce segment
    send_buffer ← to_buffer segment
    if get_type segment == rdt_data
        then ack_loop segment send_buffer (get_sequence_number segment) es
        else if get_type segment == rdt_close
        then ack_loop segment send_buffer 4 es
        else (send os send_buffer >> pure es)

  unfoldable pub send_data : Span → List Event → M (List Event)
  send_data buffer es s =
      if is_wait_send s.state
      then (do
        set_state (if s.sequence_number == 0 then wait_ack0 else wait_ack1)
        rest ←
            send_until_acked
              (payload_segment (os.padding s.calls) s.sequence_number 0 rdt_data buffer) es
        flip_sequence
        set_state wait_send
        pure rest)
          s
      else ok es s
