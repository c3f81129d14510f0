-- ===== src/Rdt/Tests.antt =====
-- The theorems about sending and the handshake at concrete inputs.
use networking_projects.Rdt.Samples.{fine, at_status, fresh, plain, ack}
use networking_projects.Base.{
  ℕ, ◌+◌, ◌-◌, ◌*◌, ◌≤◌, ◌≡◌, refl, true, some, List, [], ◌∷◌, ◌++◌, arith, min, max, length,
  replicate, All,
}
use networking_projects.Rdt.Clock.{msec_to_timeval}
use networking_projects.Rdt.Segment.{
  Segment, payload_segment, of_bytes, copy_to, copy_payload_to, get_total_size, get_payload_size,
}
use networking_projects.Rdt.Segment.Wire.{whole, segment_roundtrip}
use networking_projects.Rdt.State.{
  init, wait_send, wait_data0, State, Action, bound, connected_back, timeout_set, Event, again, ok,
  halt, blocked,
}
use networking_projects.Rdt.Unreliable.{overwrite}
use networking_projects.Rdt.Reliable.{blank, update_rtt}
use networking_projects.Rdt.Reliable.Rtt.{update_each, update_rtt_bounds, timeout_collapses}
use networking_projects.Rdt.Acks.{IsAck}
use networking_projects.Rdt.Heard.{hits}
use networking_projects.Rdt.Sender.{send_data}
use networking_projects.Rdt.Sender.Data.{send_data-acked, send_data-hits}
use networking_projects.Rdt.Receiver.{accept_connection}
use networking_projects.Rdt.Receiver.Accept.{accept_connection-establishes, accept_connection_waits}

segment_roundtrip_example :
    let seg = payload_segment 7 1 0 0 (whole (104 ∷ 105 ∷ [])) in
    (bytes : List ℕ) × (parsed : Segment) × (copy_to seg (replicate (get_total_size seg) 0)
      ≡ some bytes)
    × (length bytes ≡ get_total_size seg)
    × (of_bytes (bytes ++ 0 ∷ []) ≡ some parsed)
    × (parsed.header ≡ seg.header)
    × (get_payload_size parsed ≡ 2)
    × (copy_payload_to parsed (9 ∷ 9 ∷ 9 ∷ []) ≡ some (104 ∷ 105 ∷ 9 ∷ []))
segment_roundtrip_example =
    segment_roundtrip 7 1 0 0 (104 ∷ 105 ∷ []) (0 ∷ []) (9 ∷ 9 ∷ 9 ∷ []) (omega arith) (omega arith)

update_rtt_bounds_example :
    (s' : State) × (update_rtt fine 100 (at_status wait_send) ≡ ok tt s')
    × (100 ≤ s'.estimated_rtt)
    × (s'.estimated_rtt ≤ 200)
    × (s'.dev_rtt ≤ max 10 (max 100 s'.estimated_rtt - min 100 s'.estimated_rtt))
    × (s'.timeout_length ≡ s'.estimated_rtt + 4 * s'.dev_rtt)
    × (s'.log ≡ timeout_set (msec_to_timeval s'.timeout_length) ∷ [])
update_rtt_bounds_example =
    update_rtt_bounds fine 100 (at_status wait_send) refl (omega arith) (omega arith) (omega arith)

timeout_collapses_example :
    (s' : State) × (update_each fine (replicate 400 0) (at_status wait_send) ≡ ok tt s')
    × (s'.timeout_length ≡ 0)
timeout_collapses_example =
    timeout_collapses fine 400 (at_status wait_send) (λ k. refl) (omega arith) (omega arith) refl
      (omega arith)

send_run :
    (s' : State) × (send_data fine (whole (104 ∷ [])) (again ∷ ack 0 ∷ []) (at_status wait_send)
      ≡ ok [] s')
unfolding of_bytes overwrite blank
send_run =
    let (s', runs, st, sq, co, lo) =
      send_data-acked fine (104 ∷ []) (again ∷ []) (ack 0) [] (at_status wait_send) (λ k. refl) refl
        refl (omega arith) (refl, tt) refl in
    (s', runs)

send_data-hits_example :
    (quiet : List Event) × (e : Event) × (again ∷ ack 0 ∷ [] ≡ quiet ++ e ∷ [])
    × (hits 0 e ≡ true)
    × (send_run.0.state ≡ wait_send)
    × (send_run.0.sequence_number ≡ 1)
send_data-hits_example =
    send_data-hits fine (whole (104 ∷ [])) (again ∷ ack 0 ∷ []) [] (at_status wait_send) send_run.0
      refl send_run.1

accept_connection-establishes_example :
    (s' : State) × (first : Action) × (acks : List Action) × (accept_connection fine 7000
        (ack 9 ∷ plain 2 0 0 ∷ again ∷ ack 3 ∷ [])
        fresh
      ≡ ok [] s')
    × (s'.state ≡ wait_data0)
    × (s'.connected ≡ true)
    × (s'.log
        ≡ acks ++ timeout_set (msec_to_timeval 240) ∷ first ∷ connected_back ∷ bound 7000 ∷ [])
    × IsAck 2 first
    × All (IsAck 2) acks
    × (length acks ≡ 1)
unfolding of_bytes overwrite blank
accept_connection-establishes_example =
    accept_connection-establishes fine 7000 (ack 9 ∷ []) (plain 2 0 0) (again ∷ []) (ack 3) [] fresh
      (λ k. refl) refl refl (refl, tt) refl (refl, tt) refl

-- ACK 3 is lost: the client's data come instead.
accept_connection_waits_example :
    (s' : State) × (first : Action) × (acks : List Action) × (accept_connection fine 7000
        (plain 2 0 0 ∷ plain 0 0 0 ∷ again ∷ plain 0 0 0 ∷ [])
        fresh
      ≡ halt blocked s')
    × (s'.state ≡ init)
    × (s'.log
        ≡ acks ++ timeout_set (msec_to_timeval 240) ∷ first ∷ connected_back ∷ bound 7000 ∷ [])
    × IsAck 2 first
    × All (IsAck 2) acks
    × (length acks ≡ 1)
unfolding of_bytes overwrite blank
accept_connection_waits_example =
    accept_connection_waits fine 7000 [] (plain 2 0 0) (plain 0 0 0 ∷ again ∷ plain 0 0 0 ∷ [])
      fresh (λ k. refl) refl refl tt refl (refl, (refl, (refl, tt)))
