-- ===== src/Rdt/Receiver/Overrun.antt =====
-- What `receive_data` of ReliableSocket.cpp makes of a size field that claims too much.
use networking_projects.Base.{ℕ, suc, ◌<◌, ◌≡◌, refl, true, some, none, List, ◌∷◌, arith, length}
use networking_projects.Rdt.Clock.{msec_to_timeval}
use networking_projects.Rdt.Segment.{
  Segment, rdt_data, copy_payload_to, get_type, get_sequence_number,
}
use networking_projects.Rdt.State.{
  State, Os, Event, datagram, Action, sent, timeout_set, halt, undefined, done,
}
use networking_projects.Rdt.Unreliable.{set_timeout_length}
use networking_projects.Rdt.Acks.{ack_bytes, IsAck, send_ack_lem}
use networking_projects.Rdt.Heard.{heard, announce_lem, receive-heard, parse-heard}
use networking_projects.Rdt.Receiver.{
  expected_seq, alternate, handle_segment, data_round, data_loop, receive_data,
}

copy_payload_to_full :
    (seg : Segment) (target : List ℕ)
    → length target < seg.payload.size
    → copy_payload_to seg target ≡ none
unfolding copy_payload_to
copy_payload_to_full seg target over = ground arith

-- Let every call of the system succeed. If the first datagram is read as data under the number waited
-- for, and its size field is greater than the caller's buffer, then `receive_data` acknowledges it,
-- changes its state, and copies past the end of the buffer.
pub receive_data_overrun :
    (os : Os) (q : ℕ) (target bytes : List ℕ) (seg : Segment) (rest : List Event) (s : State)
    → ((k : ℕ) → os.succeeds k ≡ true)
    → expected_seq s.state ≡ some q
    → s.connected ≡ true
    → heard (datagram bytes) ≡ some seg
    → get_type seg ≡ rdt_data
    → get_sequence_number seg ≡ q
    → length target < seg.payload.size
    → (s' : State) × (a : Action) × (receive_data os target (datagram bytes ∷ rest) s
        ≡ halt undefined s')
      × (s'.state ≡ alternate s.state)
      × (s'.log ≡ a ∷ timeout_set (msec_to_timeval 0) ∷ s.log)
      × IsAck q a
unfolding receive_data set_timeout_length data_loop data_round handle_segment
receive_data_overrun os q target bytes seg rest s up st co h ty sq over =
    let s₁ : State = record s {
      self = record s.self { socket = record s.socket { timeout_length = 0 } };
      calls = suc s.calls;
      log = timeout_set (msec_to_timeval 0) ∷ s.log;
    } in
    let a : Action = sent (ack_bytes (os.padding s₁.calls) q) in
    let s₂ : State = done a s₁ in
    (
      record s₂ { self = record s₂.self { state = alternate s.state } },
      a,
      rw (st, receive_data)
          (ground (
            arith,
            up s.calls,
            receive-heard os bytes seg h s₁ co,
            parse-heard os bytes seg h s₁,
            announce_lem seg s₁,
            send_ack_lem os q s₁ (up s₁.calls) co,
            copy_payload_to_full seg target over,
          )),
      refl,
      refl,
      (os.padding s₁.calls, refl),
    )
