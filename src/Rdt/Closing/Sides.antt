-- ===== src/Rdt/Closing/Sides.antt =====
-- `close_connection` of ReliableSocket.cpp, on either side.
use networking_projects.Base.{
  ℕ, suc, ◌≡◌, refl, ◌∙◌, ap, sym, true, false, some, none, Bool, List, [], ◌∷◌, ◌++◌, arith,
  length, replicate, ◌==◌, if◌then◌else◌, All, All-append, length-append, append_assoc, Bool-cases,
  inl, inr,
}
use networking_projects.Rdt.Clock.{msec_to_timeval}
use networking_projects.Rdt.Segment.{Segment, control_segment, header_bytes, get_type, rdt_close}
use networking_projects.Rdt.State.{
  State, Os, Event, datagram, again, broken, Action, wait_send, closing, closed, sent, timeout_set,
  shut, ok, done,
}
use networking_projects.Rdt.Unreliable.{receive, set_timeout_length, close}
use networking_projects.Rdt.Acks.{ack_bytes, IsAck, send_ack_lem, to_buffer-control_segment}
use networking_projects.Rdt.Heard.{heard, hits, misses, announce_lem, receive-heard, parse-heard}
use networking_projects.Rdt.Sender.{send_until_acked}
use networking_projects.Rdt.Sender.Acked.{ack_loop-returns}
use networking_projects.Rdt.Closing.{linger_round, linger_loop, leave, close_connection}

-- The bytes of an RDT_CLOSE.
abbrev pub close_bytes : ℕ → List ℕ
close_bytes pad = header_bytes (control_segment pad 4 0 rdt_close).header

-- Let every call of the system succeed. The sender's close, from WAIT_SEND, sends the same RDT_CLOSE
-- once before each timeout or other segment of a known type, and before the ACK 4 after which it
-- returns; it is then CLOSED and has given the descriptor back.
pub close_connection-sender :
    (os : Os) (quiet : List Event) (e : Event) (rest : List Event) (s : State)
    → ((k : ℕ) → os.succeeds k ≡ true)
    → s.state ≡ wait_send
    → s.connected ≡ true
    → All (λ x. misses 4 x ≡ true) quiet
    → hits 4 e ≡ true
    → (s' : State) × (close_connection os (quiet ++ e ∷ rest) s ≡ ok rest s')
      × (s'.state ≡ closed)
      × (s'.log
          ≡ shut
            ∷ (replicate (suc (length quiet)) (sent (close_bytes (os.padding s.calls))) ++ s.log))
unfolding close_connection leave close send_until_acked control_segment
close_connection-sender os quiet e rest s up st co ms h =
    let pad : ℕ = os.padding s.calls in
    let seg : Segment = control_segment pad 4 0 rdt_close in
    let (s₁, runs, st', sq, co', lo) =
      ack_loop-returns os up seg (close_bytes pad) 4 quiet e rest s co ms h in
    (
      done shut (record s₁ { self = record s₁.self { state = closed } }),
      rw (st, close_connection, leave)
          (ground (
            arith,
            up s₁.calls,
            announce_lem seg s,
            to_buffer-control_segment pad 4 0 rdt_close s,
            runs,
          )),
      refl,
      ap (λ l. shut ∷ l) lo,
    )

-- An answer to the receiver that lingers: any segment.
abbrev pub is_segment : Event → Bool
is_segment e = elim (heard e) [ none ↦ false | some seg ↦ true ]

abbrev pub closes : Event → Bool
closes e = elim (heard e) [ none ↦ false | some seg ↦ get_type seg == rdt_close ]

abbrev pub count_closes : List Event → ℕ
count_closes [] = 0
count_closes (e ∷ es) = if closes e then suc (count_closes es) else count_closes es

module _ (os : Os) (up : (k : ℕ) → os.succeeds k ≡ true) where
  abbrev repeated : Event → State → State
  repeated e s = if closes e then done (sent (ack_bytes (os.padding s.calls) 4)) s else s

  seg_heard :
      (bytes : List ℕ)
      → is_segment (datagram bytes) ≡ true
      → (seg : Segment) × (heard (datagram bytes) ≡ some seg)
  seg_heard bytes h = ground arith

  linger_round_lem :
      (e : Event) (s : State)
      → s.connected ≡ true
      → is_segment e ≡ true
      → linger_round os e s ≡ ok false (repeated e s)
  unfolding linger_round
  linger_round_lem again s c m = cc
  linger_round_lem broken s c m = cc
  linger_round_lem (datagram bytes) s c m =
      let (seg, h) = seg_heard bytes m in
      ground (
        arith,
        receive-heard os bytes seg h s c,
        parse-heard os bytes seg h s,
        send_ack_lem os 4 s (up s.calls) c,
      )

  linger_loop-returns :
      (es rest : List Event) (s : State)
      → s.connected ≡ true
      → All (λ x. is_segment x ≡ true) es
      → (s' : State) × (acks : List Action) × (linger_loop os (es ++ again ∷ rest) s ≡ ok rest s')
        × (s'.log ≡ acks ++ s.log)
        × All (IsAck 4) acks
        × (length acks ≡ count_closes es)
  unfolding linger_loop
  linger_loop-returns [] rest s c m = (s, [], unfold linger_round receive in refl, refl, tt, refl)
  linger_loop-returns (e ∷ es) rest s c m = elim (Bool-cases (closes e)) [
    | inl asks ↦
        let x : Action = sent (ack_bytes (os.padding s.calls) 4) in
        let (s', acks, runs, lo, all, le) = linger_loop-returns es rest (done x s) c m.1 in
        (
          s',
          acks ++ x ∷ [],
          rw (linger_round_lem e s c m.0, asks) runs,
          lo ∙ sym (append_assoc acks (x ∷ []) s.log),
          All-append (IsAck 4) acks (x ∷ []) all ((os.padding s.calls, refl), tt),
          rw asks (omega (arith, length-append acks (x ∷ []), le)),
        )
    | inr other ↦
        let (s', acks, runs, lo, all, le) = linger_loop-returns es rest s c m.1 in
        (s', acks, rw (linger_round_lem e s c m.0, other) runs, lo, all, rw other le)
  ]

-- Let every call of the system succeed. The receiver's close, from CLOSING, sets a timeout of two
-- seconds and takes segments until a timeout comes, answering each RDT_CLOSE among them by one ACK 4
-- and nothing else; it is then CLOSED and has given the descriptor back.
pub close_connection-receiver :
    (os : Os) (es rest : List Event) (s : State)
    → ((k : ℕ) → os.succeeds k ≡ true)
    → s.state ≡ closing
    → s.connected ≡ true
    → All (λ x. is_segment x ≡ true) es
    → (s' : State) × (acks : List Action) × (close_connection os (es ++ again ∷ rest) s
        ≡ ok rest s')
      × (s'.state ≡ closed)
      × (s'.log ≡ shut ∷ (acks ++ timeout_set (msec_to_timeval 2000) ∷ s.log))
      × All (IsAck 4) acks
      × (length acks ≡ count_closes es)
unfolding close_connection leave close set_timeout_length
close_connection-receiver os es rest s up st co ms =
    let s₁ : State =
      done (timeout_set (msec_to_timeval 2000)) (record s {
        self = record s.self { socket = record s.socket { timeout_length = 2000 } };
      }) in
    let (s₂, acks, runs, lo, all, le) = linger_loop-returns os up es rest s₁ co ms in
    (
      done shut (record s₂ { self = record s₂.self { state = closed } }),
      acks,
      rw (st, close_connection, leave) (ground (arith, up s.calls, up s₂.calls, runs)),
      refl,
      ap (λ l. shut ∷ l) lo,
      all,
      le,
    )
