-- ===== src/Rdt/Sender/Connect.antt =====
-- `connect_to_remote` of ReliableSocket.cpp, the client's side of the handshake.
use networking_projects.Base.{
  ℕ, suc, ◌%◌, ◌^◌, ◌≡◌, refl, ◌∙◌, ap, true, false, List, [], ◌∷◌, ◌++◌, arith, length, replicate,
  replicate-append, All,
}
use networking_projects.Rdt.Clock.{msec_to_timeval}
use networking_projects.Rdt.Segment.{control_segment, header_bytes, rdt_conn}
use networking_projects.Rdt.State.{
  State, Os, Event, datagram, again, broken, init, wait_hs2, wait_hs3, wait_send, sent, timeout_set,
  connected_to, ok, done,
}
use networking_projects.Rdt.Unreliable.{send, receive, connect, set_timeout_length}
use networking_projects.Rdt.Reliable.{timeout_of}
use networking_projects.Rdt.Acks.{ack_bytes, send_ack_lem, to_buffer-control_segment}
use networking_projects.Rdt.Heard.{
  hits, overlooks, hits-heard, overlooks-heard, receive-heard, parse-heard,
}
use networking_projects.Rdt.Sender.{connect_round, connect_loop, connect_to_remote}

-- The bytes of an RDT_CONN.
abbrev pub conn_bytes : ℕ → List ℕ
conn_bytes pad = header_bytes (control_segment pad 0 0 rdt_conn).header

module _ (os : Os) (up : (k : ℕ) → os.succeeds k ≡ true) (buffer : List ℕ) where
  abbrev once : State → State
  once s = done (sent buffer) s

  connect_round_quiet :
      (e : Event) (s : State)
      → s.connected ≡ true
      → overlooks 2 e ≡ true
      → connect_round os buffer e s ≡ ok false (once s)
  unfolding connect_round send
  connect_round_quiet again s c m = unfold receive in ground (arith, up s.calls)
  connect_round_quiet broken s c m = cc
  connect_round_quiet (datagram bytes) s c m =
      let (seg, h, different) = overlooks-heard 2 bytes m in
      ground (
        arith,
        up s.calls,
        receive-heard os bytes seg h (once s) c,
        parse-heard os bytes seg h (once s),
      )

  connect_round_hit :
      (e : Event) (s : State)
      → s.connected ≡ true
      → hits 2 e ≡ true
      → connect_round os buffer e s ≡ ok true (once s)
  unfolding connect_round send
  connect_round_hit again s c m = cc
  connect_round_hit broken s c m = cc
  connect_round_hit (datagram bytes) s c m =
      let (seg, h, known, same) = hits-heard 2 bytes m in
      ground (
        arith,
        up s.calls,
        receive-heard os bytes seg h (once s) c,
        parse-heard os bytes seg h (once s),
      )

  connect_loop-returns :
      (quiet : List Event) (e : Event) (rest : List Event) (s : State)
      → s.connected ≡ true
      → All (λ x. overlooks 2 x ≡ true) quiet
      → hits 2 e ≡ true
      → (s' : State) × (connect_loop os buffer (quiet ++ e ∷ rest) s ≡ ok rest s')
        × (s'.self ≡ s.self)
        × (s'.log ≡ replicate (suc (length quiet)) (sent buffer) ++ s.log)
  unfolding connect_loop
  connect_loop-returns [] e rest s c m h =
      (once s, rw (connect_round_hit e s c h, connect_loop), refl, refl)
  connect_loop-returns (x ∷ quiet) e rest s c m h =
      let (s', runs, same, lo) = connect_loop-returns quiet e rest (once s) c m.1 h in
      (
        s',
        rw (connect_round_quiet x s c m.0) runs,
        same,
        lo ∙ replicate-append (suc (length quiet)) (sent buffer) s.log,
      )

-- Let every call of the system succeed. From INIT, whatever timeouts and segments other than ACK 2
-- come before an ACK 2, `connect_to_remote` returns after it, in WAIT_SEND and connected; it has
-- connected the UDP socket, set the timeout, sent the same RDT_CONN once before each of these
-- answers, and then one ACK 3.
pub connect_to_remote-establishes :
    (os : Os) (hostname port_num : ℕ) (quiet : List Event) (e : Event) (rest : List Event)
    (s : State)
    → ((k : ℕ) → os.succeeds k ≡ true)
    → s.state ≡ init
    → All (λ x. overlooks 2 x ≡ true) quiet
    → hits 2 e ≡ true
    → (s' : State) × (pad : ℕ) × (pad' : ℕ) × (connect_to_remote os hostname port_num
          (quiet ++ e ∷ rest)
          s
        ≡ ok rest s')
      × (s'.state ≡ wait_send)
      × (s'.connected ≡ true)
      × (s'.sequence_number ≡ s.sequence_number)
      × (s'.log
          ≡ sent (ack_bytes pad' 3)
            ∷ (replicate (suc (length quiet)) (sent (conn_bytes pad))
                ++ timeout_set (msec_to_timeval (timeout_of os s))
                  ∷ connected_to hostname (port_num % 2 ^ 16)
                  ∷ s.log))
unfolding connect_to_remote connect set_timeout_length
connect_to_remote-establishes os hostname port_num quiet e rest s up st ms hs =
    let s₁ : State = record (done (connected_to hostname (port_num % 2 ^ 16)) s) {
      self = record s.self { socket = record s.socket { connected = true } };
    } in
    let s₂ : State = done (timeout_set (msec_to_timeval (timeout_of os s))) (record s₁ {
      self = record s₁.self { socket = record s₁.socket { timeout_length = timeout_of os s } };
    }) in
    let s₃ : State = record s₂ { self = record s₂.self { state = wait_hs2 } } in
    let pad : ℕ = os.padding s₁.calls in
    let (s₄, runs, same, lo) =
      connect_loop-returns os up (conn_bytes pad) quiet e rest s₃ refl ms hs in
    let s₅ : State = record s₄ { self = record s₄.self { state = wait_hs3 } } in
    let s₆ : State = done (sent (ack_bytes (os.padding s₅.calls) 3)) s₅ in
    (
      record s₆ { self = record s₆.self { state = wait_send } },
      pad,
      os.padding s₅.calls,
      ground (
        arith,
        up s.calls,
        up (suc s.calls),
        to_buffer-control_segment pad 0 0 rdt_conn s₃,
        runs,
        send_ack_lem os 3 s₅ (up s₅.calls) (ap (λ r. r.connected) same),
      ),
      refl,
      ap (λ r. r.connected) same,
      ap (λ r. r.sequence_number) same,
      ap (λ l. sent (ack_bytes (os.padding s₅.calls) 3) ∷ l) lo,
    )
