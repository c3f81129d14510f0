-- ===== src/Rdt/Receiver/Accept.antt =====
-- `accept_connection` of ReliableSocket.cpp, the server's side of the handshake.
use networking_projects.Rdt.Receiver.Confirm.{
  requests, ignored, count_asks, confirm_loop-returns, confirm_loop_waits,
}
use networking_projects.Base.{
  ℕ, ◌%◌, ◌^◌, ◌≡◌, refl, ◌∙◌, ap, true, false, some, List, [], ◌∷◌, ◌++◌, arith, length, ◌==◌,
  if◌then◌else◌, All,
}
use networking_projects.Rdt.Clock.{msec_to_timeval}
use networking_projects.Rdt.Segment.{Segment, get_type, rdt_conn}
use networking_projects.Rdt.State.{◌>>=◌, ◌>>◌, pure}
use networking_projects.Rdt.Reliable.{set_state}
use networking_projects.Rdt.State.{
  State, Os, Event, datagram, again, broken, Action, init, wait_data0, sent, timeout_set, bound,
  connected_back, ok, halt, blocked, done,
}
use networking_projects.Rdt.Unreliable.{receive, connect_back, bind_port, set_timeout_length}
use networking_projects.Rdt.Reliable.{timeout_of}
use networking_projects.Rdt.Acks.{ack_bytes, IsAck, send_ack_lem}
use networking_projects.Rdt.Heard.{heard, heard_lem, hits, overlooks, parse-heard}
use networking_projects.Rdt.Receiver.{request_round, request_loop, confirm_loop, accept_connection}

module _ (os : Os) (up : (k : ℕ) → os.succeeds k ≡ true) where
  -- The first datagram makes its sender the remote host.
  abbrev joined : State → State
  joined s = if s.connected then s else record (done connected_back s) {
    self = record s.self { socket = record s.socket { connected = true } };
  }

  request_round_lem :
      (bytes : List ℕ) (seg : Segment) (s : State)
      → heard (datagram bytes) ≡ some seg
      → request_round os (datagram bytes) s ≡ ok (get_type seg == rdt_conn) (joined s)
  unfolding request_round receive connect_back
  request_round_lem bytes seg s h =
      ground (arith, up s.calls, heard_lem bytes seg h, parse-heard os bytes seg h (joined s))

  joined-joined : (s : State) → joined (joined s) ≡ joined s
  joined-joined s = ground arith

  seg_requests :
      (bytes : List ℕ)
      → requests (datagram bytes) ≡ true
      → (seg : Segment) × (heard (datagram bytes) ≡ some seg) × ((get_type seg == rdt_conn) ≡ true)
  seg_requests bytes h = ground arith

  seg_ignored :
      (bytes : List ℕ)
      → ignored (datagram bytes) ≡ true
      → (seg : Segment) × (heard (datagram bytes) ≡ some seg) × ((get_type seg == rdt_conn) ≡ false)
  seg_ignored bytes h = ground arith

  request_loop-returns :
      (before : List Event) (e : Event) (rest : List Event) (s : State)
      → All (λ x. ignored x ≡ true) before
      → requests e ≡ true
      → request_loop os (before ++ e ∷ rest) s ≡ ok rest (joined s)
  unfolding request_loop
  request_loop-returns [] again rest s m h = cc
  request_loop-returns [] broken rest s m h = cc
  request_loop-returns [] (datagram bytes) rest s m h =
      let (seg, hd, asks) = seg_requests bytes h in rw (request_round_lem bytes seg s hd, asks)
  request_loop-returns (again ∷ before) e rest s m h = cc
  request_loop-returns (broken ∷ before) e rest s m h = cc
  request_loop-returns (datagram bytes ∷ before) e rest s m h =
      let (seg, hd, asks) = seg_ignored bytes m.0 in
      rw (request_round_lem bytes seg s hd, asks)
        (request_loop-returns before e rest (joined s) m.1 h ∙ ap (ok rest) (joined-joined s))

  -- What `accept_connection` has done when it waits for ACK 3, having got a request while in INIT.
  record Waiting (port_num : ℕ) (s s' : State) : Type 0 where
    same_state : s'.state ≡ s.state
    connected : s'.connected ≡ true
    first : Action
    first_ack : IsAck 2 first
    logged :
        s'.log
        ≡ timeout_set (msec_to_timeval (timeout_of os s))
          ∷ first
          ∷ connected_back
          ∷ bound (port_num % 2 ^ 16)
          ∷ s.log

  accept_connection-Waiting :
      (port_num : ℕ) (before : List Event) (e : Event) (es : List Event) (s : State)
      → s.state ≡ init
      → s.connected ≡ false
      → All (λ x. ignored x ≡ true) before
      → requests e ≡ true
      → (s' : State) × Waiting port_num s s'
        × (accept_connection os port_num (before ++ e ∷ es) s
            ≡ (confirm_loop os es >>= λ rest. (set_state wait_data0 >> pure rest)) s')
  unfolding accept_connection bind_port set_timeout_length
  accept_connection-Waiting port_num before e es s st co ms h =
      let s₁ : State = done (bound (port_num % 2 ^ 16)) s in
      let s₂ : State = record (done connected_back s₁) {
        self = record s.self { socket = record s.socket { connected = true } };
      } in
      let a : Action = sent (ack_bytes (os.padding s₂.calls) 2) in
      let s₃ : State = done a s₂ in
      let s₄ : State = done (timeout_set (msec_to_timeval (timeout_of os s))) (record s₃ {
        self = record s₃.self { socket = record s₃.socket { timeout_length = timeout_of os s } };
      }) in
      (
        s₄,
        record {
          same_state = refl;
          connected = refl;
          first = a;
          first_ack = (os.padding s₂.calls, refl);
          logged = refl;
        },
        ground (
          arith,
          up s.calls,
          up s₃.calls,
          request_loop-returns before e es s₁ ms h,
          send_ack_lem os 2 s₂ (up s₂.calls) refl,
        ),
      )

-- Let every call of the system succeed. From INIT and not connected, let non-empty datagrams that
-- ask for no connection come first, then a request, then timeouts and segments other than ACK 3,
-- then ACK 3. Then `accept_connection` returns after it in WAIT_DATA0 and connected; it has bound the
-- port, joined the first sender, sent one ACK 2 for the first request, set the timeout, and sent one
-- ACK 2 for each timeout or request after that, and nothing else.
pub accept_connection-establishes :
    (os : Os) (port_num : ℕ) (before : List Event) (e : Event) (quiet : List Event) (e' : Event)
    (rest : List Event) (s : State)
    → ((k : ℕ) → os.succeeds k ≡ true)
    → s.state ≡ init
    → s.connected ≡ false
    → All (λ x. ignored x ≡ true) before
    → requests e ≡ true
    → All (λ x. overlooks 3 x ≡ true) quiet
    → hits 3 e' ≡ true
    → (s' : State) × (first : Action) × (acks : List Action) × (accept_connection os port_num
          (before ++ e ∷ (quiet ++ e' ∷ rest))
          s
        ≡ ok rest s')
      × (s'.state ≡ wait_data0)
      × (s'.connected ≡ true)
      × (s'.log
          ≡ acks
            ++ timeout_set (msec_to_timeval (timeout_of os s))
              ∷ first
              ∷ connected_back
              ∷ bound (port_num % 2 ^ 16)
              ∷ s.log)
      × IsAck 2 first
      × All (IsAck 2) acks
      × (length acks ≡ count_asks quiet)
accept_connection-establishes os port_num before e quiet e' rest s up st co ms h qs h' =
    let (s₁, w, starts) =
      accept_connection-Waiting os up port_num before e (quiet ++ e' ∷ rest) s st co ms h in
    let (s₂, runs, a) = confirm_loop-returns os up quiet e' rest s₁ w.connected qs h' in
    (
      record s₂ { self = record s₂.self { state = wait_data0 } },
      w.first,
      a.acks,
      starts ∙ rw (runs),
      refl,
      ap (λ r. r.connected) a.same ∙ w.connected,
      a.logged ∙ ap (λ l. a.acks ++ l) w.logged,
      w.first_ack,
      a.all_acks,
      a.counted,
    )

-- Let every call of the system succeed. From INIT and not connected, let non-empty datagrams that
-- ask for no connection come first, then a request, then only timeouts and segments other than
-- ACK 3, data among them. Then `accept_connection` still waits in INIT after all of them, and since
-- the timeout was set it has done nothing but the sends in `acks`.
pub accept_connection_waits :
    (os : Os) (port_num : ℕ) (before : List Event) (e : Event) (es : List Event) (s : State)
    → ((k : ℕ) → os.succeeds k ≡ true)
    → s.state ≡ init
    → s.connected ≡ false
    → All (λ x. ignored x ≡ true) before
    → requests e ≡ true
    → All (λ x. overlooks 3 x ≡ true) es
    → (s' : State) × (first : Action) × (acks : List Action) × (accept_connection os port_num
          (before ++ e ∷ es)
          s
        ≡ halt blocked s')
      × (s'.state ≡ init)
      × (s'.log
          ≡ acks
            ++ timeout_set (msec_to_timeval (timeout_of os s))
              ∷ first
              ∷ connected_back
              ∷ bound (port_num % 2 ^ 16)
              ∷ s.log)
      × IsAck 2 first
      × All (IsAck 2) acks
      × (length acks ≡ count_asks es)
accept_connection_waits os port_num before e es s up st co ms h qs =
    let (s₁, w, starts) = accept_connection-Waiting os up port_num before e es s st co ms h in
    let (s₂, runs, a) = confirm_loop_waits os up es s₁ w.connected qs in
    (
      s₂,
      w.first,
      a.acks,
      starts ∙ rw runs,
      ap (λ r. r.state) a.same ∙ w.same_state ∙ st,
      a.logged ∙ ap (λ l. a.acks ++ l) w.logged,
      w.first_ack,
      a.all_acks,
      a.counted,
    )
