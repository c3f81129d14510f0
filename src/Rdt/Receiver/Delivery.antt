-- ===== src/Rdt/Receiver/Delivery.antt =====
-- `receive_data` of ReliableSocket.cpp against the segments that arrive.
use networking_projects.Rdt.Acks.{ack_bytes, IsAck}
use networking_projects.Rdt.Receiver.Rounds.{
  expected_seq-alternate, length-overwrite, IsWellFormed, data_round-packet, other,
  handle_segment-passes, handle_segment-delivers, handle_segment-closes, arrives, Passes,
}
use networking_projects.Base.{
  ℕ, suc, ◌-◌, ◌%◌, ◌^◌, ◌≤◌, ◌≡◌, refl, ◌∙◌, sym, ap, map, true, some, List, [], ◌∷◌, ◌++◌, arith,
  ◌==◌, if◌then◌else◌, length, All, drop, length-append,
}
use networking_projects.Rdt.Segment.{Header, rdt_data, rdt_close, max_seg_size}
use networking_projects.Rdt.Segment.Wire.{packet}
use networking_projects.Base.{Bool-cases, inl, inr, All-append, append_assoc, length-replicate}
use networking_projects.Rdt.Clock.{msec_to_timeval}
use networking_projects.Rdt.Unreliable.{set_timeout_length}
use networking_projects.Rdt.Receiver.{expected_seq}
use networking_projects.Rdt.State.{
  State, Os, Event, datagram, closing, Action, sent, timeout_set, ok, done,
}
use networking_projects.Rdt.Unreliable.{overwrite}
use networking_projects.Rdt.Reliable.{blank}
use networking_projects.Rdt.Receiver.{again_with, data_round, data_loop, receive_data}

-- How many of the segments hold data.
abbrev pub count_data : List (Header × List ℕ) → ℕ
count_data [] = 0
count_data ((h, payload) ∷ ps) = if h.type == rdt_data then suc (count_data ps) else count_data ps

module _ (os : Os) (up : (k : ℕ) → os.succeeds k ≡ true) (q : ℕ) (target : List ℕ) where
  data_round-Passes :
      (h : Header) (payload buffer : List ℕ) (s : State)
      → Passes q (h, payload)
      → length buffer ≡ max_seg_size
      → s.connected ≡ true
      → data_round os q target buffer (datagram (packet h payload)) s
        ≡ ok (again_with (overwrite (packet h payload) buffer)) (
            if h.type == rdt_data
            then done (sent (ack_bytes (os.padding s.calls) (other os up q target))) s
            else s)
  data_round-Passes h payload buffer s (w, nc, nd) full co =
      data_round-packet os up q target h payload buffer s w full co
      ∙ handle_segment-passes os up q target h payload buffer _ s co (ground (arith, nc, nd))

  -- What the loop has done when segments have passed that it does not wait for.
  record Passed (stale : List (Header × List ℕ)) (s s' : State) : Type 0 where
    same : s'.self ≡ s.self
    acks : List Action
    logged : s'.log ≡ acks ++ s.log
    all_acks : All (IsAck ((257 - q) % 2 ^ 8)) acks
    counted : length acks ≡ count_data stale

  data_loop-Passes :
      (stale : List (Header × List ℕ)) (es : List Event) (buffer : List ℕ) (s : State)
      → All (Passes q) stale
      → length buffer ≡ max_seg_size
      → s.connected ≡ true
      → (next : List ℕ) × (s' : State) × (length next ≡ max_seg_size)
        × Passed stale s s'
        × (data_loop os q target buffer (map arrives stale ++ es) s
            ≡ data_loop os q target next es s')
  unfolding data_loop
  data_loop-Passes [] es buffer s al full co = (
    buffer,
    s,
    full,
    record { same = refl; acks = []; logged = refl; all_acks = tt; counted = refl },
    refl,
  )
  data_loop-Passes ((g, old) ∷ stale) es buffer s al full co =
      let next : List ℕ = overwrite (packet g old) buffer in
      let full' : length next ≡ max_seg_size =
        omega (arith, length-overwrite (packet g old) buffer, al.0.0.fits) in
      let round = data_round-Passes g old buffer s al.0 full co in
      let x : Action = sent (ack_bytes (os.padding s.calls) ((257 - q) % 2 ^ 8)) in
      elim (Bool-cases (g.type == rdt_data)) [
        | inl isdata ↦
            let (last, s', le, p, runs) = data_loop-Passes stale es next (done x s) al.1 full' co in
            (
              last,
              s',
              le,
              record {
                same = p.same;
                acks = p.acks ++ x ∷ [];
                logged = p.logged ∙ sym (append_assoc p.acks (x ∷ []) s.log);
                all_acks =
                    All-append (IsAck _) p.acks (x ∷ []) p.all_acks
                      ((os.padding s.calls, refl), tt);
                counted = rw isdata (omega (arith, length-append p.acks (x ∷ []), p.counted));
              },
              rw (round, isdata) runs,
            )
        | inr ignored ↦
            let (last, s', le, p, runs) = data_loop-Passes stale es next s al.1 full' co in
            (
              last,
              s',
              le,
              record {
                same = p.same;
                acks = p.acks;
                logged = p.logged;
                all_acks = p.all_acks;
                counted = rw ignored p.counted;
              },
              rw (round, ignored) runs,
            )
      ]

  -- `receive_data` up to the first segment that ends its loop.
  receive_data-Passes :
      (stale : List (Header × List ℕ)) (es : List Event) (s : State)
      → expected_seq s.state ≡ some q
      → s.connected ≡ true
      → All (Passes q) stale
      → (next : List ℕ) × (s' : State) × (length next ≡ max_seg_size)
        × (s'.state ≡ s.state)
        × (s'.connected ≡ true)
        × (acks : List Action) × (s'.log ≡ acks ++ timeout_set (msec_to_timeval 0) ∷ s.log)
        × All (IsAck ((257 - q) % 2 ^ 8)) acks
        × (length acks ≡ count_data stale)
        × (receive_data os target (map arrives stale ++ es) s ≡ data_loop os q target next es s')
  unfolding receive_data set_timeout_length
  receive_data-Passes stale es s st co al =
      let s₁ : State = record s {
        self = record s.self { socket = record s.socket { timeout_length = 0 } };
        calls = suc s.calls;
        log = timeout_set (msec_to_timeval 0) ∷ s.log;
      } in
      let (next, s', le, p, runs) =
        data_loop-Passes stale es blank s₁ al
          (unfold blank in length-replicate {A = ℕ} max_seg_size 0) co in
      (
        next,
        s',
        le,
        ap (λ r. r.state) p.same,
        ap (λ r. r.connected) p.same ∙ co,
        p.acks,
        p.logged,
        p.all_acks,
        p.counted,
        rw (st, receive_data) (ground (arith, up s.calls, runs)),
      )

  -- Let every call of the system succeed, and the receiver wait for the sequence number `q`. Let
  -- well-formed segments arrive, first any number that do not hold data numbered `q` and do not
  -- close, then data numbered `q` that fits the caller's buffer. Then `receive_data` returns the size
  -- of that data and puts it at the start of the buffer, which is otherwise as it was; it has sent
  -- one ACK of the other number for each data segment before it, and then one ACK of `q`; and it
  -- waits for the other number.
  pub receive_data-delivers :
      (stale : List (Header × List ℕ)) (h : Header) (payload : List ℕ) (rest : List Event)
      (s : State)
      → expected_seq s.state ≡ some q
      → s.connected ≡ true
      → All (Passes q) stale
      → IsWellFormed h payload
      → h.type ≡ rdt_data
      → h.sequence_number ≡ q
      → length payload ≤ length target
      → (s' : State) × (acks : List Action) × (a : Action) × (receive_data os target
            (map arrives stale ++ arrives (h, payload) ∷ rest)
            s
          ≡ ok (length payload, payload ++ drop (length payload) target, rest) s')
        × (expected_seq s'.state ≡ some ((257 - q) % 2 ^ 8))
        × (s'.connected ≡ true)
        × (s'.log ≡ a ∷ (acks ++ timeout_set (msec_to_timeval 0) ∷ s.log))
        × IsAck q a
        × All (IsAck ((257 - q) % 2 ^ 8)) acks
        × (length acks ≡ count_data stale)
  unfolding data_loop
  receive_data-delivers stale h payload rest s st co al w ty sq fits =
      let (next, s₁, full, st₁, co₁, acks, lo, all, le, runs) =
        receive_data-Passes stale (arrives (h, payload) ∷ rest) s st co al in
      let (s', ends, st', co', lo') =
        handle_segment-delivers os up q target h payload next (overwrite (packet h payload) next) s₁
          w co₁ ty sq fits in
      (
        s',
        acks,
        sent (ack_bytes (os.padding s₁.calls) q),
        rw (runs, data_round-packet os up q target h payload next s₁ w full co₁, ends),
        rw (st', st₁) (expected_seq-alternate s.state q st),
        co',
        lo' ∙ ap (λ l. sent (ack_bytes (os.padding s₁.calls) q) ∷ l) lo,
        (os.padding s₁.calls, refl),
        all,
        le,
      )

  -- Let every call of the system succeed, and the receiver wait for the sequence number `q`. Let
  -- well-formed segments arrive, first any number that do not hold data numbered `q` and do not
  -- close, then an RDT_CLOSE. Then `receive_data` returns 0 and leaves the caller's buffer as it was;
  -- it has only sent ACKs of the other number, and then one ACK 4; it is in CLOSING and connected.
  pub receive_data-closes :
      (stale : List (Header × List ℕ)) (h : Header) (payload : List ℕ) (rest : List Event)
      (s : State)
      → expected_seq s.state ≡ some q
      → s.connected ≡ true
      → All (Passes q) stale
      → IsWellFormed h payload
      → h.type ≡ rdt_close
      → (s' : State) × (acks : List Action) × (a : Action) × (receive_data os target
            (map arrives stale ++ arrives (h, payload) ∷ rest)
            s
          ≡ ok (0, target, rest) s')
        × (s'.state ≡ closing)
        × (s'.connected ≡ true)
        × (s'.log ≡ a ∷ (acks ++ timeout_set (msec_to_timeval 0) ∷ s.log))
        × IsAck 4 a
        × All (IsAck ((257 - q) % 2 ^ 8)) acks
        × (length acks ≡ count_data stale)
  unfolding data_loop
  receive_data-closes stale h payload rest s st co al w ty =
      let (next, s₁, full, st₁, co₁, acks, lo, all, le, runs) =
        receive_data-Passes stale (arrives (h, payload) ∷ rest) s st co al in
      let (s', ends, st', co', lo') =
        handle_segment-closes os up q target h payload next (overwrite (packet h payload) next) s₁
          co₁ ty in
      (
        s',
        acks,
        sent (ack_bytes (os.padding s₁.calls) 4),
        rw (runs, data_round-packet os up q target h payload next s₁ w full co₁, ends),
        st',
        co',
        lo' ∙ ap (λ l. sent (ack_bytes (os.padding s₁.calls) 4) ∷ l) lo,
        (os.padding s₁.calls, refl),
        all,
        le,
      )
