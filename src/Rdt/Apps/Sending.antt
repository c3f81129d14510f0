-- ===== src/Rdt/Apps/Sending.antt =====
-- The program sender.cpp as a whole: the handshake, the blocks of the file, and the closing.
use networking_projects.Base.{
  ℕ, suc, ◌-◌, ◌%◌, ◌^◌, ◌≤◌, ◌≡◌, refl, sym, ap, subst, ◌∙◌, true, false, List, [], ◌∷◌, ◌++◌,
  arith, length, replicate, All,
}
use networking_projects.Rdt.Clock.{Timeval, msec_to_timeval}
use networking_projects.Rdt.Segment.{Header, rdt_data, max_data_size, payload_segment}
use networking_projects.Rdt.Segment.Wire.{packet}
use networking_projects.Rdt.State.{
  State, Os, Event, Action, wait_send, init, closed, sent, shut, timeout_set, ok, bind, done,
  opened,
}
use networking_projects.Rdt.Acks.{ack_bytes}
use networking_projects.Rdt.Heard.{hits, misses, overlooks}
use networking_projects.Rdt.Unreliable.{construct}
use networking_projects.Rdt.Reliable.{new_socket}
use networking_projects.Rdt.Sender.{connect_to_remote}
use networking_projects.Rdt.Sender.Connect.{connect_to_remote-establishes}
use networking_projects.Rdt.Sender.Data.{data_segment, send_data-acked}
use networking_projects.Rdt.Closing.{close_connection}
use networking_projects.Rdt.Closing.Sides.{close_bytes, close_connection-sender}
use networking_projects.Rdt.Apps.{file_chunks, send_chunks, sender}
use networking_projects.Rdt.Apps.Chunks.{EndsWith, file_chunks_lem}

-- What the network may bring a sender of some blocks that is at the number `n`: for each block any
-- answers that are not its ACK, and then its ACK, under alternating numbers; and then `rest`.
pub data Answered (rest : List Event) : ℕ → List (List ℕ) → List Event → Type 0 where
  no_more : {n : ℕ} → Answered rest n [] rest
  acked :
      {n : ℕ} {chunk : List ℕ} {chunks : List (List ℕ)} {es : List Event} (quiet : List Event)
      (e : Event)
      → All (λ x. misses n x ≡ true) quiet
      → hits n e ≡ true
      → Answered rest ((257 - n) % 2 ^ 8) chunks es
      → Answered rest n (chunk ∷ chunks) (quiet ++ e ∷ es)

-- What was done between two logs: each block was sent, once or more and always as the same data
-- segment, under alternating numbers from `n` on, and the timeout was set after it.
pub data Sends : ℕ → List (List ℕ) → List Action → List Action → Type 0 where
  none_left : {n : ℕ} {log : List Action} → Sends n [] log log
  then_block :
      {n : ℕ} {chunk : List ℕ} {chunks : List (List ℕ)} {before after : List Action} (h : Header)
      (repeats : ℕ) (t : Timeval)
      → h.type ≡ rdt_data
      → h.sequence_number ≡ n
      → Sends
          ((257 - n) % 2 ^ 8)
          chunks
          (timeout_set t ∷ (replicate (suc repeats) (sent (packet h chunk)) ++ before))
          after
      → Sends n (chunk ∷ chunks) before after

module _ (os : Os) (up : (k : ℕ) → os.succeeds k ≡ true) (rest : List Event) where
  pub send_chunks-Sends :
      {n : ℕ} {chunks : List (List ℕ)} {es : List Event} (s : State)
      → s.state ≡ wait_send
      → s.connected ≡ true
      → s.sequence_number ≡ n
      → All (λ c. length c ≤ max_data_size) chunks
      → Answered rest n chunks es
      → (s' : State) × (send_chunks os chunks es s ≡ ok rest s')
        × (s'.state ≡ wait_send)
        × (s'.connected ≡ true)
        × Sends n chunks s.log s'.log
  unfolding send_chunks payload_segment
  send_chunks-Sends s st co sq small no_more = (s, refl, st, co, none_left)
  send_chunks-Sends {n} {chunks = chunk ∷ chunks} s st co sq small (acked {es} quiet e ms h later) =
      let (s₁, runs, st₁, sq₁, co₁, lo₁) =
        send_data-acked os chunk quiet e es s up st co small.0
          (subst (λ k. All (λ x. misses k x ≡ true) quiet) (sym sq) ms)
          (ap (λ k. hits k e) sq ∙ h) in
      let (s₂, runs₂, st₂, co₂, sends) =
        send_chunks-Sends {es = es} s₁ st₁ co₁ (sq₁ ∙ ap (λ k. (257 - k) % 2 ^ 8) sq) small.1
          later in
      (
        s₂,
        ap (λ r. bind r (λ left. send_chunks os chunks left)) runs ∙ runs₂,
        st₂,
        co₂,
        then_block (data_segment os chunk s).header (length quiet)
            (msec_to_timeval s₁.timeout_length) refl sq
            (subst (λ l. Sends ((257 - n) % 2 ^ 8) chunks l s₂.log) lo₁ sends),
      )

EndsWith-small :
    (n : ℕ) (chunks : List (List ℕ))
    → EndsWith n chunks
    → All (λ c. length c ≤ max_data_size) chunks
EndsWith-small n [] e = absurd e
EndsWith-small n (c ∷ []) e = (omega (arith, e.0, e.1), tt)
EndsWith-small n (c ∷ d ∷ chunks) e = (omega (arith, e.0), EndsWith-small n (d ∷ chunks) e.1)

-- The socket as the constructor leaves it.
pub new_socket-ok :
    (os : Os) (s : State)
    → ((k : ℕ) → os.succeeds k ≡ true)
    → (s' : State) × (new_socket os s ≡ ok tt s')
      × (s'.state ≡ init)
      × (s'.sequence_number ≡ 0)
      × (s'.connected ≡ false)
unfolding new_socket construct
new_socket-ok os s up =
    let s₁ : State = done opened (record s {
      self = record s.self { socket = record { timeout_length = 0; connected = false } };
    }) in
    (
      record s₁ {
        self = record s₁.self {
          state = init;
          sequence_number = 0;
          estimated_rtt = 200;
          dev_rtt = 10;
        };
      },
      rw (up s.calls, new_socket, construct) refl,
      refl,
      refl,
      refl,
    )

-- Let every call of the system succeed. Let the network answer sender.cpp first by any timeouts and
-- segments other than ACK 2 and then by ACK 2; then, for each block of the file, by any that are not
-- its ACK and then by its ACK; and then, after the blocks, by any that are not ACK 4 and then by ACK 4.
-- Then the program ends, CLOSED: after one ACK 3 it has sent the blocks of the file in their order,
-- each under the number that follows that of the block before, from 0 on, and at least once; then
-- RDT_CLOSE, once for each of the last answers; and it has given its descriptor back.
pub sender-Sends :
    (os : Os) (hostname port_num : ℕ) (contents : List ℕ) (quiet : List Event) (e : Event)
    (data_answers : List Event) (last_quiet : List Event) (last : Event) (rest : List Event)
    (s : State)
    → ((k : ℕ) → os.succeeds k ≡ true)
    → All (λ x. overlooks 2 x ≡ true) quiet
    → hits 2 e ≡ true
    → Answered (last_quiet ++ last ∷ rest) 0 (file_chunks contents) data_answers
    → All (λ x. misses 4 x ≡ true) last_quiet
    → hits 4 last ≡ true
    → (s' : State) × (before : List Action) × (after : List Action) × (pad : ℕ) × (pad' : ℕ)
      × (sender os hostname port_num contents (quiet ++ e ∷ data_answers) s ≡ ok rest s')
      × (s'.state ≡ closed)
      × Sends 0 (file_chunks contents) (sent (ack_bytes pad' 3) ∷ before) after
      × (s'.log ≡ shut ∷ (replicate (suc (length last_quiet)) (sent (close_bytes pad)) ++ after))
unfolding sender
sender-Sends os hostname port_num contents quiet e data_answers last_quiet last rest s up over h
      answered ms h' =
    let (s₁, made, st₁, sq₁, co₁) = new_socket-ok os s up in
    let (s₂, pad, pad', connects, st₂, co₂, sq₂, lo₂) =
      connect_to_remote-establishes os hostname port_num quiet e data_answers s₁ up st₁ over h in
    let small =
      EndsWith-small (length contents % max_data_size) (file_chunks contents)
        (file_chunks_lem contents).1 in
    let (s₃, sends, st₃, co₃, done_so) =
      send_chunks-Sends os up (last_quiet ++ last ∷ rest) s₂ st₂ co₂ (sq₂ ∙ sq₁) small answered in
    let (s₄, closes, st₄, lo₄) =
      close_connection-sender os last_quiet last rest s₃ up st₃ co₃ ms h' in
    (
      s₄,
      _,
      s₃.log,
      os.padding s₃.calls,
      pad',
      ap
            (λ r. bind r (λ u. λ t.
              bind (connect_to_remote os hostname port_num (quiet ++ e ∷ data_answers) t)
                (λ connected. λ t.
                  bind (send_chunks os (file_chunks contents) connected t)
                    (λ left. close_connection os left))))
            made
          ∙ ap
              (λ r. bind r (λ connected. λ t.
                bind (send_chunks os (file_chunks contents) connected t)
                  (λ left. close_connection os left)))
              connects
          ∙ ap (λ r. bind r (λ left. close_connection os left)) sends
          ∙ closes,
      st₄,
      subst (λ l. Sends 0 (file_chunks contents) l s₃.log) lo₂ done_so,
      lo₄,
    )
