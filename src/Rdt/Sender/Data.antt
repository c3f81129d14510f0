-- ===== src/Rdt/Sender/Data.antt =====
-- `send_data` of ReliableSocket.cpp as a whole.
use networking_projects.Base.{
  ℕ, suc, ◌-◌, ◌%◌, ◌^◌, ◌≤◌, ◌≡◌, refl, ap, true, List, ◌∷◌, ◌++◌, arith, ◌==◌, if◌then◌else◌,
  length, replicate, All,
}
use networking_projects.Rdt.Clock.{msec_to_timeval}
use networking_projects.Rdt.Segment.{
  Segment, Span, Header, payload_segment, rdt_data, max_data_size,
}
use networking_projects.Rdt.Segment.Wire.{whole, packet, copy_to-total_size}
use networking_projects.Rdt.State.{
  State, Os, Event, wait_send, wait_ack0, wait_ack1, sent, timeout_set, ok,
}
use networking_projects.Rdt.State.{bind-eq-ok}
use networking_projects.Base.{false}
use networking_projects.Rdt.Sender.Acked.{ack_loop-hits}
use networking_projects.Rdt.Sender.{is_wait_send}
use networking_projects.Rdt.Reliable.{announce, to_buffer}
use networking_projects.Rdt.Heard.{hits, misses, announce_lem}
use networking_projects.Rdt.Sender.{send_until_acked, send_data}
use networking_projects.Rdt.Sender.Acked.{ack_loop-returns}

-- The segment that `send_data` makes of its argument.
abbrev pub data_segment : Os → List ℕ → State → Segment
data_segment os payload s =
    payload_segment (os.padding s.calls) s.sequence_number 0 rdt_data (whole payload)

pub to_buffer_lem :
    (h : Header) (payload : List ℕ) (t : State)
    → length payload ≤ max_data_size
    → to_buffer (record { header = h; payload = whole payload }) t ≡ ok (packet h payload) t
unfolding to_buffer
to_buffer_lem h payload t small = rw (copy_to-total_size h payload small, to_buffer)

pub send_data-acked :
    (os : Os) (payload : List ℕ) (quiet : List Event) (e : Event) (rest : List Event) (s : State)
    → ((k : ℕ) → os.succeeds k ≡ true)
    → s.state ≡ wait_send
    → s.connected ≡ true
    → length payload ≤ max_data_size
    → All (λ x. misses s.sequence_number x ≡ true) quiet
    → hits s.sequence_number e ≡ true
    → (s' : State) × (send_data os (whole payload) (quiet ++ e ∷ rest) s ≡ ok rest s')
      × (s'.state ≡ wait_send)
      × (s'.sequence_number ≡ (257 - s.sequence_number) % 2 ^ 8)
      × (s'.connected ≡ true)
      × (s'.log
          ≡ timeout_set (msec_to_timeval s'.timeout_length)
            ∷ (replicate
                  (suc (length quiet))
                  (sent (packet (data_segment os payload s).header payload))
                ++ s.log))
unfolding send_data send_until_acked payload_segment
send_data-acked os payload quiet e rest s up st co small ms hs =
    let seg = data_segment os payload s in
    let s₁ : State = record s {
      self = record s.self { state = if s.sequence_number == 0 then wait_ack0 else wait_ack1 };
    } in
    let (s₂, runs, st₂, sq₂, co₂, lo₂) =
      ack_loop-returns os up seg (packet seg.header payload) s.sequence_number quiet e rest s₁ co ms
        hs in
    (
      record s₂ {
        self = record s₂.self {
          sequence_number = (257 - s₂.sequence_number) % 2 ^ 8;
          state = wait_send;
        };
      },
      ground (arith, announce_lem seg s₁, to_buffer_lem seg.header payload s₁ small, runs),
      refl,
      ap (λ k. (257 - k) % 2 ^ 8) sq₂,
      co₂,
      lo₂,
    )

-- `send_data` returns from WAIT_SEND only after an answer that is the ACK of its sequence number,
-- whatever the system does; it is then in WAIT_SEND again and has the other sequence number, which is
-- 1 less the old one in eight bits.
pub send_data-hits :
    (os : Os) (buffer : Span) (es rest : List Event) (s s' : State)
    → s.state ≡ wait_send
    → send_data os buffer es s ≡ ok rest s'
    → (quiet : List Event) × (e : Event) × (es ≡ quiet ++ e ∷ rest)
      × (hits s.sequence_number e ≡ true)
      × (s'.state ≡ wait_send)
      × (s'.sequence_number ≡ (257 - s.sequence_number) % 2 ^ 8)
unfolding send_data send_until_acked payload_segment
send_data-hits os buffer es rest s s' st r =
    let seg = payload_segment (os.padding s.calls) s.sequence_number 0 rdt_data buffer in
    let s₁ : State = record s {
      self = record s.self { state = if s.sequence_number == 0 then wait_ack0 else wait_ack1 };
    } in
    let (left, s₂, sends, after) = bind-eq-ok (send_until_acked os seg es s₁) _ (rw st at r) in
    let (u, s₃, named, on) = bind-eq-ok (announce seg s₁) _ sends in
    let (bytes, s₄, copied, loop) = bind-eq-ok (to_buffer seg s₃) _ on in
    let (quiet, e, split, hit, kept) =
      ack_loop-hits os seg bytes s.sequence_number es left s₄ s₂ loop in
    let told : s₃.sequence_number ≡ s.sequence_number = unfold announce in ground arith in
    let same : s₄.sequence_number ≡ s₃.sequence_number = unfold to_buffer in ground arith in
    (quiet, e, ground arith, hit, ground arith, ground arith)

-- In any other state nothing is sent and nothing changes.
pub send_data_refused :
    (os : Os) (buffer : Span) (es : List Event) (s : State)
    → is_wait_send s.state ≡ false
    → send_data os buffer es s ≡ ok es s
unfolding send_data
send_data_refused os buffer es s st = rw st
