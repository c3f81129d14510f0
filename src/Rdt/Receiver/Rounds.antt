-- ===== src/Rdt/Receiver/Rounds.antt =====
-- One round of the loop of `receive_data` in ReliableSocket.cpp.
use networking_projects.Rdt.Acks.{ack_bytes, send_ack_lem}
use networking_projects.Base.{
  ℕ, ◌-◌, ◌%◌, ◌^◌, ◌≤◌, ◌≡◌, ◌≢◌, refl, ap, Bool, not, ◌&&◌, true, some, List, ◌∷◌, ◌++◌, arith,
  ◌==◌, if◌then◌else◌, length, take, drop, take_all, length-append, length-drop, length-take,
}
use networking_projects.Rdt.Segment.{
  Segment, Header, ntohs, rdt_data, rdt_close, max_data_size, max_seg_size,
}
use networking_projects.Rdt.Segment.Wire.{packet, of_bytes-packet, copy_payload_to_lem}
use networking_projects.Rdt.Receiver.{expected_seq}
use networking_projects.Rdt.State.{
  State, Os, Event, datagram, Status, wait_data0, wait_data1, closing, sent, ok, done,
}
use networking_projects.Rdt.Unreliable.{overwrite, receive, connect_back}
use networking_projects.Rdt.Reliable.{parse}
use networking_projects.Rdt.Heard.{announce_lem}
use networking_projects.Rdt.Receiver.{returns, again_with, handle_segment, data_round, alternate}

-- The other state waits for the other number.
pub expected_seq-alternate :
    (st : Status) (q : ℕ)
    → expected_seq st ≡ some q
    → expected_seq (alternate st) ≡ some ((257 - q) % 2 ^ 8)
expected_seq-alternate wait_data0 q h = ground arith
expected_seq-alternate wait_data1 q h = ground arith
expected_seq-alternate _ q h = cc

-- A packet read over a full buffer of MAX_SEG_SIZE bytes.
overwrite-packet :
    (h : Header) (payload buffer : List ℕ)
    → length buffer ≡ max_seg_size
    → length payload ≤ max_data_size
    → overwrite (packet h payload) buffer
      ≡ packet h payload ++ drop (length (packet h payload)) buffer
unfolding overwrite
overwrite-packet h payload buffer full small =
    ap (λ l. l ++ drop (length (packet h payload)) buffer)
      (take_all (length buffer) (packet h payload) (omega arith))

pub length-overwrite :
    (bytes buffer : List ℕ)
    → length bytes ≤ length buffer
    → length (overwrite bytes buffer) ≡ length buffer
unfolding overwrite
length-overwrite bytes buffer fits = omega (
  arith,
  length-append (take (length buffer) bytes) (drop (length bytes) buffer),
  length-take (length buffer) bytes,
  length-drop (length bytes) buffer,
)

-- A well-formed segment: its size field is its payload's size, and its type has a name.
pub record IsWellFormed (h : Header) (payload : List ℕ) : Type 0 where
  pub fits : length payload ≤ max_data_size
  pub sized : ntohs h.payload_size ≡ length payload
  pub named : h.type ≤ 3

-- The segment that a packet is read as, with what the buffer held behind it.
abbrev pub read_as : Header → List ℕ → List ℕ → Segment
read_as h payload buffer = record {
  header = h;
  payload = record {
    memory = payload ++ drop (length (packet h payload)) buffer;
    size = length payload;
  };
}

module _ (os : Os) (up : (k : ℕ) → os.succeeds k ≡ true) (q : ℕ) (target : List ℕ) where
  -- A round that gets a packet is what `handle_segment` makes of it, and the buffer stays full.
  pub data_round-packet :
      (h : Header) (payload buffer : List ℕ) (s : State)
      → IsWellFormed h payload
      → length buffer ≡ max_seg_size
      → s.connected ≡ true
      → data_round os q target buffer (datagram (packet h payload)) s
        ≡ handle_segment os q target
            (overwrite (packet h payload) buffer)
            (read_as h payload buffer)
            s
  unfolding data_round receive connect_back parse
  data_round-packet h payload buffer s w full co = ground (
    arith,
    overwrite-packet h payload buffer full w.fits,
    of_bytes-packet h payload (drop (length (packet h payload)) buffer),
    announce_lem (read_as h payload buffer) s,
  )

  -- A segment that is not the one waited for, and does not close.
  abbrev pub passes : Header → Bool
  passes h = not (h.type == rdt_close) && not (h.type == rdt_data && h.sequence_number == q)

  abbrev pub other : ℕ
  other = (257 - q) % 2 ^ 8

  pub handle_segment-passes :
      (h : Header) (payload buffer next : List ℕ) (s : State)
      → s.connected ≡ true
      → passes h ≡ true
      → handle_segment os q target next (read_as h payload buffer) s
        ≡ ok
            (again_with next)
            (if h.type == rdt_data then done (sent (ack_bytes (os.padding s.calls) other)) s else s)
  unfolding handle_segment
  handle_segment-passes h payload buffer next s co p =
      ground (arith, send_ack_lem os other s (up s.calls) co)

  pub handle_segment-delivers :
      (h : Header) (payload buffer next : List ℕ) (s : State)
      → IsWellFormed h payload
      → s.connected ≡ true
      → h.type ≡ rdt_data
      → h.sequence_number ≡ q
      → length payload ≤ length target
      → (s' : State) × (handle_segment os q target next (read_as h payload buffer) s
          ≡ ok (returns (length payload) (payload ++ drop (length payload) target)) s')
        × (s'.state ≡ alternate s.state)
        × (s'.connected ≡ true)
        × (s'.log ≡ sent (ack_bytes (os.padding s.calls) q) ∷ s.log)
  unfolding handle_segment
  handle_segment-delivers h payload buffer next s w co ty sq fits =
      let s₁ : State = done (sent (ack_bytes (os.padding s.calls) q)) s in
      (
        record s₁ { self = record s₁.self { state = alternate s.state } },
        ground (
          arith,
          w.fits,
          send_ack_lem os q s (up s.calls) co,
          copy_payload_to_lem h payload (drop (length (packet h payload)) buffer) target fits,
        ),
        refl,
        co,
        refl,
      )

  pub handle_segment-closes :
      (h : Header) (payload buffer next : List ℕ) (s : State)
      → s.connected ≡ true
      → h.type ≡ rdt_close
      → (s' : State) × (handle_segment os q target next (read_as h payload buffer) s
          ≡ ok (returns 0 target) s')
        × (s'.state ≡ closing)
        × (s'.connected ≡ true)
        × (s'.log ≡ sent (ack_bytes (os.padding s.calls) 4) ∷ s.log)
  unfolding handle_segment
  handle_segment-closes h payload buffer next s co ty =
      let s₁ : State = done (sent (ack_bytes (os.padding s.calls) 4)) s in
      (
        record s₁ { self = record s₁.self { state = closing } },
        ground (arith, send_ack_lem os 4 s (up s.calls) co),
        refl,
        co,
        refl,
      )

-- A datagram that holds a segment.
abbrev pub arrives : Header × List ℕ → Event
arrives (h, payload) = datagram (packet h payload)

abbrev pub Passes : ℕ → Header × List ℕ → Type 0
Passes q (h, payload) =
    IsWellFormed h payload × (h.type ≢ rdt_close) × (h.type ≡ rdt_data → h.sequence_number ≢ q)
