-- ===== src/Rdt/Link.antt =====
-- The two sides of ReliableSocket.cpp after the handshake, joined by two channels that keep the order
-- of the datagrams, and may lose or repeat any of them. A step is a part of `send_data` or of
-- `receive_data`, as Rdt/Sender and Rdt/Receiver model them: the start of `send_data`, a transmission, an answer that
-- ends the wait for it, or a datagram that the receiver takes.
pub mod Sides
pub mod Agreement
pub mod Turns
pub mod SenderMoves
pub mod ReceiverMoves
pub mod Reach
pub mod Refinement
use networking_projects.Base.{
  ℕ, suc, ◌-◌, ◌≤◌, ◌≡◌, Bool, true, false, Option, some, List, [], ◌∷◌, ◌++◌, ◌==◌, if◌then◌else◌,
  length, take,
}
use networking_projects.Base.Zones.{lose, repeat_at}
use networking_projects.Rdt.Segment.{Header, Segment, max_data_size}
use networking_projects.Rdt.Segment.Wire.{whole, packet}
use networking_projects.Rdt.State.{
  wait_send, wait_ack0, wait_ack1, Action, sent, State, Os, Event, datagram, again, ok, ◌>>◌,
}
use networking_projects.Rdt.Unreliable.{set_timeout_length}
use networking_projects.Rdt.Reliable.{blank, set_state}
use networking_projects.Rdt.Sender.{ack_round, flip_sequence}
use networking_projects.Rdt.Sender.Data.{data_segment}
use networking_projects.Rdt.Receiver.{returns, again_with, data_round, expected_seq}

-- What the sender is about: between two calls of `send_data`, before a transmission of a segment, or
-- in `receive` after it.
pub data Phase : Type 0 where
  idle : Phase
  sends waits : Header → List ℕ → Phase

-- `segment` is the array that receiver.cpp gives to `receive_data`, `received` the buffer inside it.
-- `accepted` and `delivered` are the blocks that `send_data` was called with and that `receive_data`
-- returned, the oldest first.
pub record Link : Type 0 where
  pub sender : State
  pub phase : Phase
  pub receiver : State
  pub segment : List ℕ
  pub received : List ℕ
  pub forward : List (List ℕ)
  pub backward : List (List ℕ)
  pub accepted : List (List ℕ)
  pub delivered : List (List ℕ)

-- The datagrams among some actions, the oldest first.
abbrev pub datagrams : List Action → List (List ℕ)
datagrams [] = []
datagrams (sent b ∷ more) = datagrams more ++ b ∷ []
datagrams (a ∷ more) = datagrams more

-- What was sent on the way from one state to a later one.
unfoldable pub newly_sent : State → State → List (List ℕ)
newly_sent s t = datagrams (take (length t.log - length s.log) t.log)

-- The answer of the sender's `recv`: a timeout, or the oldest datagram of the channel.
pub data Answer (channel : List (List ℕ)) : Event → List (List ℕ) → Type 0 where
  timeout : Answer channel again channel
  arrival :
      (b : List ℕ) (rest : List (List ℕ)) → channel ≡ b ∷ rest → Answer channel (datagram b) rest

abbrev pub segment_of : Header → List ℕ → Segment
segment_of h payload = record { header = h; payload = whole payload }

-- `os` is the sender's system, and `os'` the receiver's.
pub data Step (os os' : Os) : Link → Link → Type 0 where
  -- `send_data` is called.
  accepts :
      (l : Link) (payload : List ℕ) (t : State)
      → l.phase ≡ idle
      → length payload ≤ max_data_size
      → set_state (if l.sender.sequence_number == 0 then wait_ack0 else wait_ack1) l.sender
        ≡ ok tt t
      → Step os os' l (record l {
        sender = t;
        phase = sends (data_segment os payload l.sender).header payload;
        accepted = l.accepted ++ payload ∷ [];
      })
  -- A round of `ack_loop` starts: the segment is sent.
  transmits :
      (l : Link) (h : Header) (payload : List ℕ)
      → l.phase ≡ sends h payload
      → Step os os' l
          (record l { phase = waits h payload; forward = l.forward ++ packet h payload ∷ [] })
  -- The round ends without the expected ACK.
  misses_ack :
      (l : Link) (h : Header) (payload : List ℕ) (e : Event) (rest : List (List ℕ)) (t : State)
      → l.phase ≡ waits h payload
      → Answer l.backward e rest
      → ack_round os (segment_of h payload) (packet h payload) h.sequence_number e l.sender
        ≡ ok false t
      → Step os os' l (record l { sender = t; phase = sends h payload; backward = rest })
  -- The round ends with the expected ACK, and `send_data` returns.
  hears_ack :
      (l : Link) (h : Header) (payload : List ℕ) (e : Event) (rest : List (List ℕ)) (t u : State)
      → l.phase ≡ waits h payload
      → Answer l.backward e rest
      → ack_round os (segment_of h payload) (packet h payload) h.sequence_number e l.sender
        ≡ ok true t
      → (flip_sequence >> set_state wait_send) t ≡ ok tt u
      → Step os os' l (record l { sender = u; phase = idle; backward = rest })
  -- A round of `receive_data` that goes on.
  passes_over :
      (l : Link) (q : ℕ) (b : List ℕ) (rest : List (List ℕ)) (next : List ℕ) (t : State)
      → expected_seq l.receiver.state ≡ some q
      → l.forward ≡ b ∷ rest
      → data_round os' q l.segment l.received (datagram b) l.receiver ≡ ok (again_with next) t
      → Step os os' l (record l {
        receiver = t;
        received = next;
        forward = rest;
        backward = l.backward ++ newly_sent l.receiver t;
      })
  -- A round in which `receive_data` returns a block; receiver.cpp calls it again at once.
  delivers :
      (l : Link) (q : ℕ) (b : List ℕ) (rest : List (List ℕ)) (count : ℕ) (filled : List ℕ)
      (t u : State)
      → expected_seq l.receiver.state ≡ some q
      → l.forward ≡ b ∷ rest
      → data_round os' q l.segment l.received (datagram b) l.receiver ≡ ok (returns count filled) t
      → set_timeout_length os' 0 t ≡ ok tt u
      → Step os os' l (record l {
        receiver = u;
        segment = filled;
        received = blank;
        forward = rest;
        backward = l.backward ++ newly_sent l.receiver t;
        delivered = l.delivered ++ take count filled ∷ [];
      })
  -- A channel loses or repeats a datagram.
  loses_forward : (l : Link) (i : ℕ) → Step os os' l (record l { forward = lose i l.forward })
  repeats_forward :
      (l : Link) (i : ℕ) → Step os os' l (record l { forward = repeat_at i l.forward })
  loses_backward : (l : Link) (i : ℕ) → Step os os' l (record l { backward = lose i l.backward })
  repeats_backward :
      (l : Link) (i : ℕ) → Step os os' l (record l { backward = repeat_at i l.backward })

-- Any number of steps.
pub data Steps (os os' : Os) (start : Link) : Link → Type 0 where
  stays : Steps os os' start start
  then_step : {l l' : Link} → Steps os os' start l → Step os os' l l' → Steps os os' start l'
