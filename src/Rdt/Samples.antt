-- ===== src/Rdt/Samples.antt =====
-- Values that the tests of the transport library share.
use networking_projects.Base.{ℕ, ◌*◌, ◌≤◌, true, false, [], ◌∷◌, arith}
use networking_projects.Rdt.Segment.{Header, ntohs}
use networking_projects.Rdt.State.{Status, init, State, Os, Event, datagram}
use networking_projects.Rdt.Receiver.Rounds.{IsWellFormed}

-- A system on which everything succeeds, and whose clock moves by 5 ms a call.
abbrev pub fine : Os
fine = record {
  succeeds = λ _. true;
  clock = λ k. record { tv_sec = 1; tv_usec = 5000 * k };
  padding = λ _. 7;
}

abbrev pub at_status : Status → State
at_status status = record {
  self = record {
    socket = record { timeout_length = 240; connected = true };
    state = status;
    sequence_number = 0;
    estimated_rtt = 200;
    dev_rtt = 10;
  };
  calls = 3;
  log = [];
}

abbrev pub fresh : State
fresh = record {
  self = record {
    socket = record { timeout_length = 0; connected = false };
    state = init;
    sequence_number = 0;
    estimated_rtt = 200;
    dev_rtt = 10;
  };
  calls = 1;
  log = [];
}

-- Segments with no payload, as bytes: type, sequence number and ACK number.
abbrev pub plain : ℕ → ℕ → ℕ → Event
plain type sequence_number ack_number =
    datagram (sequence_number ∷ ack_number ∷ type ∷ 7 ∷ 0 ∷ 0 ∷ [])

abbrev pub ack : ℕ → Event
ack n = plain 1 0 n

abbrev pub header : ℕ → ℕ → ℕ → Header
header type sequence_number size = record {
  sequence_number = sequence_number;
  ack_number = 0;
  type = type;
  padding = 7;
  payload_size = record { high = 0; low = size };
}

pub header-IsWellFormed :
    (type sequence_number b : ℕ) → type ≤ 3 → IsWellFormed (header type sequence_number 1) (b ∷ [])
unfolding ntohs
header-IsWellFormed type sequence_number b h = record {
  fits = omega arith;
  sized = omega arith;
  named = h;
}

pub header-IsWellFormed_nil :
    (type sequence_number : ℕ) → type ≤ 3 → IsWellFormed (header type sequence_number 0) []
unfolding ntohs
header-IsWellFormed_nil type sequence_number h = record {
  fits = omega arith;
  sized = omega arith;
  named = h;
}
