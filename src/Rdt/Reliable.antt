-- ===== src/Rdt/Reliable.antt =====
-- ReliableSocket.cpp: the constructor, the estimate of the round trip time, and what the handshake
-- and the transfer share.
pub mod Rtt
use networking_projects.Base.{
  ℕ, suc, ◌+◌, ◌-◌, ◌*◌, ◌/◌, ◌%◌, ◌^◌, List, none, some, ltb, if◌then◌else◌, replicate,
}
use networking_projects.Rdt.Clock.{timeval_to_msec}
use networking_projects.Rdt.Segment.{
  Segment, control_segment, of_bytes, copy_to, segment_to_string, get_total_size, max_seg_size,
  rdt_ack,
}
use networking_projects.Rdt.State.{
  Status, init, State, Os, M, ok, pure, stop, undefined, exited, ◌>>=◌, ◌>>◌, get,
}
use networking_projects.Rdt.Unreliable.{construct, set_timeout_length, send}

-- `array<uint8_t, MAX_SEG_SIZE>` after `fill(0)`
unfoldable pub blank : List ℕ
blank = replicate max_seg_size 0

abbrev pub set_state : Status → M (Unit {0})
set_state status s = ok tt (record s { self = record s.self { state = status } })

-- `RDTSegment seg(buffer)`
unfoldable pub parse : List ℕ → M Segment
parse buffer = elim (of_bytes buffer) [ none ↦ stop undefined | some seg ↦ pure seg ]

-- `LOG(...) << seg.to_string()`: the text is made whatever is logged, and to make it may exit.
unfoldable pub announce : Segment → M (Unit {0})
announce seg = elim (segment_to_string seg) [ none ↦ stop exited | some text ↦ pure tt ]

-- A vector of the segment's total size, and `copy_to` into it.
unfoldable pub to_buffer : Segment → M (List ℕ)
to_buffer seg = elim (copy_to seg (replicate (get_total_size seg) 0)) [
  | none ↦ stop undefined
  | some bytes ↦ pure bytes
]

-- `|a - b|` of two `int`s, where `a - b` was computed as `uint32_t`.
unfoldable pub abs_difference : ℕ → ℕ → ℕ
abs_difference a b = let d = (a + 2 ^ 32 - b) % 2 ^ 32 in if ltb d (2 ^ 31) then d else 2 ^ 32 - d

-- The weights are eighths and quarters, which a `double` holds exactly, as it does the sums; the
-- assignments to `int` drop the fraction.
abbrev pub next_estimate : ℕ → ℕ → ℕ
next_estimate estimated_rtt sample_rtt = (7 * estimated_rtt + sample_rtt) / 8

unfoldable pub next_deviation : ℕ → ℕ → ℕ → ℕ
unfolding abs_difference
next_deviation dev_rtt sample_rtt estimate = (3 * dev_rtt + abs_difference sample_rtt estimate) / 4

unfoldable pub get_estimated_rtt : State → ℕ
get_estimated_rtt s = s.estimated_rtt

module _ (os : Os) where
  unfoldable pub current_msec : M ℕ
  current_msec s = ok (timeval_to_msec (os.clock s.calls)) (record s { calls = suc s.calls })

  -- The constructor.
  unfoldable pub new_socket : M (Unit {0})
  new_socket = do
    construct os
    λ s. ok tt (record s {
      self = record s.self { state = init; sequence_number = 0; estimated_rtt = 200; dev_rtt = 10 };
    })

  abbrev pub timeout_of : State → ℕ
  timeout_of s = (s.estimated_rtt + 4 * s.dev_rtt) % 2 ^ 32

  unfoldable pub update_rtt : ℕ → M (Unit {0})
  update_rtt sample_rtt s =
      let estimate : ℕ = next_estimate s.estimated_rtt sample_rtt in
      let s' : State = record s {
        self = record s.self {
          estimated_rtt = estimate;
          dev_rtt = next_deviation s.dev_rtt sample_rtt estimate;
        };
      } in
      set_timeout_length os (timeout_of s') s'

  -- `this->socket.set_timeout_length(this->estimated_rtt + 4 * this->dev_rtt)`
  abbrev pub reset_timeout : M (Unit {0})
  reset_timeout s = set_timeout_length os (timeout_of s) s

  unfoldable pub send_ack : ℕ → M (Unit {0})
  send_ack ack_number = do
    s ← get
    buffer ← to_buffer (control_segment (os.padding s.calls) 0 ack_number rdt_ack)
    send os buffer
