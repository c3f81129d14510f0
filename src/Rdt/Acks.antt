-- ===== src/Rdt/Acks.antt =====
-- `send_ack` of ReliableSocket.cpp.
use networking_projects.Base.{ℕ, ◌≡◌, true, List, arith}
use networking_projects.Rdt.Segment.{control_segment, header_bytes, rdt_ack}
use networking_projects.Rdt.Segment.Wire.{copy_to-control_segment}
use networking_projects.Rdt.State.{State, Os, Action, sent, ok, done}
use networking_projects.Rdt.Unreliable.{send}
use networking_projects.Rdt.Reliable.{to_buffer, send_ack}

-- The bytes of an ACK.
abbrev pub ack_bytes : ℕ → ℕ → List ℕ
ack_bytes pad n = header_bytes (control_segment pad 0 n rdt_ack).header

pub to_buffer-control_segment :
    (pad sequence_number ack_number type : ℕ) (s : State)
    → let seg = control_segment pad sequence_number ack_number type in
      to_buffer seg s ≡ ok (header_bytes seg.header) s
unfolding to_buffer
to_buffer-control_segment pad sequence_number ack_number type s =
    rw (copy_to-control_segment pad sequence_number ack_number type, to_buffer)

-- An ACK goes to a remote host that is known.
pub send_ack_lem :
    (os : Os) (n : ℕ) (s : State)
    → os.succeeds s.calls ≡ true
    → s.connected ≡ true
    → send_ack os n s ≡ ok tt (done (sent (ack_bytes (os.padding s.calls) n)) s)
unfolding send_ack send
send_ack_lem os n s up co =
    ground (arith, to_buffer-control_segment (os.padding s.calls) 0 n rdt_ack s)

-- The datagram is an ACK of the number, with any padding.
abbrev pub IsAck : ℕ → Action → Type 0
IsAck n a = (pad : ℕ) × (a ≡ sent (ack_bytes pad n))
