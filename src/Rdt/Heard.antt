-- ===== src/Rdt/Heard.antt =====
-- What one answer of `recv` says to a loop of ReliableSocket.cpp that clears its buffer first.
use networking_projects.Base.{
  ℕ, ◌≡◌, Bool, true, false, not, ◌&&◌, Option, none, some, arith, ◌==◌, leb, if◌then◌else◌, length,
  min, List,
}
use networking_projects.Rdt.Segment.{
  Segment, of_bytes, segment_to_string, message_type_to_string, get_type, get_ack_number, rdt_ack,
  max_seg_size,
}
use networking_projects.Rdt.State.{State, Os, Event, datagram, again, broken, ok, halt, exited}
use networking_projects.Rdt.Unreliable.{overwrite, receive, received, connect_back}
use networking_projects.Rdt.Reliable.{blank, announce, parse}

-- The segment that a datagram is read as.
abbrev pub heard : Event → Option Segment
heard (datagram bytes) = if length bytes == 0 then none else of_bytes (overwrite bytes blank)
heard again = none
heard broken = none

-- The types that have a name.
abbrev pub is_known : Segment → Bool
is_known seg = leb (get_type seg) 3

abbrev pub is_ack_of : ℕ → Segment → Bool
is_ack_of n seg = get_type seg == rdt_ack && get_ack_number seg == n

-- The answer is the expected ACK.
abbrev pub hits : ℕ → Event → Bool
hits n e = elim (heard e) [ none ↦ false | some seg ↦ is_ack_of n seg ]

-- The answer is a timeout, or a segment of a known type other than the expected ACK.
abbrev pub misses : ℕ → Event → Bool
misses n again = true
misses n broken = false
misses n (datagram bytes) = elim (heard (datagram bytes)) [
  | none ↦ false
  | some seg ↦ is_known seg && not (is_ack_of n seg)
]

-- To make the text of a segment exits exactly if its type has no name.
pub announce_lem :
    (seg : Segment) (s : State) → announce seg s ≡ (if is_known seg then ok tt s else halt exited s)
unfolding announce segment_to_string message_type_to_string
announce_lem seg s = ground arith

pub heard_lem :
    (bytes : List ℕ) (seg : Segment)
    → heard (datagram bytes) ≡ some seg
    → ((length bytes == 0) ≡ false) × (of_bytes (overwrite bytes blank) ≡ some seg)
heard_lem bytes seg h = ground arith

pub misses-heard :
    (n : ℕ) (bytes : List ℕ)
    → misses n (datagram bytes) ≡ true
    → (seg : Segment) × (heard (datagram bytes) ≡ some seg)
      × (is_known seg ≡ true)
      × (is_ack_of n seg ≡ false)
misses-heard n bytes h = ground arith

pub hits-heard :
    (n : ℕ) (bytes : List ℕ)
    → hits n (datagram bytes) ≡ true
    → (seg : Segment) × (heard (datagram bytes) ≡ some seg)
      × (is_known seg ≡ true)
      × (is_ack_of n seg ≡ true)
hits-heard n bytes h = ground arith

module _ (os : Os) (bytes : List ℕ) (seg : Segment) (h : heard (datagram bytes) ≡ some seg) where
  -- A socket that knows its remote host takes the datagram and changes nothing.
  pub receive-heard :
      (s : State)
      → s.connected ≡ true
      → receive os (datagram bytes) blank s
        ≡ ok (received (min (length bytes) max_seg_size) (overwrite bytes blank)) s
  unfolding receive connect_back
  receive-heard s c = ground (arith, heard_lem bytes seg h)

  pub parse-heard : (s : State) → parse (overwrite bytes blank) s ≡ ok seg s
  unfolding parse
  parse-heard s = ground (arith, heard_lem bytes seg h)

-- The answer is a timeout, or a segment of any type that is not the expected ACK.
abbrev pub overlooks : ℕ → Event → Bool
overlooks n again = true
overlooks n broken = false
overlooks n (datagram bytes) = elim (heard (datagram bytes)) [
  | none ↦ false
  | some seg ↦ not (is_ack_of n seg)
]

pub overlooks-heard :
    (n : ℕ) (bytes : List ℕ)
    → overlooks n (datagram bytes) ≡ true
    → (seg : Segment) × (heard (datagram bytes) ≡ some seg) × (is_ack_of n seg ≡ false)
overlooks-heard n bytes h = ground arith
