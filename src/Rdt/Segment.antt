-- ===== src/Rdt/Segment.antt =====
-- RDTSegment.h and RDTSegment.cpp: the header and the payload of a segment, and its bytes.
pub mod Wire
use networking_projects.Base.{
  ℕ, ◌+◌, ◌*◌, ◌/◌, ◌%◌, ◌^◌, ◌&&◌, Option, none, some, List, [], ◌∷◌, ◌++◌, ◌==◌, leb,
  if◌then◌else◌, length, take, drop,
}
use networking_projects.Base.Decimal.{codes, to_string}

-- `enum RDTMessageType : uint8_t`. A byte from the network may hold any other value.
abbrev pub rdt_data : ℕ
rdt_data = 0

abbrev pub rdt_ack : ℕ
rdt_ack = 1

abbrev pub rdt_conn : ℕ
rdt_conn = 2

abbrev pub rdt_close : ℕ
rdt_close = 3

abbrev pub max_seg_size : ℕ
max_seg_size = 1400

-- A `uint16_t` in network order, by the two bytes that it has in memory.
pub record Net16 : Type 0 where
  pub high : ℕ
  pub low : ℕ

-- `htons` and `ntohs`; a wider argument is cut to 16 bits by the call.
unfoldable pub htons : ℕ → Net16
htons n = record { high = n % 2 ^ 16 / 256; low = n % 256 }

unfoldable pub ntohs : Net16 → ℕ
ntohs n = n.high * 256 + n.low

-- `padding` is the byte that the compiler leaves between `type` and `payload_size`: the code never
-- sets it, and copies it with the rest.
pub record Header : Type 0 where
  pub sequence_number : ℕ
  pub ack_number : ℕ
  pub type : ℕ
  pub padding : ℕ
  pub payload_size : Net16

-- `sizeof(RDTHeader)`
abbrev pub header_size : ℕ
header_size = 6

abbrev pub max_data_size : ℕ
max_data_size = 1394

-- A `std::span`: the memory from its first byte to the end of the array, and its size, which
-- nothing holds to that memory.
pub record Span : Type 0 where
  pub memory : List ℕ
  pub size : ℕ

pub record Segment : Type 0 where
  pub header : Header
  pub payload : Span

-- The constructor with no payload. `pad` is the indeterminate padding byte.
unfoldable pub control_segment : (pad sequence_number ack_number type : ℕ) → Segment
unfolding htons
control_segment pad sequence_number ack_number type = record {
  header = record {
    sequence_number = sequence_number;
    ack_number = ack_number;
    type = type;
    padding = pad;
    payload_size = htons 0;
  };
  payload = record { memory = []; size = 0 };
}

-- The constructor with a payload.
unfoldable pub payload_segment : (pad sequence_number ack_number type : ℕ) → Span → Segment
unfolding htons
payload_segment pad sequence_number ack_number type payload = record {
  header = record {
    sequence_number = sequence_number;
    ack_number = ack_number;
    type = type;
    padding = pad;
    payload_size = htons payload.size;
  };
  payload = payload;
}

-- The constructor from bytes. `none`: the header is read past the end of `source`.
unfoldable pub of_bytes : List ℕ → Option Segment
unfolding ntohs
of_bytes (s ∷ a ∷ t ∷ p ∷ high ∷ low ∷ rest) =
    let size : Net16 = record { high = high; low = low } in
    some (record {
      header = record {
        sequence_number = s;
        ack_number = a;
        type = t;
        padding = p;
        payload_size = size;
      };
      payload = record { memory = rest; size = ntohs size };
    })
of_bytes _ = none

abbrev pub header_bytes : Header → List ℕ
header_bytes h =
    h.sequence_number ∷ h.ack_number ∷ h.type ∷ h.padding ∷ h.payload_size.high ∷ h.payload_size.low
    ∷ []

-- `none`: a byte is read past the payload's memory or written past the destination.
unfoldable pub copy_to : Segment → List ℕ → Option (List ℕ)
copy_to seg destination =
    if leb seg.payload.size (length seg.payload.memory)
      && leb (header_size + seg.payload.size) (length destination)
    then some (
        header_bytes seg.header
        ++ (take seg.payload.size seg.payload.memory
            ++ drop (header_size + seg.payload.size) destination))
    else none

unfoldable pub copy_payload_to : Segment → List ℕ → Option (List ℕ)
copy_payload_to seg destination =
    if leb seg.payload.size (length seg.payload.memory) && leb seg.payload.size (length destination)
    then some (take seg.payload.size seg.payload.memory ++ drop seg.payload.size destination)
    else none

abbrev pub get_sequence_number : Segment → ℕ
get_sequence_number seg = seg.header.sequence_number

abbrev pub get_ack_number : Segment → ℕ
get_ack_number seg = seg.header.ack_number

abbrev pub get_type : Segment → ℕ
get_type seg = seg.header.type

abbrev pub get_total_size : Segment → ℕ
get_total_size seg = (header_size + seg.payload.size) % 2 ^ 16

abbrev pub get_payload_size : Segment → ℕ
get_payload_size seg = seg.payload.size % 2 ^ 16

-- `none`: the program logs "Unknown message type" and exits.
unfoldable pub message_type_to_string : ℕ → Option (List ℕ)
message_type_to_string type =
    if type == rdt_conn
    then some (codes "RDT_CONN")
    else if type == rdt_ack
    then some (codes "RDT_ACK")
    else if type == rdt_data
    then some (codes "RDT_DATA")
    else if type == rdt_close
    then some (codes "RDT_CLOSE")
    else none

unfoldable pub segment_to_string : Segment → Option (List ℕ)
unfolding message_type_to_string ntohs
segment_to_string seg = elim (message_type_to_string seg.header.type) [
  | none ↦ none
  | some name ↦ some (
      codes "{"
      ++ (name
          ++ (codes ": seq="
              ++ (to_string seg.header.sequence_number
                  ++ (codes ", ack="
                      ++ (to_string seg.header.ack_number
                          ++ (codes ", payload="
                              ++ (to_string (ntohs seg.header.payload_size)
                                  ++ codes " bytes}"))))))))
]
