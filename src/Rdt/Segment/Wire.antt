-- ===== src/Rdt/Segment/Wire.antt =====
-- A segment of RDTSegment.cpp goes through its bytes unchanged.
use networking_projects.Base.{
  ℕ, ◌+◌, ◌^◌, ◌≤◌, ◌<◌, ◌≡◌, refl, ap, ◌∙◌, some, none, List, ◌++◌, append-nil, arith, length,
  length-append, length-replicate, drop, replicate, take_all, drop_all, take-append,
}
use networking_projects.Rdt.Segment.{
  Header, Span, Segment, htons, ntohs, control_segment, payload_segment, of_bytes, copy_to,
  copy_payload_to, header_bytes, header_size, max_data_size, get_total_size, get_payload_size,
}

pub ntohs-htons : (n : ℕ) → n < 2 ^ 16 → ntohs (htons n) ≡ n
unfolding ntohs htons
ntohs-htons n h = omega arith

-- The span of a whole array.
abbrev pub whole : List ℕ → Span
whole bytes = record { memory = bytes; size = length bytes }

-- The bytes of a segment, as they go over the network.
abbrev pub packet : Header → List ℕ → List ℕ
packet h payload = header_bytes h ++ payload

copy_to_lem :
    (h : Header) (payload destination : List ℕ)
    → header_size + length payload ≤ length destination
    → copy_to (record { header = h; payload = whole payload }) destination
      ≡ some (header_bytes h ++ (payload ++ drop (header_size + length payload) destination))
unfolding copy_to
copy_to_lem h payload destination fits = ground (arith, take_all (length payload) payload)

-- A vector of the segment's total size takes all of it and no more.
pub copy_to-total_size :
    (h : Header) (payload : List ℕ)
    → length payload ≤ max_data_size
    → let seg : Segment = record { header = h; payload = whole payload } in
      copy_to seg (replicate (get_total_size seg) 0) ≡ some (packet h payload)
copy_to-total_size h payload small =
    copy_to_lem h payload zeros (omega (arith, length-replicate {A = ℕ} total 0))
    ∙ ap (λ rest. some (header_bytes h ++ (payload ++ rest)))
        (drop_all (header_size + length payload) zeros
          (omega (arith, length-replicate {A = ℕ} total 0)))
    ∙ ap (λ b. some (header_bytes h ++ b)) (append-nil payload)
  where
    total : ℕ
    total = get_total_size (record { header = h; payload = whole payload })

    zeros : List ℕ
    zeros = replicate total 0

pub of_bytes-packet :
    (h : Header) (payload rest : List ℕ)
    → of_bytes (packet h payload ++ rest)
      ≡ some (record {
        header = h;
        payload = record { memory = payload ++ rest; size = ntohs h.payload_size };
      })
unfolding of_bytes
of_bytes-packet h payload rest = refl

pub copy_payload_to_lem :
    (h : Header) (payload rest buffer : List ℕ)
    → length payload ≤ length buffer
    → copy_payload_to
        (record {
          header = h;
          payload = record { memory = payload ++ rest; size = length payload };
        })
        buffer
      ≡ some (payload ++ drop (length payload) buffer)
unfolding copy_payload_to
copy_payload_to_lem h payload rest buffer fits =
    ground (arith, take-append payload rest, length-append payload rest)

-- A segment with a payload of at most MAX_DATA_SIZE bytes, copied into a vector of its total size
-- and read back with anything behind it, has the header that it had and the size of its payload, and
-- its payload copies into any buffer that holds it.
pub segment_roundtrip :
    (pad sequence_number ack_number type : ℕ) (payload rest buffer : List ℕ)
    → length payload ≤ max_data_size
    → length payload ≤ length buffer
    → let seg = payload_segment pad sequence_number ack_number type (whole payload) in
      (bytes : List ℕ) × (parsed : Segment) × (copy_to seg (replicate (get_total_size seg) 0)
        ≡ some bytes)
      × (length bytes ≡ get_total_size seg)
      × (of_bytes (bytes ++ rest) ≡ some parsed)
      × (parsed.header ≡ seg.header)
      × (get_payload_size parsed ≡ length payload)
      × (copy_payload_to parsed buffer ≡ some (payload ++ drop (length payload) buffer))
unfolding payload_segment
segment_roundtrip pad sequence_number ack_number type payload rest buffer small fits = (
  packet h payload,
  record { header = h; payload = record { memory = payload ++ rest; size = length payload } },
  copy_to-total_size h payload small,
  omega arith,
  of_bytes-packet h payload rest
      ∙ ap
          (λ n.
            some (record { header = h; payload = record { memory = payload ++ rest; size = n } }))
          (ntohs-htons (length payload) (omega arith)),
  refl,
  omega arith,
  copy_payload_to_lem h payload rest buffer fits,
)
  where
    h : Header
    h = (payload_segment pad sequence_number ack_number type (whole payload)).header

-- The bytes of a segment with no payload.
pub copy_to-control_segment :
    (pad sequence_number ack_number type : ℕ)
    → let seg = control_segment pad sequence_number ack_number type in
      copy_to seg (replicate (get_total_size seg) 0) ≡ some (header_bytes seg.header)
unfolding copy_to control_segment
copy_to-control_segment pad sequence_number ack_number type = refl

-- A segment whose size field claims more than its bytes hold cannot be copied out.
pub copy_payload_to_overrun :
    (seg : Segment) (buffer : List ℕ)
    → length seg.payload.memory < seg.payload.size
    → copy_payload_to seg buffer ≡ none
unfolding copy_payload_to
copy_payload_to_overrun seg buffer over = ground arith
