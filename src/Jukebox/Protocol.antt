-- ===== src/Jukebox/Protocol.antt =====
-- protocol.h and protocol.cpp: the types of the messages, and the header before each.
use networking_projects.Base.{
  ℕ, ◌+◌, ◌*◌, ◌/◌, ◌%◌, ◌^◌, ◌≡◌, refl, Option, none, some, List, [], ◌∷◌, ◌++◌, length, arith,
}

-- `enum message_type : uint8_t`. A byte from the network may hold any other value.
abbrev pub list_request : ℕ
list_request = 0

abbrev pub list_response : ℕ
list_response = 1

abbrev pub info_request : ℕ
info_request = 2

abbrev pub info_response : ℕ
info_response = 3

abbrev pub play_request : ℕ
play_request = 4

abbrev pub play_response : ℕ
play_response = 5

abbrev pub stop_request : ℕ
stop_request = 6

abbrev pub error_response : ℕ
error_response = 255

-- A `uint32_t` in network order, by the bytes that it has in memory.
pub record Net32 : Type 0 where
  pub byte0 : ℕ
  pub byte1 : ℕ
  pub byte2 : ℕ
  pub byte3 : ℕ

-- `htonl` and `ntohl`; a wider argument is cut to 32 bits by the call.
unfoldable pub htonl : ℕ → Net32
htonl n = record {
  byte0 = n / 2 ^ 24 % 256;
  byte1 = n / 2 ^ 16 % 256;
  byte2 = n / 2 ^ 8 % 256;
  byte3 = n % 256;
}

unfoldable pub ntohl : Net32 → ℕ
ntohl n = n.byte0 * 2 ^ 24 + n.byte1 * 2 ^ 16 + n.byte2 * 2 ^ 8 + n.byte3

pub record Header : Type 0 where
  pub type : ℕ
  pub len : Net32

-- `Header::size`
abbrev pub header_size : ℕ
header_size = 5

-- The constructor from a type and a length.
unfoldable pub make_header : ℕ → ℕ → Header
make_header type len = record { type = type; len = htonl len }

-- `unpack<uint32_t>`: the four bytes at the front. `none`: they are read past the end of the span.
unfoldable pub unpack32 : List ℕ → Option Net32
unpack32 (a ∷ b ∷ c ∷ d ∷ rest) = some (record { byte0 = a; byte1 = b; byte2 = c; byte3 = d })
unpack32 _ = none

-- The constructor from bytes. `none`: the header is read past the end of the span.
unfoldable pub read_header : List ℕ → Option Header
read_header [] = none
read_header (t ∷ rest) = elim (unpack32 rest) [
  | none ↦ none
  | some n ↦ some (record { type = t; len = n })
]

unfoldable pub get_type : Header → ℕ
get_type h = h.type

unfoldable pub get_len : Header → ℕ
get_len h = ntohl h.len

unfoldable pub to_byte_array : Header → List ℕ
to_byte_array h = h.type ∷ h.len.byte0 ∷ h.len.byte1 ∷ h.len.byte2 ∷ h.len.byte3 ∷ []

-- Any length survives up to 2 ^ 32, beyond which it is cut.
pub ntohl-htonl : (n : ℕ) → ntohl (htonl n) ≡ n % 2 ^ 32
unfolding ntohl htonl
ntohl-htonl n = omega arith

-- A header made of a type and a length and written as bytes takes five, and read back from the
-- front of any bytes it is the same, with its type, and its length modulo 2 ^ 32.
header_roundtrip :
    (type len : ℕ) (rest : List ℕ)
    → let h = make_header type len in
      (length (to_byte_array h) ≡ header_size)
      × (read_header (to_byte_array h ++ rest) ≡ some h)
      × (get_type h ≡ type)
      × (get_len h ≡ len % 2 ^ 32)
unfolding make_header to_byte_array read_header unpack32 get_type get_len
header_roundtrip type len rest = (refl, refl, refl, ntohl-htonl len)
