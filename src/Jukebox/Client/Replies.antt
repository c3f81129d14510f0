-- ===== src/Jukebox/Client/Replies.antt =====
-- ConnectedClient::handle_input for each request, when the socket's buffer has room.
use networking_projects.Base.{
  ℕ, suc, ◌^◌, ◌<◌, ◌≡◌, ◌≢◌, Option, some, none, List, [], ◌∷◌, ◌++◌, length,
}
use networking_projects.Base.Decimal.{codes}
use networking_projects.Jukebox.Protocol.{
  make_header, htonl, to_byte_array, list_request, list_response, info_request, info_response,
  play_request, play_response, stop_request, error_response,
}
use networking_projects.Jukebox.SongLibrary.{
  SongLibrary, FilePath, get_song_file_path, get_info_file_path, get_song_list,
}
use networking_projects.Jukebox.State.{State, takes, Os, M, Result, ok}
use networking_projects.Jukebox.Client.{respond, info_text, play}
use networking_projects.Jukebox.Client.Sending.{Same}

-- Every call of `send` takes a byte or more.
abbrev pub Accepts : Os → Type 0
Accepts os = (c : ℕ) → (n : ℕ) × (os.answer c ≡ takes (suc n))

-- A call returned, and more bytes went over the wire.
abbrev pub SendsAll : List ℕ → State → Result (Unit {0}) → Type 0
SendsAll bytes s r = (t : State) × (r ≡ ok tt t) × (t.wire ≡ s.wire ++ bytes) × Same s t

-- The requests of the protocol, but the one to stop.
pub data Request : Type 0 where
  list_songs : Request
  song_info play_song : ℕ → Request
  unknown : ℕ → Request

abbrev pub word : ℕ → List ℕ
word n = (htonl n).byte0 ∷ (htonl n).byte1 ∷ (htonl n).byte2 ∷ (htonl n).byte3 ∷ []

-- The bytes in which a client sends a request.
abbrev pub request_bytes : Request → List ℕ
request_bytes list_songs = to_byte_array (make_header list_request 0)
request_bytes (song_info id) = to_byte_array (make_header info_request 4) ++ word id
request_bytes (play_song id) = to_byte_array (make_header play_request 4) ++ word id
request_bytes (unknown type) = to_byte_array (make_header type 0)

-- A message with its header.
abbrev pub frame : ℕ → List ℕ → List ℕ
frame type message = to_byte_array (make_header type (length message)) ++ message

abbrev pub contents_or_empty : Option (List ℕ) → List ℕ
contents_or_empty none = []
contents_or_empty (some contents) = contents

abbrev pub song_frame : Option (List ℕ) → Option (List ℕ)
song_frame none = none
song_frame (some contents) = some (frame play_response contents)

abbrev pub info_reply : Os → Option FilePath → Option (List ℕ)
info_reply os none = some (frame info_response (codes "No info available for this song"))
info_reply os (some path) = some (frame info_response (contents_or_empty (os.read_file path)))

abbrev pub song_reply : Os → Option FilePath → Option (List ℕ)
song_reply os none = some (frame error_response (codes "Invalid songID"))
song_reply os (some path) = song_frame (os.read_file path)

-- What the protocol replies to a request: a song, its text or the list, or an error. `none`: the
-- file of a song that the library lists is gone.
abbrev pub reply : Os → SongLibrary → Request → Option (List ℕ)
reply os library list_songs = some (frame list_response (get_song_list library))
reply os library (song_info id) = info_reply os (get_info_file_path library id)
reply os library (play_song id) = song_reply os (get_song_file_path library id)
reply os library (unknown type) = some (frame error_response (codes "Unknown Request Type"))

-- A request whose number fits in 32 bits, or whose type the server does not know.
abbrev pub IsWellFormed : Request → Type 0
IsWellFormed list_songs = Unit
IsWellFormed (song_info id) = id < 2 ^ 32
IsWellFormed (play_song id) = id < 2 ^ 32
IsWellFormed (unknown type) =
    (type ≢ list_request) × (type ≢ info_request) × (type ≢ play_request) × (type ≢ stop_request)

-- The branch of `handle_input` that a request takes.
abbrev pub branch : Os → Request → SongLibrary → M (Unit {0})
branch os list_songs library = respond os list_response (get_song_list library)
branch os (song_info id) library =
    respond os info_response (info_text os (get_info_file_path library id))
branch os (play_song id) library = play os (get_song_file_path library id)
branch os (unknown type) library = respond os error_response (codes "Unknown Request Type")
