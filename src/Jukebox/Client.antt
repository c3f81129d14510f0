-- ===== src/Jukebox/Client.antt =====
-- ConnectedClient.cpp: what the server does when a client sends a request, when its socket takes
-- bytes again, and when it closes. Messages to the terminal are left out.
pub mod Sending
pub mod Deliveries
pub mod Replies
use networking_projects.Base.{
  ℕ, zero, suc, Option, none, some, List, [], ◌∷◌, ◌++◌, leb, ◌==◌, if◌then◌else◌, length, drop,
}
use networking_projects.Base.Decimal.{codes}
use networking_projects.Jukebox.Protocol.{
  Header, make_header, read_header, unpack32, ntohl, get_type, get_len, to_byte_array, header_size,
  list_request, list_response, info_request, info_response, play_request, play_response,
  stop_request, error_response,
}
use networking_projects.Jukebox.SongLibrary.{
  SongLibrary, FilePath, get_song_file_path, get_info_file_path, get_song_list,
}
use networking_projects.Jukebox.State.{
  ChunkedDataSender, ClientState, receiving, sending, ConnectedClient, Action, modified, removed,
  shut_write, closed, State, Os, M, ok, halt, pure, stop, exited, uncaught, undefined, out_of_fuel,
  done, ◌>>=◌, ◌>>◌,
}
use networking_projects.Jukebox.Chunked.{
  Sent, count, would_block, array_sender, file_sender, remaining, send_next_chunk,
}

-- EPOLLIN | EPOLLRDHUP, and EPOLLIN | EPOLLOUT | EPOLLRDHUP
abbrev pub watch_input : ℕ
watch_input = 8193

abbrev pub watch_output : ℕ
watch_output = 8197

-- `this->state = ...; this->sender = ...`
abbrev pub set_sender : ClientState → Option ChunkedDataSender → M (Unit {0})
set_sender state sender s =
    ok tt (record s { self = record s.self { state = state; sender = sender } })

module _ (os : Os) where
  -- modify_socket_in_epoll and remove_socket_from_epoll
  unfoldable pub control_epoll : Action → M (Unit {0})
  control_epoll a s = if os.succeeds s.calls then ok tt (done a s) else halt exited s

  -- The loop `while ((num_bytes_sent = sender->send_next_chunk(fd)) > 0)`: the last value, and the
  -- sender. Each turn but the last sends a byte, so the fuel that its callers give is never used up.
  unfoldable pub send_loop : ℕ → ChunkedDataSender → M (Sent × ChunkedDataSender)
  send_loop zero sender = stop out_of_fuel
  send_loop (suc fuel) sender = do
    next ← send_next_chunk os sender
    elim next.0 [
      | count n ↦ if n == 0 then pure next else send_loop fuel next.1
      | would_block ↦ pure next
    ]

  unfoldable pub send_with_sender : ChunkedDataSender → M (Unit {0})
  unfolding control_epoll
  send_with_sender chunk_sender = do
    last ← send_loop (suc (remaining chunk_sender)) chunk_sender
    elim last.0 [
      | count n ↦ pure tt
      | would_block ↦ (λ s.
          (do set_sender sending (some last.1); control_epoll (modified s.client_fd watch_output))
            s)
    ]

  -- The two overloads of `send_message`; the size of a file that does not exist throws.
  unfoldable pub send_message : List ℕ → M (Unit {0})
  send_message data_to_send = send_with_sender (array_sender data_to_send)

  unfoldable pub send_file : FilePath → M (Unit {0})
  send_file file_path = elim (os.read_file file_path) [
    | none ↦ stop uncaught
    | some contents ↦ send_with_sender (file_sender contents)
  ]

  -- The header, then the message.
  unfoldable pub respond : ℕ → List ℕ → M (Unit {0})
  respond response_type message = do
    send_message (to_byte_array (make_header response_type (length message)))
    send_message message

  -- The song's number, which is 0 when the length field tells of fewer than four bytes. The copy
  -- reads past the bytes received when the length field tells of more than there are.
  unfoldable pub song_id : Header → List ℕ → M ℕ
  unfolding get_len
  song_id received_header payload =
      if leb 4 (get_len received_header)
      then elim (unpack32 payload) [ none ↦ stop undefined | some n ↦ pure (ntohl n) ]
      else pure 0

  -- The text of an info file; a file that cannot be opened reads as empty.
  unfoldable pub info_text : Option FilePath → List ℕ
  info_text none = codes "No info available for this song"
  info_text (some path) = elim (os.read_file path) [ none ↦ [] | some contents ↦ contents ]

  unfoldable pub play : Option FilePath → M (Unit {0})
  play none = respond error_response (codes "Invalid songID")
  play (some path) = elim (os.read_file path) [
    | none ↦ stop uncaught
    | some contents ↦ (do
      send_message (to_byte_array (make_header play_response (length contents)))
      send_file path)
  ]

  -- `if (this->state == SENDING)`
  unfoldable pub abandon : M (Unit {0})
  unfolding control_epoll
  abandon s = elim s.state [
    | receiving ↦ ok tt s
    | sending ↦ (do set_sender receiving none; control_epoll (modified s.client_fd watch_input)) s
  ]

  unfoldable pub stop_playing : M (Unit {0})
  unfolding abandon
  stop_playing = do abandon; λ s. ok tt (done (shut_write s.client_fd) s)

  -- A use of `song_library`, which may be null.
  unfoldable pub with_library : Option SongLibrary → (SongLibrary → M (Unit {0})) → M (Unit {0})
  with_library none use_it = stop undefined
  with_library (some library) use_it = use_it library

  -- The branches on the type of a request.
  unfoldable pub answer_request : Option SongLibrary → Header → List ℕ → M (Unit {0})
  unfolding song_id info_text play stop_playing get_type with_library
  answer_request library received_header payload =
      if get_type received_header == info_request
      then (do
        id ← song_id received_header payload
        with_library library
            (λ songs. respond info_response (info_text (get_info_file_path songs id))))
      else if get_type received_header == play_request
      then (do
        id ← song_id received_header payload
        with_library library (λ songs. play (get_song_file_path songs id)))
      else if get_type received_header == list_request
      then with_library library (λ songs. respond list_response (get_song_list songs))
      else if get_type received_header == stop_request
      then stop_playing
      else respond error_response (codes "Unknown Request Type")

  -- `received` is what `recv` answers: the bytes, or -1.
  unfoldable pub handle_input : Option (List ℕ) → M (Unit {0})
  unfolding answer_request
  handle_input none = stop exited
  handle_input (some undecoded) = elim (read_header undecoded) [
    | none ↦ stop undefined
    | some received_header ↦
        λ s. answer_request s.song_library received_header (drop header_size undecoded) s
  ]

  unfoldable pub handle_close : M (Unit {0})
  unfolding control_epoll
  handle_close s =
      (do control_epoll (removed s.client_fd); λ t. ok tt (done (closed t.client_fd) t)) s

  -- `resume_sending` with `this->sender`, which may be null.
  unfoldable pub resume_with : Option ChunkedDataSender → M (Unit {0})
  unfolding control_epoll
  resume_with none = stop undefined
  resume_with (some current) = do
    last ← send_loop (suc (remaining current)) current
    λ s. set_sender s.state (some last.1) s
    elim last.0 [
      | count n ↦ pure tt
      | would_block ↦ (do
        set_sender receiving none
        λ s. control_epoll (modified s.client_fd watch_input) s)
    ]

  unfoldable pub resume_sending : M (Unit {0})
  resume_sending s = resume_with s.sender s
