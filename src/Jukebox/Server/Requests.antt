-- ===== src/Jukebox/Server/Requests.antt =====
-- What ConnectedClient.cpp's handle_input keeps true of a client.
use networking_projects.Base.{ℕ, suc, sym, subst, Option, none, some, List, ◌==◌, leb, drop, length}
use networking_projects.Base.Decimal.{codes}
use networking_projects.Jukebox.Protocol.{
  Header, make_header, get_len, get_type, unpack32, read_header, to_byte_array, error_response,
  play_response, info_response, list_response, info_request, play_request, list_request,
  stop_request, header_size,
}
use networking_projects.Jukebox.SongLibrary.{
  SongLibrary, FilePath, get_song_file_path, get_info_file_path, get_song_list,
}
use networking_projects.Jukebox.State.{
  ChunkedDataSender, ClientState, receiving, sending, modified, Os, Result, ok, ◌>>◌,
}
use networking_projects.Jukebox.Chunked.{remaining, file_sender, array_sender}
use networking_projects.Jukebox.Client.{
  watch_input, set_sender, control_epoll, send_loop, send_with_sender, send_message, send_file,
  respond, song_id, info_text, play, abandon, stop_playing, with_library, answer_request,
  handle_input,
}
use networking_projects.Jukebox.Server.Keeping.{
  Good, Keeps, then_Keeps, if_Keeps, option_Keeps, sent_Keeps, send_loop-Keeps,
}
use networking_projects.Jukebox.Server.Upkeep.{promise, kept-Good, dropped-Good}

module _ (os : Os) (library : SongLibrary) (fd : ℕ) where
  send_with_sender-Keeps :
      (sender : ChunkedDataSender) → Keeps (promise os library fd) (send_with_sender os sender)
  unfolding send_with_sender
  send_with_sender-Keeps sender =
      then_Keeps (promise os library fd) (send_loop os (suc (remaining sender)) sender) _
        (send_loop-Keeps os (promise os library fd) (suc (remaining sender)) sender)
        (λ last.
          sent_Keeps (promise os library fd) last.0 _ _ (λ n s c. c)
            (λ s c. kept-Good os library fd last.1 s c))

  send_message-Keeps : (bytes : List ℕ) → Keeps (promise os library fd) (send_message os bytes)
  unfolding send_message
  send_message-Keeps bytes = send_with_sender-Keeps (array_sender bytes)

  send_file-Keeps : (path : FilePath) → Keeps (promise os library fd) (send_file os path)
  unfolding send_file
  send_file-Keeps path =
      option_Keeps (promise os library fd) (os.read_file path) _ _ (λ s c. tt)
        (λ contents. send_with_sender-Keeps (file_sender contents))

  respond-Keeps :
      (type : ℕ) (message : List ℕ) → Keeps (promise os library fd) (respond os type message)
  unfolding respond
  respond-Keeps type message =
      then_Keeps (promise os library fd)
        (send_message os (to_byte_array (make_header type (length message)))) _
        (send_message-Keeps (to_byte_array (make_header type (length message))))
        (λ u. send_message-Keeps message)

  play-Keeps : (path : Option FilePath) → Keeps (promise os library fd) (play os path)
  unfolding play
  play-Keeps none = respond-Keeps error_response (codes "Invalid songID")
  play-Keeps (some path) =
      option_Keeps (promise os library fd) (os.read_file path) _ _ (λ s c. tt)
        (λ contents.
          then_Keeps (promise os library fd)
            (send_message os (to_byte_array (make_header play_response (length contents)))) _
            (send_message-Keeps (to_byte_array (make_header play_response (length contents))))
            (λ u. send_file-Keeps path))

  abandon-Keeps : Keeps (promise os library fd) (abandon os)
  unfolding abandon
  abandon-Keeps s c = go s.state
    where
      go :
          (st : ClientState)
          → Good {0} (promise os library fd) {A = Unit {0}} (elim st as (λ x. Result (Unit {0})) [
            | receiving ↦ ok tt s
            | sending ↦
                (set_sender receiving none >> control_epoll os (modified s.client_fd watch_input)) s
          ])
      go receiving = c
      go sending =
          dropped-Good os library fd (promise os library fd) (λ t d. d) s c.same_fd c.has_library

  stop_playing-Keeps : Keeps (promise os library fd) (stop_playing os)
  unfolding stop_playing
  stop_playing-Keeps =
      then_Keeps (promise os library fd) (abandon os) _ abandon-Keeps
        (λ u s c. record { same_fd = c.same_fd; has_library = c.has_library; phase = c.phase })

  song_id-Keeps :
      (h : Header) (payload : List ℕ) → Keeps (promise os library fd) (song_id os h payload)
  unfolding song_id get_len
  song_id-Keeps h payload =
      if_Keeps (promise os library fd) (leb 4 (get_len h)) _ _
        (option_Keeps (promise os library fd) (unpack32 payload) _ _ (λ s c. tt) (λ n s c. c))
        (λ s c. c)

  answer_request-Keeps :
      (h : Header) (payload : List ℕ)
      → Keeps (promise os library fd) (answer_request os (some library) h payload)
  unfolding answer_request with_library
  answer_request-Keeps h payload =
      if_Keeps (promise os library fd) (get_type h == info_request) _ _
        (then_Keeps (promise os library fd) (song_id os h payload) _ (song_id-Keeps h payload)
          (λ id. respond-Keeps info_response (info_text os (get_info_file_path library id))))
        (if_Keeps (promise os library fd) (get_type h == play_request) _ _
          (then_Keeps (promise os library fd) (song_id os h payload) _ (song_id-Keeps h payload)
            (λ id. play-Keeps (get_song_file_path library id)))
          (if_Keeps (promise os library fd) (get_type h == list_request) _ _
            (respond-Keeps list_response (get_song_list library))
            (if_Keeps (promise os library fd) (get_type h == stop_request) _ _ stop_playing-Keeps
              (respond-Keeps error_response (codes "Unknown Request Type")))))

  pub handle_input-Keeps :
      (received : Option (List ℕ)) → Keeps (promise os library fd) (handle_input os received)
  unfolding handle_input
  handle_input-Keeps none = λ s c. tt
  handle_input-Keeps (some undecoded) =
      option_Keeps (promise os library fd) (read_header undecoded) _ _ (λ s c. tt)
        (λ h s c.
          subst
            (λ l.
              Good (promise os library fd) (answer_request os l h (drop header_size undecoded) s))
            (sym c.has_library) (answer_request-Keeps h (drop header_size undecoded) s c))
