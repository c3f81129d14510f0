-- ===== src/Jukebox/ServerTests.antt =====
-- The loop of the music server on concrete events.
use networking_projects.Base.{
  ◌≡◌, ◌≢◌, refl, true, false, Option, none, some, some-injective, List, [], ◌∷◌, All, arith,
}
use networking_projects.Base.Decimal.{codes, to_string}
use networking_projects.Jukebox.SongLibrary.{
  SongLibrary, scan_files, get_song_list, drop_newline, list_lines,
}
use networking_projects.Jukebox.State.{sending, State, Os, full, undefined}
use networking_projects.Base.Paths.{filename}
use networking_projects.Jukebox.Protocol.{
  Header, get_type, stop_request, read_header, to_byte_array, unpack32, make_header,
}
use networking_projects.Jukebox.Chunked.{send_next_chunk, array_sender}
use networking_projects.Jukebox.Client.{
  handle_input, respond, send_message, send_with_sender, send_loop,
}
use networking_projects.Jukebox.Client.Replies.{unknown, list_songs, request_bytes}
use networking_projects.Jukebox.Server.{
  Server, Outcome, running, stopped, Event, epollout, has_bit, lookup, new_client, handle_event,
  event_loop,
}
use networking_projects.Jukebox.Server.Upkeep.{Consistent, watched}
use networking_projects.Jukebox.Server.Loop.{no_clients, handle_event-resumes, handle_event-erased}
use networking_projects.Jukebox.Server.CommandLine.{start, start-Consistent}
use networking_projects.Jukebox.Server.Stops.{handle_event-stopped}
use networking_projects.Jukebox.Server.Others.{handle_event-others}

abbrev library : SongLibrary
library = record { song_files = (0, codes "a.mp3") ∷ []; info_files = [] }

-- A system whose sockets take no bytes.
abbrev stalled : Os
stalled = record { answer = λ c. full; succeeds = λ c. true; read_file = λ p. none }

-- A connection, which gets the descriptor 5, and its request for the list of songs.
abbrev connects : Event
connects = record { fd = 3; events = 1; accepted = some 5; received = none }

abbrev asks : Event
asks = record { fd = 5; events = 1; accepted = none; received = some (request_bytes list_songs) }

abbrev resumes : Event
resumes = record { fd = 5; events = 4; accepted = none; received = none }

abbrev hangs_up : Event
hangs_up = record { fd = 5; events = 8196; accepted = none; received = none }

abbrev server_of : Outcome → Server
server_of (running server) = server
server_of (stopped h) = no_clients 0

abbrev waits : List (Option (List Event))
waits = some (connects ∷ []) ∷ some (asks ∷ []) ∷ []

unfoldable asked : Server
unfolding event_loop
asked = server_of (event_loop stalled library 3 waits (no_clients 0))

run : event_loop stalled library 3 waits (no_clients 0) ≡ running asked
unfolding event_loop asked handle_input read_header to_byte_array unpack32 make_header respond
    send_message send_with_sender send_loop send_next_chunk array_sender get_song_list drop_newline
    list_lines to_string filename
run = refl

abbrev client_of : Option State → State
client_of none = new_client stalled library 3 5 0
client_of (some s) = s

unfoldable client : State
unfolding asked lookup
client = client_of (lookup 5 asked.clients)

found : lookup 5 asked.clients ≡ some client
unfolding event_loop asked client lookup handle_input read_header to_byte_array unpack32 make_header
    respond send_message send_with_sender send_loop send_next_chunk array_sender get_song_list
    drop_newline list_lines to_string filename
found = refl

is_watched : has_bit (watched client.log) epollout ≡ true
unfolding event_loop asked client lookup handle_input read_header to_byte_array unpack32 make_header
    respond send_message send_with_sender send_loop send_next_chunk array_sender get_song_list
    drop_newline list_lines to_string filename
is_watched = refl

abbrev asks_in_vain : Event
asks_in_vain = record asks { received = some (request_bytes (unknown 77)) }

-- The whole program on a directory with one song.
unfoldable started : Server
unfolding start
started = server_of (
    start stalled (λ p. false) (λ p. true) (λ p. codes "m/a.mp3" ∷ []) 3
      (codes "7000" ∷ codes "m" ∷ []) (some (connects ∷ asks_in_vain ∷ []) ∷ []))

abbrev scanned : SongLibrary
scanned =
    scan_files (λ p. false) (codes "m/a.mp3" ∷ []) (record { song_files = []; info_files = [] })

starts :
    start stalled
      (λ p. false)
      (λ p. true)
      (λ p. codes "m/a.mp3" ∷ [])
      3
      (codes "7000" ∷ codes "m" ∷ [])
      (some (connects ∷ asks_in_vain ∷ []) ∷ [])
    ≡ running started
unfolding start started handle_input read_header to_byte_array unpack32 make_header respond
    send_message send_with_sender send_loop send_next_chunk array_sender
starts = refl

start-Consistent_example : All (λ e. Consistent scanned e.0 e.1) started.clients
start-Consistent_example =
    start-Consistent stalled (λ p. false) (λ p. true) (λ p. codes "m/a.mp3" ∷ []) 3 (codes "7000")
      (codes "m") (some (connects ∷ asks_in_vain ∷ []) ∷ []) started starts

handle_event-resumes_example : handle_event stalled library 3 resumes asked ≢ stopped undefined
handle_event-resumes_example =
    handle_event-resumes stalled library 3 0 waits asked resumes client run found is_watched refl

handle_event-erased_example : handle_event stalled library 3 hangs_up asked ≡ stopped undefined
handle_event-erased_example =
    handle_event-erased stalled library 3 asked hangs_up client found refl refl refl

-- A second client, with the descriptor 6, while the first one is sending.
abbrev connects_too : Event
connects_too = record { fd = 3; events = 1; accepted = some 6; received = none }

unfoldable joined : Server
unfolding handle_event asked
joined = server_of (handle_event stalled library 3 connects_too asked)

joins : handle_event stalled library 3 connects_too asked ≡ running joined
unfolding event_loop handle_event joined asked handle_input read_header to_byte_array unpack32
    make_header respond send_message send_with_sender send_loop send_next_chunk array_sender
    get_song_list drop_newline list_lines to_string filename
joins = refl

handle_event-others_example : lookup 5 joined.clients ≡ lookup 5 asked.clients
handle_event-others_example =
    handle_event-others stalled library 3 connects_too asked joined 5 joins
      (λ e. absurd (omega arith)) (λ e. absurd (omega (arith, some-injective e)))

-- A request to stop, while the list waits to be sent and the socket takes bytes again.
abbrev stop_header : Header
stop_header = record {
  type = stop_request;
  len = record { byte0 = 0; byte1 = 0; byte2 = 0; byte3 = 0 };
}

abbrev stops : Event
stops = record {
  fd = 5;
  events = 5;
  accepted = none;
  received = some (stop_request ∷ 0 ∷ 0 ∷ 0 ∷ 0 ∷ []);
}

is_sending : client.state ≡ sending
unfolding event_loop asked client lookup handle_input read_header to_byte_array unpack32 make_header
    respond send_message send_with_sender send_loop send_next_chunk array_sender get_song_list
    drop_newline list_lines to_string filename
is_sending = refl

is_stop_header : read_header (stop_request ∷ 0 ∷ 0 ∷ 0 ∷ 0 ∷ []) ≡ some stop_header
unfolding read_header unpack32
is_stop_header = refl

is_stop : get_type stop_header ≡ stop_request
unfolding get_type
is_stop = refl

handle_event-stopped_example : handle_event stalled library 3 stops asked ≡ stopped undefined
handle_event-stopped_example =
    handle_event-stopped stalled library 3 asked stops client (stop_request ∷ 0 ∷ 0 ∷ 0 ∷ 0 ∷ [])
      stop_header found is_sending refl refl refl is_stop_header is_stop refl refl refl
