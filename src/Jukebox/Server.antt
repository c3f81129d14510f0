-- ===== src/Jukebox/Server.antt =====
-- music-server.cpp: main, setup_new_client and event_loop, over the events that epoll reports. Messages to
-- the terminal are left out.
pub mod Clients
pub mod Keeping
pub mod Upkeep
pub mod Requests
pub mod Resuming
pub mod Events
pub mod Loop
pub mod Others
pub mod Stops
pub mod CommandLine
use networking_projects.Base.{
  ℕ, suc, ◌/◌, ◌%◌, Bool, true, false, Option, none, some, List, [], ◌∷◌, ◌==◌, if◌then◌else◌, ◌&&◌,
}
use networking_projects.Jukebox.SongLibrary.{SongLibrary, FilePath, scan_files}
use networking_projects.Jukebox.State.{
  receiving, State, Os, M, ok, halt, Result, Halt, exited, undefined,
}
use networking_projects.Jukebox.Networking.{
  checked, and_then, set_non_blocking, add_socket_to_epoll, setup_server_socket,
}
use networking_projects.Jukebox.Client.{handle_input, handle_close, resume_sending}

-- `map<int, ConnectedClient>`: each client with what the system did for it, by its descriptor.
pub record Server : Type 0 where
  pub clients : List (ℕ × State)
  pub calls : ℕ

-- What the loop is at: it goes on, or the program has stopped.
pub data Outcome : Type 0 where
  running : Server → Outcome
  stopped : Halt → Outcome

-- `struct epoll_event`, with what the system answers to an `accept` or a `recv` that handles it; the
-- answer is `none` where the call fails.
pub record Event : Type 0 where
  pub fd : ℕ
  pub events : ℕ
  pub accepted : Option ℕ
  pub received : Option (List ℕ)

-- EPOLLIN, EPOLLOUT and EPOLLRDHUP
abbrev pub epollin : ℕ
epollin = 1

abbrev pub epollout : ℕ
epollout = 4

abbrev pub epollrdhup : ℕ
epollrdhup = 8192

-- `(events & bit) != 0` for a power of 2.
abbrev pub has_bit : ℕ → ℕ → Bool
has_bit events bit = (events / bit) % 2 == 1

-- `operator[]`, `operator[] =` and `erase` of the map.
unfoldable pub lookup : ℕ → List (ℕ × State) → Option State
lookup k [] = none
lookup k ((j, s) ∷ clients) = elim (j == k) [ true ↦ some s | false ↦ lookup k clients ]

unfoldable pub insert : ℕ → State → List (ℕ × State) → List (ℕ × State)
insert k new [] = (k, new) ∷ []
insert k new ((j, s) ∷ clients) = elim (j == k) [
  | true ↦ (k, new) ∷ clients
  | false ↦ (j, s) ∷ insert k new clients
]

unfoldable pub erase : ℕ → List (ℕ × State) → List (ℕ × State)
erase k [] = []
erase k ((j, s) ∷ clients) = elim (j == k) [
  | true ↦ erase k clients
  | false ↦ (j, s) ∷ erase k clients
]

-- What an operation of a client left, put back into the map.
abbrev pub store : ℕ → List (ℕ × State) → Result (Unit {0}) → Outcome
store fd clients (ok a s) = running (record { clients = insert fd s clients; calls = s.calls })
store fd clients (halt h s) = stopped h

-- An operation of `clients[fd]`. Where the key is missing the map makes a client of descriptor -1
-- with null pointers; `missing` is how the operation ends on that.
unfoldable pub with_client : ℕ → M (Unit {0}) → Halt → Server → Outcome
unfolding lookup insert
with_client fd operation missing server = elim (lookup fd server.clients) [
  | none ↦ stopped missing
  | some s ↦ store fd server.clients (operation (record s { calls = server.calls }))
]

abbrev pub after : Outcome → (Server → Outcome) → Outcome
after (running server) next = next server
after (stopped h) next = stopped h

module _ (os : Os) (library : SongLibrary) (server_socket : ℕ) where
  -- The client that `setup_new_client` makes.
  abbrev pub new_client : ℕ → ℕ → State
  new_client client_fd calls = record {
    self = record {
      client_fd = client_fd;
      sender = none;
      state = receiving;
      song_library = some library;
    };
    calls = calls;
    wire = [];
    log = [];
  }

  -- The answer of `accept_connection` is the descriptor, or `none` where it exits.
  unfoldable pub setup_new_client : Option ℕ → Server → Outcome
  unfolding insert set_non_blocking add_socket_to_epoll
  setup_new_client none server = stopped exited
  setup_new_client (some client_fd) server =
      elim (and_then os (set_non_blocking os server.calls) (add_socket_to_epoll os)) [
        | none ↦ stopped exited
        | some calls ↦ running (record {
          clients = insert client_fd (new_client client_fd calls) server.clients;
          calls = calls;
        })
      ]

  -- `epoll_ctl` refuses the descriptor -1, so that a missing client ends the program.
  unfoldable pub close_event : ℕ → Server → Outcome
  unfolding with_client erase
  close_event fd server =
      after (with_client fd (handle_close os) exited server)
        (λ s. running (record s { clients = erase fd s.clients }))

  -- `recv` refuses the descriptor -1.
  unfoldable pub input_event : Event → Server → Outcome
  unfolding with_client setup_new_client
  input_event ev server =
      if ev.fd == server_socket
      then setup_new_client ev.accepted server
      else with_client ev.fd (handle_input os ev.received) exited server

  -- The sender of a missing client is null.
  unfoldable pub output_event : ℕ → Server → Outcome
  unfolding with_client
  output_event fd server = with_client fd (resume_sending os) undefined server

  -- The body of the loop over the events.
  unfoldable pub handle_event : Event → Server → Outcome
  unfolding close_event input_event output_event
  handle_event ev server =
      after
        (if has_bit ev.events epollrdhup
          then close_event ev.fd server
          else if has_bit ev.events epollin
          then input_event ev server
          else running server)
        (λ s. if has_bit ev.events epollout then output_event ev.fd s else running s)

  unfoldable pub handle_events : List Event → Server → Outcome
  unfolding handle_event
  handle_events [] server = running server
  handle_events (ev ∷ events) server = after (handle_event ev server) (handle_events events)

  -- The loop, by what each `epoll_wait` reports, `none` where it fails.
  unfoldable pub event_loop : List (Option (List Event)) → Server → Outcome
  unfolding handle_events
  event_loop [] server = running server
  event_loop (none ∷ waits) server = stopped exited
  event_loop (some events ∷ waits) server = after (handle_events events server) (event_loop waits)

-- `main` with its two arguments: whether the second one is a directory, and what it lists, are told by
-- the system. `epoll_create1` comes after the songs are scanned.
unfoldable pub main :
    Os → (FilePath → Bool) → Bool → List FilePath → ℕ → List (Option (List Event)) → Outcome
unfolding event_loop setup_server_socket add_socket_to_epoll
main os is_regular_file is_directory entries server_socket waits =
    let library =
      scan_files is_regular_file entries (record { song_files = []; info_files = [] }) in
    if is_directory
    then elim (and_then os (and_then os (setup_server_socket os 0) (checked os))
        (add_socket_to_epoll os)) [
          | none ↦ stopped exited
          | some calls ↦
              event_loop os library server_socket waits (record { clients = []; calls = calls })
        ]
    else stopped exited
