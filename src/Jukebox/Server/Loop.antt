-- ===== src/Jukebox/Server/Loop.antt =====
-- The loop of music-server.cpp: what every run keeps true of the clients, and what one event does.
use networking_projects.Base.{
  ℕ, ◌≡◌, ◌≢◌, refl, sym, ap, subst, ◌∙◌, Bool, true, Option, none, some, List, [], ◌∷◌, All,
}
use networking_projects.Jukebox.SongLibrary.{SongLibrary, FilePath, scan_files}
use networking_projects.Jukebox.State.{
  closed, removed, done, State, Os, M, Result, ok, halt, Halt, exited, undefined,
}
use networking_projects.Jukebox.Client.{control_epoll, watch_input, handle_close, resume_sending}
use networking_projects.Jukebox.Server.{
  Server, running, stopped, Event, epollout, epollrdhup, has_bit, lookup, insert, erase, store,
  with_client, close_event, output_event, handle_event, handle_events, event_loop, main,
}
use networking_projects.Jukebox.Networking.{
  checked, and_then, add_socket_to_epoll, setup_server_socket,
}
use networking_projects.Jukebox.Server.Clients.{All-lookup, lookup-erased}
use networking_projects.Jukebox.Server.Keeping.{Good}
use networking_projects.Jukebox.Server.Upkeep.{Consistent, watched, safely}
use networking_projects.Jukebox.Server.Resuming.{resume_sending-Good}
use networking_projects.Jukebox.Server.Events.{
  Goes, Goes-after, Goes-if, Goes-option, AllConsistent, handle_event-AllConsistent,
}

-- The server when `event_loop` starts.
abbrev pub no_clients : ℕ → Server
no_clients calls = record { clients = []; calls = calls }

pub with_client-found :
    (fd : ℕ) (operation : M (Unit {0})) (missing : Halt) (server : Server) (s : State)
    → lookup fd server.clients ≡ some s
    → with_client fd operation missing server
      ≡ store fd server.clients (operation (record s { calls = server.calls }))
unfolding with_client
with_client-found fd operation missing server s e = rw (e, with_client) refl

with_client-missing :
    (fd : ℕ) (operation : M (Unit {0})) (missing : Halt) (server : Server)
    → lookup fd server.clients ≡ none
    → with_client fd operation missing server ≡ stopped missing
unfolding with_client
with_client-missing fd operation missing server e = rw (e, with_client) refl

-- A client that operates without a null pointer does not stop the program by one.
store_is_defined :
    (os : Os) (library : SongLibrary) (fd : ℕ) (clients : List (ℕ × State)) (r : Result (Unit {0}))
    → Good (safely os library fd) r
    → store fd clients r ≢ stopped undefined
store_is_defined os library fd clients (ok a s) good e = absurd (cc)
store_is_defined os library fd clients (halt h s) good e = good (cc)

handle_close-ok :
    (os : Os) (s : State)
    → os.succeeds s.calls ≡ true
    → handle_close os s ≡ ok tt (done (closed s.client_fd) (done (removed s.client_fd) s))
unfolding handle_close control_epoll
handle_close-ok os s e = rw (e, handle_close, control_epoll) refl

module _ (os : Os) (library : SongLibrary) (server_socket : ℕ) where
  handle_events-AllConsistent :
      (events : List Event) (server : Server)
      → AllConsistent os library server_socket server
      → Goes
          (AllConsistent os library server_socket)
          (handle_events os library server_socket events server)
  unfolding handle_events
  handle_events-AllConsistent [] server u = u
  handle_events-AllConsistent (ev ∷ events) server u =
      Goes-after (AllConsistent os library server_socket) (AllConsistent os library server_socket)
        (handle_event os library server_socket ev server) _
        (handle_event-AllConsistent os library server_socket ev server u)
        (handle_events-AllConsistent events)

  loop_keeps :
      (waits : List (Option (List Event))) (server : Server)
      → AllConsistent os library server_socket server
      → Goes
          (AllConsistent os library server_socket)
          (event_loop os library server_socket waits server)
  unfolding event_loop
  loop_keeps [] server u = u
  loop_keeps (none ∷ waits) server u = tt
  loop_keeps (some events ∷ waits) server u =
      Goes-after (AllConsistent os library server_socket) (AllConsistent os library server_socket)
        (handle_events os library server_socket events server) _
        (handle_events-AllConsistent events server u) (loop_keeps waits)

  event_loop-Consistent :
      (calls : ℕ) (waits : List (Option (List Event))) (server : Server)
      → event_loop os library server_socket waits (no_clients calls) ≡ running server
      → All (λ e. Consistent library e.0 e.1) server.clients
  event_loop-Consistent calls waits server e =
      subst (Goes (AllConsistent os library server_socket)) e
        (loop_keeps waits (no_clients calls) tt)

  -- In the run of the server, an event that tells of output alone, for a client whose socket is watched
  -- for output, finds a sender: resume_sending uses no null pointer.
  pub handle_event-resumes :
      (calls : ℕ) (waits : List (Option (List Event))) (server : Server) (ev : Event) (s : State)
      → event_loop os library server_socket waits (no_clients calls) ≡ running server
      → lookup ev.fd server.clients ≡ some s
      → has_bit (watched s.log) epollout ≡ true
      → ev.events ≡ epollout
      → handle_event os library server_socket ev server ≢ stopped undefined
  unfolding handle_event output_event with_client
  handle_event-resumes calls waits server ev s run found out alone halted =
      let u = event_loop-Consistent calls waits server run in
      let c = All-lookup (λ e. Consistent library e.0 e.1) ev.fd server.clients s found u in
      let t : State = record s { calls = server.calls } in
      let is_output : handle_event os library server_socket ev server
          ≡ with_client ev.fd (resume_sending os) undefined server =
        rw (alone, handle_event) refl in
      let not_input : watched s.log ≢ watch_input =
        λ w. absurd (let b = sym out ∙ ap (λ m. has_bit m epollout) w in cc) in
      store_is_defined os library ev.fd server.clients (resume_sending os t)
        (resume_sending-Good os library ev.fd t
          (record { same_fd = c.same_fd; has_library = c.has_library; phase = c.phase }) not_input)
        (sym (with_client-found ev.fd (resume_sending os) undefined server s found)
          ∙ sym is_output
          ∙ halted)

  -- Let an event of a client in the map tell that it closed its connection and also that its socket
  -- takes output, and let its removal from epoll succeed. Then, whatever the client was at, it is
  -- erased first and its sender is used next: the program uses a null pointer.
  pub handle_event-erased :
      (server : Server) (ev : Event) (s : State)
      → lookup ev.fd server.clients ≡ some s
      → os.succeeds server.calls ≡ true
      → has_bit ev.events epollrdhup ≡ true
      → has_bit ev.events epollout ≡ true
      → handle_event os library server_socket ev server ≡ stopped undefined
  unfolding handle_event close_event output_event with_client
  handle_event-erased server ev s found succeeds hup out =
      let t : State = record s { calls = server.calls } in
      let u : State = done (closed s.client_fd) (done (removed s.client_fd) t) in
      let closes : with_client ev.fd (handle_close os) exited server
          ≡ running (record { clients = insert ev.fd u server.clients; calls = u.calls }) =
        with_client-found ev.fd (handle_close os) exited server s found
        ∙ ap (store ev.fd server.clients) (handle_close-ok os t succeeds) in
      let left : Server = record {
        clients = erase ev.fd (insert ev.fd u server.clients);
        calls = u.calls;
      } in
      let is_output : handle_event os library server_socket ev server
          ≡ with_client ev.fd (resume_sending os) undefined left =
        rw (hup, out, closes, handle_event) refl in
      is_output
      ∙ with_client-missing ev.fd (resume_sending os) undefined left
          (lookup-erased ev.fd (insert ev.fd u server.clients))

-- Whatever the directory lists, whatever the events are and whatever the system answers, as long as
-- the server runs each client of the map stands under its own descriptor and has the library of the
-- songs scanned, and either waits for requests, has no sender and is watched for input alone, or is
-- sending, has a sender and is watched for output too.
pub main-Consistent :
    (os : Os) (is_regular_file : FilePath → Bool) (is_directory : Bool) (entries : List FilePath)
    (server_socket : ℕ) (waits : List (Option (List Event))) (server : Server)
    → main os is_regular_file is_directory entries server_socket waits ≡ running server
    → All
        (λ e.
          Consistent
            (scan_files is_regular_file entries (record { song_files = []; info_files = [] }))
            e.0
            e.1)
        server.clients
unfolding main
main-Consistent os is_regular_file is_directory entries server_socket waits server e =
    let library =
      scan_files is_regular_file entries (record { song_files = []; info_files = [] }) in
    subst (Goes (AllConsistent os library server_socket)) e (
      Goes-if (AllConsistent os library server_socket) is_directory _ (stopped exited)
        (Goes-option (AllConsistent os library server_socket)
          (and_then os (and_then os (setup_server_socket os 0) (checked os))
            (add_socket_to_epoll os))
          (λ calls. event_loop os library server_socket waits (no_clients calls))
          (λ calls. loop_keeps os library server_socket waits (no_clients calls) tt))
        tt)
