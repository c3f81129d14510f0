-- ===== src/Jukebox/Server/Stops.antt =====
-- A request to stop, in an event of music-server.cpp's loop that also tells of output.
use networking_projects.Base.{ℕ, ◌≡◌, refl, ap, ◌∙◌, true, false, none, some, List, ◌==◌}
use networking_projects.Jukebox.Protocol.{Header, read_header, get_type, stop_request}
use networking_projects.Jukebox.SongLibrary.{SongLibrary}
use networking_projects.Jukebox.State.{
  State, Os, receiving, sending, modified, shut_write, done, ok, exited, undefined,
}
use networking_projects.Jukebox.Client.{
  watch_input, handle_input, answer_request, stop_playing, abandon, control_epoll, resume_sending,
  resume_with,
}
use networking_projects.Jukebox.Server.{
  Server, running, stopped, Event, epollin, epollout, epollrdhup, has_bit, lookup, insert, store,
  with_client, handle_event, input_event, output_event,
}
use networking_projects.Jukebox.Server.Clients.{lookup-inserted}
use networking_projects.Jukebox.Server.Loop.{with_client-found}

-- What a request to stop leaves of a client that was sending.
abbrev stopped_client : State → State
stopped_client s =
    let idle : State = record s { self = record s.self { state = receiving; sender = none } } in
    done (shut_write s.client_fd) (done (modified s.client_fd watch_input) idle)

stop_playing-ok :
    (os : Os) (s : State)
    → s.state ≡ sending
    → os.succeeds s.calls ≡ true
    → stop_playing os s ≡ ok tt (stopped_client s)
unfolding stop_playing abandon control_epoll
stop_playing-ok os s at e = rw (at, e, stop_playing, abandon, control_epoll) refl

handle_input-stops :
    (os : Os) (undecoded : List ℕ) (h : Header) (s : State)
    → read_header undecoded ≡ some h
    → get_type h ≡ stop_request
    → s.state ≡ sending
    → os.succeeds s.calls ≡ true
    → handle_input os (some undecoded) s ≡ ok tt (stopped_client s)
unfolding handle_input answer_request
handle_input-stops os undecoded h s is_header is_stop at e =
    rw (is_header, handle_input) (rw (is_stop, answer_request) (stop_playing-ok os s at e))

-- Let an event of a client in the map, which is not the server's socket and to which the server is
-- sending, bring a request to stop and also tell that the socket takes output, but not that the
-- connection was closed; and let the change of what epoll watches succeed. Then the sender is dropped
-- first and used next: the program uses a null pointer.
pub handle_event-stopped :
    (os : Os) (library : SongLibrary) (server_socket : ℕ) (server : Server) (ev : Event) (s : State)
    (undecoded : List ℕ) (h : Header)
    → lookup ev.fd server.clients ≡ some s
    → s.state ≡ sending
    → os.succeeds server.calls ≡ true
    → (ev.fd == server_socket) ≡ false
    → ev.received ≡ some undecoded
    → read_header undecoded ≡ some h
    → get_type h ≡ stop_request
    → has_bit ev.events epollrdhup ≡ false
    → has_bit ev.events epollin ≡ true
    → has_bit ev.events epollout ≡ true
    → handle_event os library server_socket ev server ≡ stopped undefined
unfolding handle_event input_event output_event resume_sending resume_with
handle_event-stopped os library server_socket server ev s undecoded h found at e not_server arrives
      is_header is_stop no_hup input output =
    let t : State = record s { calls = server.calls } in
    let u : State = stopped_client t in
    let stops : with_client ev.fd (handle_input os (some undecoded)) exited server
        ≡ running (record { clients = insert ev.fd u server.clients; calls = u.calls }) =
      with_client-found ev.fd (handle_input os (some undecoded)) exited server s found
      ∙ ap (store ev.fd server.clients)
          (handle_input-stops os undecoded h t is_header is_stop at e) in
    let left : Server = record { clients = insert ev.fd u server.clients; calls = u.calls } in
    let is_output : handle_event os library server_socket ev server
        ≡ with_client ev.fd (resume_sending os) undefined left =
      rw (no_hup, input, output, not_server, arrives, stops, handle_event, input_event) refl in
    is_output
    ∙ with_client-found ev.fd (resume_sending os) undefined left u
        (lookup-inserted ev.fd u server.clients)
