-- ===== src/Jukebox/Server/Others.antt =====
-- What an event of music-server.cpp's loop leaves of the other clients.
use networking_projects.Base.{
  ℕ, ◌≡◌, ◌≢◌, refl, sym, ap, subst, ◌∙◌, Option, none, some, ◌==◌, if◌then◌else◌,
}
use networking_projects.Jukebox.SongLibrary.{SongLibrary}
use networking_projects.Jukebox.State.{State, Os, M, Result, ok, halt, Halt, exited, undefined}
use networking_projects.Jukebox.Client.{handle_input, handle_close, resume_sending}
use networking_projects.Jukebox.Server.{
  Server, running, Event, epollin, epollout, epollrdhup, has_bit, lookup, insert, store,
  with_client, new_client, setup_new_client, close_event, input_event, output_event, handle_event,
}
use networking_projects.Jukebox.Networking.{and_then, set_non_blocking, add_socket_to_epoll}
use networking_projects.Jukebox.Server.Clients.{lookup-insert, lookup-erase}
use networking_projects.Jukebox.Server.Events.{
  Goes, Goes-after, Goes-if, Goes-option, Goes-with_client,
}

module _ (other : ℕ) (found : Option State) where
  -- What the map holds under another descriptor.
  abbrev Holds : Server → Type 0
  Holds server = lookup other server.clients ≡ found

  store-Holds :
      (fd : ℕ) (server : Server) (r : Result (Unit {0}))
      → other ≢ fd
      → Holds server
      → Goes Holds (store fd server.clients r)
  store-Holds fd server (ok a s) apart h = lookup-insert fd other s server.clients apart ∙ h
  store-Holds fd server (halt e s) apart h = tt

  with_client-Holds :
      (fd : ℕ) (operation : M (Unit {0})) (missing : Halt) (server : Server)
      → other ≢ fd
      → Holds server
      → Goes Holds (with_client fd operation missing server)
  with_client-Holds fd operation missing server apart h =
      Goes-with_client Holds fd operation missing server
        (λ s e. store-Holds fd server (operation (record s { calls = server.calls })) apart h)

  module _ (os : Os) (library : SongLibrary) (server_socket : ℕ) where
    setup_new_client-Holds :
        (accepted : Option ℕ) (server : Server)
        → accepted ≢ some other
        → Holds server
        → Goes Holds (setup_new_client os library server_socket accepted server)
    unfolding setup_new_client
    setup_new_client-Holds none server apart h = tt
    setup_new_client-Holds (some client_fd) server apart h =
        Goes-option Holds (and_then os (set_non_blocking os server.calls) (add_socket_to_epoll os))
          (λ calls. running (record {
            clients =
                insert client_fd (new_client os library server_socket client_fd calls)
                  server.clients;
            calls = calls;
          }))
          (λ calls.
            lookup-insert client_fd other (new_client os library server_socket client_fd calls)
              server.clients (λ e. apart (ap some (sym e)))
            ∙ h)

    handle_event-Holds :
        (ev : Event) (server : Server)
        → other ≢ ev.fd
        → ev.accepted ≢ some other
        → Holds server
        → Goes Holds (handle_event os library server_socket ev server)
    unfolding handle_event close_event input_event output_event
    handle_event-Holds ev server apart fresh h =
        Goes-after Holds Holds
          (if has_bit ev.events epollrdhup
            then close_event os library server_socket ev.fd server
            else if has_bit ev.events epollin
            then input_event os library server_socket ev server
            else running server)
          (λ s.
            if has_bit ev.events epollout
            then output_event os library server_socket ev.fd s
            else running s)
          (Goes-if Holds (has_bit ev.events epollrdhup) _ _
            (Goes-after Holds Holds (with_client ev.fd (handle_close os) exited server) _
              (with_client-Holds ev.fd (handle_close os) exited server apart h)
              (λ s v. lookup-erase ev.fd other s.clients apart ∙ v))
            (Goes-if Holds (has_bit ev.events epollin) _ (running server)
              (Goes-if Holds (ev.fd == server_socket) _ _
                (setup_new_client-Holds ev.accepted server fresh h)
                (with_client-Holds ev.fd (handle_input os ev.received) exited server apart h))
              h))
          (λ s v.
            Goes-if Holds (has_bit ev.events epollout) _ (running s)
              (with_client-Holds ev.fd (resume_sending os) undefined s apart v) v)

-- When the server goes on after an event, the map holds under every other descriptor what it held
-- before, a client with its sender and the bytes that its socket took, or none. Other is a descriptor
-- that is neither the event's nor that of the connection it may bring.
pub handle_event-others :
    (os : Os) (library : SongLibrary) (server_socket : ℕ) (ev : Event) (server after_it : Server)
    (other : ℕ)
    → handle_event os library server_socket ev server ≡ running after_it
    → other ≢ ev.fd
    → ev.accepted ≢ some other
    → lookup other after_it.clients ≡ lookup other server.clients
handle_event-others os library server_socket ev server after_it other e apart fresh =
    subst (Goes (Holds other (lookup other server.clients))) e (
      handle_event-Holds other (lookup other server.clients) os library server_socket ev server
        apart fresh refl)
