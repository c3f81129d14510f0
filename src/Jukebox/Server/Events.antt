-- ===== src/Jukebox/Server/Events.antt =====
-- One event of music-server.cpp's loop, by what it keeps true of the clients.
use networking_projects.Base.{
  ℕ, ◌≡◌, refl, Bool, true, false, Option, none, some, ◌==◌, if◌then◌else◌, All, inl,
}
use networking_projects.Jukebox.SongLibrary.{SongLibrary}
use networking_projects.Jukebox.State.{State, Os, M, Result, ok, halt, Halt, exited, undefined}
use networking_projects.Jukebox.Client.{handle_input, handle_close, resume_sending}
use networking_projects.Jukebox.Server.{
  Server, Outcome, running, stopped, Event, epollin, epollout, epollrdhup, has_bit, lookup, insert,
  store, with_client, after, new_client, setup_new_client, close_event, input_event, output_event,
  handle_event,
}
use networking_projects.Jukebox.Networking.{and_then, set_non_blocking, add_socket_to_epoll}
use networking_projects.Jukebox.Server.Clients.{All-insert, All-erase, All-lookup}
use networking_projects.Jukebox.Server.Keeping.{Good, Keeps}
use networking_projects.Jukebox.Server.Upkeep.{Consistent, promise}
use networking_projects.Jukebox.Server.Requests.{handle_input-Keeps}
use networking_projects.Jukebox.Server.Resuming.{handle_close-Keeps, resume_sending-Keeps}

-- If the loop goes on, the server satisfies `Q`.
abbrev pub Goes : (Server → Type 0) → Outcome → Type 0
Goes Q (running server) = Q server
Goes Q (stopped h) = Unit

module _ (Q : Server → Type 0) where
  pub Goes-after :
      (P : Server → Type 0) (o : Outcome) (next : Server → Outcome)
      → Goes P o
      → ((server : Server) → P server → Goes Q (next server))
      → Goes Q (after o next)
  Goes-after P (running server) next u later = later server u
  Goes-after P (stopped h) next u later = tt

  pub Goes-if : (b : Bool) (x y : Outcome) → Goes Q x → Goes Q y → Goes Q (if b then x else y)
  Goes-if true x y first second = first
  Goes-if false x y first second = second

  -- What follows calls of the system that all succeeded.
  pub Goes-option :
      (made : Option ℕ) (next : ℕ → Outcome)
      → ((calls : ℕ) → Goes Q (next calls))
      → Goes Q (elim made [ none ↦ stopped exited | some calls ↦ next calls ])
  Goes-option none next later = tt
  Goes-option (some calls) next later = later calls

  -- An operation of a client, by what it leaves in the map where it returns.
  pub Goes-with_client :
      (fd : ℕ) (operation : M (Unit {0})) (missing : Halt) (server : Server)
      → ((s : State)
          → lookup fd server.clients ≡ some s
          → Goes Q (store fd server.clients (operation (record s { calls = server.calls }))))
      → Goes Q (with_client fd operation missing server)
  unfolding with_client
  Goes-with_client fd operation missing server stores = go (lookup fd server.clients) refl
    where
      go :
          (found : Option State)
          → lookup fd server.clients ≡ found
          → Goes Q (elim found as (λ x. Outcome) [
            | none ↦ stopped missing
            | some s ↦ store fd server.clients (operation (record s { calls = server.calls }))
          ])
      go none e = tt
      go (some s) e = stores s e

module _ (os : Os) (library : SongLibrary) (server_socket : ℕ) where
  -- Every client of the map is consistent.
  abbrev pub AllConsistent : Server → Type 0
  AllConsistent server = All (λ e. Consistent library e.0 e.1) server.clients

  store-AllConsistent :
      (fd : ℕ) (server : Server) (r : Result (Unit {0}))
      → AllConsistent server
      → Good (promise os library fd) r
      → Goes AllConsistent (store fd server.clients r)
  store-AllConsistent fd server (ok a s) u good =
      All-insert (λ e. Consistent library e.0 e.1) fd s server.clients good u
  store-AllConsistent fd server (halt h s) u good = tt

  with_client-AllConsistent :
      (fd : ℕ) (operation : M (Unit {0})) (missing : Halt) (server : Server)
      → AllConsistent server
      → Keeps (promise os library fd) operation
      → Goes AllConsistent (with_client fd operation missing server)
  with_client-AllConsistent fd operation missing server u keeps =
      Goes-with_client AllConsistent fd operation missing server (λ s e.
        let c = All-lookup (λ e. Consistent library e.0 e.1) fd server.clients s e u in
        store-AllConsistent fd server (operation (record s { calls = server.calls })) u (
          keeps (record s { calls = server.calls })
            (record { same_fd = c.same_fd; has_library = c.has_library; phase = c.phase })))

  setup_new_client-AllConsistent :
      (accepted : Option ℕ) (server : Server)
      → AllConsistent server
      → Goes AllConsistent (setup_new_client os library server_socket accepted server)
  unfolding setup_new_client
  setup_new_client-AllConsistent none server u = tt
  setup_new_client-AllConsistent (some client_fd) server u =
      Goes-option AllConsistent
        (and_then os (set_non_blocking os server.calls) (add_socket_to_epoll os))
        (λ calls. running (record {
          clients =
              insert client_fd (new_client os library server_socket client_fd calls) server.clients;
          calls = calls;
        }))
        (λ calls.
          All-insert (λ e. Consistent library e.0 e.1) client_fd
            (new_client os library server_socket client_fd calls) server.clients
            (record { same_fd = refl; has_library = refl; phase = inl (refl, refl, refl) }) u)

  pub handle_event-AllConsistent :
      (ev : Event) (server : Server)
      → AllConsistent server
      → Goes AllConsistent (handle_event os library server_socket ev server)
  unfolding handle_event close_event input_event output_event
  handle_event-AllConsistent ev server u =
      Goes-after AllConsistent AllConsistent
        (if has_bit ev.events epollrdhup
          then close_event os library server_socket ev.fd server
          else if has_bit ev.events epollin
          then input_event os library server_socket ev server
          else running server)
        (λ s.
          if has_bit ev.events epollout
          then output_event os library server_socket ev.fd s
          else running s)
        (Goes-if AllConsistent (has_bit ev.events epollrdhup) _ _
          (Goes-after AllConsistent AllConsistent
            (with_client ev.fd (handle_close os) exited server) _
            (with_client-AllConsistent ev.fd (handle_close os) exited server u
              (handle_close-Keeps os library ev.fd))
            (λ s v. All-erase (λ e. Consistent library e.0 e.1) ev.fd s.clients v))
          (Goes-if AllConsistent (has_bit ev.events epollin) _ (running server)
            (Goes-if AllConsistent (ev.fd == server_socket) _ _
              (setup_new_client-AllConsistent ev.accepted server u)
              (with_client-AllConsistent ev.fd (handle_input os ev.received) exited server u
                (handle_input-Keeps os library ev.fd ev.received)))
            u))
        (λ s v.
          Goes-if AllConsistent (has_bit ev.events epollout) _ (running s)
            (with_client-AllConsistent ev.fd (resume_sending os) undefined s v
              (resume_sending-Keeps os library ev.fd))
            v)
