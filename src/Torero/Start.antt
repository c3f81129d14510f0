-- ===== src/Torero/Start.antt =====
-- main.cpp, ServerSocket.cpp and ServerSocket.hpp: how the server starts and what it accepts.
use networking_projects.Base.{
  ℕ, ◌≡◌, ◌%◌, ◌^◌, refl, inl, inr, Bool, true, false, Bool-cases, Option, none, some, Option-cases,
  List, [], ◌∷◌, ltb, if◌then◌else◌,
}
use networking_projects.Base.Decimal.{to_string}
use networking_projects.Base.Int.{to_unsigned}
use networking_projects.Base.Text.{Parsed, parsed, invalid_argument, out_of_range, stoi}
use networking_projects.Base.Text.Numbers.{stoi-to_string}
use networking_projects.Torero.Buffer.{Threads, BoundedBuffer, Step, run_server, put_item}

-- class ServerSocket. `none` is the descriptor -1.
pub record ServerSocket : Type 0 where
  pub socket_fd : Option ℕ
  pub port_num : ℕ

-- The answers of the system: the descriptor of a new socket, and whether the calls on one succeed;
-- `bind` is asked for a port.
pub record Os : Type 0 where
  pub socket : Option ℕ
  pub sets_option : ℕ → Bool
  pub binds : ℕ → ℕ → Bool
  pub listens : ℕ → Bool
  pub is_directory : List ℕ → Bool

-- How the start ends: the threads run and the socket listens; the program has exited; or an exception
-- that nothing catches has ended it.
pub data Outcome : Type 0 where
  serving : ServerSocket → Threads → Outcome
  exited uncaught : Outcome

abbrev pub checked : Bool → ServerSocket → Option ServerSocket
checked true server = some server
checked false server = none

-- The constructor, which exits where a call fails.
unfoldable pub server_socket : Os → ℕ → Option ServerSocket
server_socket os port_num = elim os.socket [
  | none ↦ none
  | some fd ↦ checked (os.sets_option fd) (record { socket_fd = some fd; port_num = port_num })
]

-- The calls on the descriptor -1 fail.
unfoldable pub start_listening : Os → ServerSocket → Option ServerSocket
start_listening os server = elim server.socket_fd [
  | none ↦ none
  | some fd ↦ if os.binds fd server.port_num then checked (os.listens fd) server else none
]

-- The move constructor, which leaves the new port without a value, and the move assignment: the socket
-- and the one moved from.
unfoldable pub move_socket : ℕ → ServerSocket → ServerSocket × ServerSocket
move_socket unset other =
    (record { socket_fd = other.socket_fd; port_num = unset }, record other { socket_fd = none })

unfoldable pub move_assign : ServerSocket → ServerSocket → ServerSocket × ServerSocket
move_assign self other =
    (record self { socket_fd = other.socket_fd }, record other { socket_fd = self.socket_fd })

-- acceptConnection and putItem, by the answer of `accept`: the program exits, the thread waits with the
-- client, or the client is in the buffer.
pub data Turn : Type 0 where
  stops : Turn
  waits : ℕ → Turn
  puts : BoundedBuffer → Turn

unfoldable pub accept_turn : Option ℕ → BoundedBuffer → Turn
unfolding put_item
accept_turn none buffer = stops
accept_turn (some client) buffer = elim (put_item buffer client) [
  | none ↦ waits client
  | some filled ↦ puts filled
]

-- `runServer` up to its loop. The buffer has five places.
unfoldable pub start_server : Os → ℕ → Outcome
unfolding run_server server_socket start_listening
start_server os port = elim (server_socket os port) [
  | none ↦ exited
  | some server ↦ elim (start_listening os server) [
    | none ↦ exited
    | some listening ↦ serving listening (run_server 5)
  ]
]

-- The port, and what the directory is for. Of the two exceptions of std::stoi one is caught.
unfoldable pub start_at : Os → Parsed → List ℕ → Outcome
unfolding start_server
start_at os invalid_argument root = exited
start_at os out_of_range root = uncaught
start_at os (parsed port) root =
    if os.is_directory root then start_server os (to_unsigned 16 port) else exited

unfoldable pub main : Os → List (List ℕ) → Outcome
unfolding start_at stoi
main os (port ∷ root ∷ []) = start_at os (stoi port) root
main os _ = exited

-- The system grants what the start asks of it.
pub record Grants (os : Os) (fd : ℕ) : Type 0 where
  pub opens : os.socket ≡ some fd
  pub sets : os.sets_option fd ≡ true
  pub binds : (port : ℕ) → os.binds fd port ≡ true
  pub listens : os.listens fd ≡ true

start_server-Grants :
    (os : Os) (fd port : ℕ)
    → Grants os fd
    → start_server os port
      ≡ serving (record { socket_fd = some fd; port_num = port }) (run_server 5)
unfolding start_server
start_server-Grants os fd port g =
    rw (g.opens, g.sets, g.binds port, g.listens, start_server, server_socket, start_listening) refl

-- With a directory to serve and a system that grants what the start asks of it: a port number that an
-- `int` has room for starts the server, on its low 16 bits and so on another port from 65536 on; a
-- larger one ends the program by an exception that nothing catches.
pub main-port :
    (os : Os) (fd n : ℕ) (root : List ℕ)
    → Grants os fd
    → os.is_directory root ≡ true
    → main os (to_string n ∷ root ∷ []) ≡ (
        if ltb n (2 ^ 31)
        then serving (record { socket_fd = some fd; port_num = n % 2 ^ 16 }) (run_server 5)
        else uncaught)
unfolding main start_at
main-port os fd n root g directory = elim (Bool-cases (ltb n (2 ^ 31))) [
  | inl small ↦ rw (stoi-to_string n, small, directory) (start_server-Grants os fd (n % 2 ^ 16) g)
  | inr large ↦ rw (stoi-to_string n, large) refl
]

-- What becomes of the threads in a turn of the accepting one.
abbrev After : Bool → Threads → Turn → Type 0
After spurious t stops = Unit
After spurious t (waits client) = (u : Threads) × Step spurious t u × (u.held ≡ some client)
After spurious t (puts filled) = (u : Threads) × Step spurious t u × (u.shared ≡ filled)

-- A turn of the accepting thread, which holds no client, is a step of the threads.
accept_turn-After :
    (spurious : Bool) (answer : Option ℕ) (t : Threads)
    → t.held ≡ none
    → After spurious t (accept_turn answer t.shared)
unfolding accept_turn
accept_turn-After spurious none t free = tt
accept_turn-After spurious (some client) t free = elim (Option-cases (put_item t.shared client)) [
  | inl full ↦ rw (full, accept_turn) (_, Step.holds t client free full, refl)
  | inr (filled, room) ↦ rw (room, accept_turn) (_, Step.puts t client filled free room, refl)
]
