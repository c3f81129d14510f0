-- ===== src/Rdt/Apps/Programs.antt =====
-- sender.cpp and receiver.cpp from their command lines on. `host` numbers the names of hosts, as the
-- sockets do; the file system is a parameter. The flag -v only sets what is logged.
use networking_projects.Base.{
  ℕ, zero, suc, Bool, true, false, Option, none, some, List, [], ◌∷◌, length, replicate, ◌||◌, ltb,
  if◌then◌else◌, take, drop,
}
use networking_projects.Base.Int.{to_unsigned}
use networking_projects.Base.Text.{Parsed, parsed, invalid_argument, out_of_range, stoi}
use networking_projects.Rdt.Segment.{max_data_size}
use networking_projects.Rdt.State.{
  Os, Event, M, pure, stop, exited, uncaught, undefined, blocked, ◌>>=◌, ◌>>◌,
}
use networking_projects.Rdt.Reliable.{new_socket}
use networking_projects.Rdt.Sender.{connect_to_remote, send_data}
use networking_projects.Rdt.Receiver.{accept_connection, receive_data}
use networking_projects.Rdt.Apps.{receiver}
use networking_projects.Rdt.Closing.{close_connection}

-- The host, the port and the file, of three or four arguments.
unfoldable pub sender_arguments : List (List ℕ) → Option (List ℕ × List ℕ × List ℕ)
sender_arguments (host ∷ port ∷ path ∷ []) = some (host, port, path)
sender_arguments (host ∷ port ∷ path ∷ verbose ∷ []) = some (host, port, path)
sender_arguments _ = none

-- The port and the file, of two or three arguments.
unfoldable pub receiver_arguments : List (List ℕ) → Option (List ℕ × List ℕ)
receiver_arguments (port ∷ path ∷ []) = some (port, path)
receiver_arguments (port ∷ path ∷ verbose ∷ []) = some (port, path)
receiver_arguments _ = none

-- `std::ifstream`: the bytes that are not read yet, `eof()`, and whether it has failed.
pub record Ifstream : Type 0 where
  pub left : List ℕ
  pub eof : Bool
  pub failed : Bool

-- `open`, by what the file holds, `none` where it cannot be opened: that sets only the failure flag.
unfoldable pub open_file : Option (List ℕ) → Ifstream
open_file none = record { left = []; eof = false; failed = true }
open_file (some contents) = record { left = contents; eof = false; failed = false }

-- `read` and `gcount`: the bytes read, and the stream. A stream with a flag set reads nothing and sets
-- the failure flag; a read that asks for more than is left sets both flags.
unfoldable pub read_block : ℕ → Ifstream → List ℕ × Ifstream
read_block size file =
    if file.eof || file.failed
    then ([], record file { failed = true })
    else if ltb (length file.left) size
    then (file.left, record { left = []; eof = true; failed = true })
    else (take size file.left, record { left = drop size file.left; eof = false; failed = false })

module _ (os : Os) where
  -- The loop `while (!input_file.eof())`. A turn takes an answer, so that the fuel of `sender_run` is
  -- never used up.
  unfoldable pub send_stream : ℕ → Ifstream → List Event → M (List Event)
  unfolding read_block
  send_stream zero file es = stop blocked
  send_stream (suc fuel) file es =
      let got = read_block max_data_size file in
      elim file.eof [
        | true ↦ pure es
        | false ↦ (do
          left ← send_data os (record { memory = got.0; size = length got.0 }) es
          send_stream fuel got.1 left)
      ]

  unfoldable pub sender_run : ℕ → ℕ → Option (List ℕ) → List Event → M (List Event)
  unfolding send_stream open_file
  sender_run hostname port_num contents es = do
    new_socket os
    connected ← connect_to_remote os hostname port_num es
    left ← send_stream (suc (length connected)) (open_file contents) connected
    close_connection os left

  -- A file that could not be opened is a null pointer, which `fwrite` or `fclose` then uses.
  unfoldable pub receiver_run : ℕ → Bool → List Event → M (List ℕ × List Event)
  unfolding receiver
  receiver_run port_num true es = receiver os port_num es
  receiver_run port_num false es = do
    new_socket os
    left ← accept_connection os port_num es
    receive_data os (replicate max_data_size 0) left
    stop undefined

  -- The port is an `int`, of which a socket takes the low 16 bits. An exception of std::stoi ends the
  -- program.
  unfoldable pub with_port {ℓ} : {A : Type ℓ} → Parsed → (ℕ → M A) → M A
  with_port (parsed z) program = program (to_unsigned 32 z)
  with_port invalid_argument program = stop uncaught
  with_port out_of_range program = stop uncaught

  unfoldable pub sender_main :
      (List ℕ → ℕ) → (List ℕ → Option (List ℕ)) → List (List ℕ) → List Event → M (List Event)
  unfolding sender_arguments with_port stoi sender_run
  sender_main host read_file args es = elim (sender_arguments args) [
    | none ↦ stop exited
    | some (hostname, port, path) ↦
        with_port (stoi port) (λ port_num. sender_run (host hostname) port_num (read_file path) es)
  ]

  unfoldable pub receiver_main :
      (List ℕ → Bool) → List (List ℕ) → List Event → M (List ℕ × List Event)
  unfolding receiver_arguments with_port stoi receiver_run
  receiver_main opens args es = elim (receiver_arguments args) [
    | none ↦ stop exited
    | some (port, path) ↦ with_port (stoi port) (λ port_num. receiver_run port_num (opens path) es)
  ]
