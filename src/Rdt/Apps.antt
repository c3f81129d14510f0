-- ===== src/Rdt/Apps.antt =====
-- sender.cpp and receiver.cpp, the programs that send a file and write it. Messages to the terminal
-- and the time taken are left out.
pub mod Chunks
pub mod Receiving
pub mod Streams
pub mod Empty
pub mod Sending
pub mod Programs
pub mod Reads
pub mod Missing
pub mod CommandLine
pub mod Transfers
use networking_projects.Base.{
  ℕ, zero, suc, List, [], ◌∷◌, ◌++◌, ltb, ◌==◌, if◌then◌else◌, length, take, drop, replicate,
}
use networking_projects.Rdt.Segment.{Span, max_data_size}
use networking_projects.Rdt.State.{Os, Event, M, pure, stop, blocked, ◌>>=◌, ◌>>◌}
use networking_projects.Rdt.Reliable.{new_socket}
use networking_projects.Rdt.Sender.{connect_to_remote, send_data}
use networking_projects.Rdt.Receiver.{accept_connection, receive_data}
use networking_projects.Rdt.Closing.{close_connection}

-- The blocks that the loop `while (!input_file.eof())` reads of a file: a read that asks for more
-- than is left sets the end-of-file flag. The fuel bounds the number of reads.
unfoldable pub chunks : ℕ → List ℕ → List (List ℕ)
chunks zero contents = []
chunks (suc fuel) contents =
    let rest = chunks fuel (drop max_data_size contents) in
    if ltb (length contents) max_data_size
    then contents ∷ []
    else take max_data_size contents ∷ rest

unfoldable pub file_chunks : List ℕ → List (List ℕ)
file_chunks contents = chunks (suc (length contents)) contents

module _ (os : Os) where
  unfoldable pub send_chunks : List (List ℕ) → List Event → M (List Event)
  send_chunks [] es = pure es
  send_chunks (chunk ∷ rest) es = do
    left ← send_data os (record { memory = chunk; size = length chunk }) es
    send_chunks rest left

  unfoldable pub sender : ℕ → ℕ → List ℕ → List Event → M (List Event)
  sender hostname port_num contents es = do
    new_socket os
    connected ← connect_to_remote os hostname port_num es
    left ← send_chunks (file_chunks contents) connected
    close_connection os left

  -- The loop that writes each block, until `receive_data` returns 0: what it writes, and the answers
  -- left. Each turn but the last takes an answer, so the fuel of `receive_file` is never used up.
  unfoldable pub receive_blocks : ℕ → List ℕ → List Event → M (List ℕ × List Event)
  receive_blocks zero segment es = stop blocked
  receive_blocks (suc fuel) segment es = do
    got ← receive_data os segment es
    if got.0 == 0
        then pure ([], got.2)
        else (do more ← receive_blocks fuel got.1 got.2; pure (take got.0 got.1 ++ more.0, more.1))

  unfoldable pub receive_file : List Event → M (List ℕ × List Event)
  receive_file es = do
    written ← receive_blocks (suc (length es)) (replicate max_data_size 0) es
    left ← close_connection os written.1
    pure (written.0, left)

  unfoldable pub receiver : ℕ → List Event → M (List ℕ × List Event)
  receiver port_num es = do
    new_socket os
    left ← accept_connection os port_num es
    receive_file left
