-- ===== src/Torero/Serve.antt =====
-- torero-serve.cpp: handleClient and consumeClients, with ClientSocket.cpp's receiveData. A client is
-- what its socket answers: to `recv`, the bytes that are there or `none` for -1, and to each `send`.
pub mod Clients
use networking_projects.Base.{ℕ, Bool, true, false, Option, none, some, List, [], ◌∷◌, ◌++◌, take}
use networking_projects.Torero.Pages.{
  Files, Finish, complete, throws, endless, Response, send_response,
}
use networking_projects.Torero.Request.{parse_request}
use networking_projects.Torero.Socket.{Ending, returned, thrown, unfinished, send_data}

pub record Client : Type 0 where
  pub arrived : Option (List ℕ)
  pub answers : List (Option ℕ)

-- `receiveData`: it throws when `recv` fails, and else `recv` copies no more than `max_size` bytes.
unfoldable pub receive_data : ℕ → Option (List ℕ) → Option (List ℕ)
receive_data max_size none = none
receive_data max_size (some bytes) = some (take max_size bytes)

-- What a call sent, and what the calls after it send when it returned.
abbrev pub go_on : Ending × List ℕ → (List (Option ℕ) → Ending × List ℕ) → Ending × List ℕ
go_on (returned rest, wire) next = ((next rest).0, wire ++ (next rest).1)
go_on (thrown, wire) next = (thrown, wire)
go_on (unfinished, wire) next = (unfinished, wire)

-- Calls of `sendData` in a row: how they end, and the bytes that were taken.
unfoldable pub send_messages : List (List ℕ) → List (Option ℕ) → Ending × List ℕ
send_messages [] answers = (returned answers, [])
send_messages (message ∷ messages) answers =
    go_on (send_data message answers) (send_messages messages)

-- A function that sends ends as its sends do, and when they return as it does itself. A loop without
-- end is as good as a send that is never answered.
abbrev pub finish_with : Finish → Ending × List ℕ → Ending × List ℕ
finish_with complete sent = sent
finish_with throws (returned rest, wire) = (thrown, wire)
finish_with throws (thrown, wire) = (thrown, wire)
finish_with throws (unfinished, wire) = (unfinished, wire)
finish_with endless (returned rest, wire) = (unfinished, wire)
finish_with endless (thrown, wire) = (thrown, wire)
finish_with endless (unfinished, wire) = (unfinished, wire)

unfoldable pub send_all : Response → List (Option ℕ) → Ending × List ℕ
unfolding send_messages
send_all response answers = finish_with response.1 (send_messages response.0 answers)

-- How a client was handled: the end, the bytes that its socket took, and whether it was closed.
pub record Visit : Type 0 where
  pub ending : Ending
  pub wire : List ℕ
  pub is_closed : Bool

-- `client.close()` is reached only when `sendResponse` returns.
abbrev pub close_after : Ending × List ℕ → Visit
close_after (returned rest, wire) = record { ending = returned rest; wire = wire; is_closed = true }
close_after (thrown, wire) = record { ending = thrown; wire = wire; is_closed = false }
close_after (unfinished, wire) = record { ending = unfinished; wire = wire; is_closed = false }

-- The visits from one on, where `later` are those after it.
abbrev pub next_visit : Visit → List Visit → List Visit
next_visit visit later = elim visit.ending [
  | returned rest ↦ visit ∷ later
  | thrown ↦ visit ∷ []
  | unfinished ↦ visit ∷ []
]

module _ (files : Files) where
  unfoldable pub handle_client : Client → Visit
  unfolding receive_data send_all
  handle_client client = elim (receive_data 2048 client.arrived) [
    | none ↦ record { ending = thrown; wire = []; is_closed = false }
    | some request ↦
        close_after (send_all (send_response files (parse_request request)) client.answers)
  ]

  -- The loop of a worker, by the clients that it gets, in their order: the visits up to the first that
  -- does not return. An exception that leaves the thread's function ends the whole program.
  unfoldable pub consume_clients : List Client → List Visit
  unfolding handle_client
  consume_clients [] = []
  consume_clients (client ∷ clients) = next_visit (handle_client client) (consume_clients clients)
