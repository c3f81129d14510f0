-- ===== src/Weather/Session.antt =====
-- A whole run of the sensor client, over any number of requests.
use networking_projects.Base.{
  ℕ, zero, suc, ◌≤◌, ◌<◌, ◌≡◌, refl, ap, ◌∙◌, Bool, false, ◌==◌, Option, some, List, [], ◌∷◌, ◌++◌,
  arith, length, length-append, All,
}
use networking_projects.Base.Decimal.{codes}
use networking_projects.Weather.State.{
  RequestType, temperature, humidity, wind_speed, quit, invalid, Action, printed, State, Os,
}
use networking_projects.Weather.Input.{
  fgets, cons_line, selection_of, gives, line_read, get_text_input, request_read, get_user_request,
}
use networking_projects.Weather.Client.{
  choose_sensor_command, serve, Outcome, finished, after, turn, main_loop, run,
}
use networking_projects.Weather.Client.Visits.{
  Works, Visit, IsVisit, answers_of, dialogue, next_call, at,
}
use networking_projects.Weather.Client.Dialogue.{serve-Works}

-- What the user types for a request, up to the end of the line; the request, with the command and the
-- name of its sensor; and what the servers know.
pub record Order : Type 0 where
  pub typed : List ℕ
  pub request : RequestType
  pub sensor : List ℕ × List ℕ
  pub visit : Visit

pub record IsOrder (os : Os) (o : Order) : Type 0 where
  pub short : length o.typed ≤ 8
  pub one_line : All (λ c. (c == 10) ≡ false) o.typed
  pub selects : selection_of (o.typed ++ codes "\n") ≡ o.request
  pub chosen : choose_sensor_command o.request ≡ some o.sensor
  pub known : IsVisit os o.visit

-- The standard input: the lines of the requests, and that of the end.
abbrev pub input_of : List Order → List ℕ
input_of [] = codes "4\n"
input_of (o ∷ orders) = o.typed ++ (10 ∷ input_of orders)

abbrev pub answers_to : List Order → List (Option (List ℕ))
answers_to [] = []
answers_to (o ∷ orders) = answers_of o.visit (answers_to orders)

abbrev pub dialogues : (ℕ → ℕ) → ℕ → List Order → List Action → List Action
dialogues fds calls [] log = log
dialogues fds calls (o ∷ orders) log =
    dialogues fds (next_call calls) orders (dialogue fds calls o.sensor o.visit log)

abbrev pub calls_after : ℕ → List Order → ℕ
calls_after calls [] = calls
calls_after calls (o ∷ orders) = calls_after (next_call calls) orders

fgets-line :
    (fails : Bool) (room : ℕ) (typed input : List ℕ)
    → length typed < room
    → All (λ c. (c == 10) ≡ false) typed
    → fgets fails room (typed ++ (10 ∷ input)) ≡ some (typed ++ codes "\n", input)
unfolding fgets
fgets-line fails zero typed input h solid = absurd (omega arith)
fgets-line fails (suc room) [] input h solid = refl
fgets-line fails (suc room) (c ∷ typed) input h solid =
    rw (solid.0, fgets) (ap (cons_line c) (fgets-line fails room typed input (omega arith) solid.1))

line_read-line :
    (typed input : List ℕ)
    → line_read (some (typed ++ codes "\n", input)) ≡ gives (typed ++ codes "\n") input
line_read-line [] input = refl
line_read-line (c ∷ typed) input = refl

get_user_request-line :
    (os : Os) (fails : Bool) (o : Order) (input : List ℕ)
    → IsOrder os o
    → get_user_request fails (o.typed ++ (10 ∷ input)) ≡ gives o.request input
unfolding get_user_request get_text_input
get_user_request-line os fails o input h =
    ap (λ r. request_read (line_read r))
      (fgets-line fails 9 o.typed input (omega (arith, h.short)) h.one_line)
    ∙ ap request_read (line_read-line o.typed input)
    ∙ ap (λ q. gives q input) h.selects

turn-chosen :
    (os : Os) (request : RequestType) (sensor : List ℕ × List ℕ) (input : List ℕ)
    (loop : List ℕ → State → Outcome) (s : State)
    → choose_sensor_command request ≡ some sensor
    → turn os (gives request input) loop s ≡ after (serve os request s) (loop input)
unfolding turn choose_sensor_command
turn-chosen os temperature sensor input loop s e = refl
turn-chosen os humidity sensor input loop s e = refl
turn-chosen os wind_speed sensor input loop s e = refl
turn-chosen os quit sensor input loop s e = absurd cc
turn-chosen os invalid sensor input loop s e = absurd cc

requests_in_input : (orders : List Order) → length orders < length (input_of orders)
requests_in_input [] = omega arith
requests_in_input (o ∷ orders) =
    omega (arith, requests_in_input orders, length-append o.typed (10 ∷ input_of orders))

module _ (os : Os) (fds : ℕ → ℕ) (works : Works os fds) (fails : Bool) where
  main_loop-Works :
      (fuel : ℕ) (orders : List Order) (calls : ℕ) (log : List Action)
      → length orders < fuel
      → All (IsOrder os) orders
      → main_loop os fails fuel (input_of orders) (at calls (answers_to orders) log)
        ≡ finished (
            at
              (calls_after calls orders)
              []
              (printed (codes "GOODBYE!\n") ∷ dialogues fds calls orders log))
  unfolding main_loop
  main_loop-Works zero orders calls log h each = absurd (omega arith)
  main_loop-Works (suc fuel) [] calls log h each = refl
  main_loop-Works (suc fuel) (o ∷ orders) calls log h each =
      let s = at calls (answers_of o.visit (answers_to orders)) log in
      let loop = main_loop os fails fuel in
      ap (λ r. turn os r loop s) (get_user_request-line os fails o (input_of orders) each.0)
      ∙ turn-chosen os o.request o.sensor (input_of orders) loop s each.0.chosen
      ∙ ap (λ r. after r (loop (input_of orders)))
          (serve-Works os fds works o.request o.sensor.0 o.sensor.1 o.visit calls
            (answers_to orders) log each.0.chosen each.0.known)
      ∙ main_loop-Works fuel orders (next_call calls) (dialogue fds calls o.sensor o.visit log)
          (omega arith) each.1

  -- Whatever sensors the user asks for, line by line, until a line with 4: when each line is short and
  -- selects its sensor, the servers answer with lines and numbers that the code has room for, and no
  -- call of the system fails, the program holds the dialogue of each request in turn, prints each
  -- reading, closes both sockets of each, and returns after its farewell.
  pub run-session :
      (orders : List Order)
      → All (IsOrder os) orders
      → run os fails (input_of orders) (answers_to orders)
        ≡ finished (
            at (calls_after 0 orders) [] (printed (codes "GOODBYE!\n") ∷ dialogues fds 0 orders []))
  unfolding run
  run-session orders each =
      main_loop-Works (suc (length (input_of orders))) orders 0 []
        (omega (arith, requests_in_input orders)) each
