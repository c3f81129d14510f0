-- ===== src/Weather/Client.antt =====
-- client.c and io_helpers.c: the dialogues with the two servers, and the loop over the user's requests.
pub mod Visits
pub mod Dialogue
pub mod Buffers
pub mod Overruns
pub mod Underruns
pub mod Descriptors
pub mod Waits
pub mod Closing
use networking_projects.Base.{
  ℕ, zero, suc, Bool, true, false, Option, none, some, List, [], ◌∷◌, ◌++◌, if◌then◌else◌, length,
  take, drop, ltb, replicate,
}
use networking_projects.Base.Decimal.{codes}
use networking_projects.Base.Int.{ℤ, pos, negsuc, print_int}
use networking_projects.Base.Text.{c_string}
use networking_projects.Weather.State.{
  RequestType, temperature, humidity, wind_speed, quit, invalid, connected, sent, closed, printed,
  complained, State, Os, Halt, exited, undefined, blocked, Result, ok, halt, M, pure, stop, ◌>>=◌,
  ◌>>◌, did, act, called,
}
use networking_projects.Weather.Scanning.{Scan, found, mismatch, overrun, connect_line, sensor_line}
use networking_projects.Weather.Input.{Reading, leaves, gives, get_user_request}

-- The command and the name of a sensor.
unfoldable pub choose_sensor_command : RequestType → Option (List ℕ × List ℕ)
choose_sensor_command temperature = some (codes "AIR TEMPERATURE\n", codes "AIR TEMPERATURE")
choose_sensor_command humidity = some (codes "RELATIVE HUMIDITY\n", codes "RELATIVE HUMIDITY")
choose_sensor_command wind_speed = some (codes "WIND SPEED\n", codes "WIND SPEED")
choose_sensor_command quit = none
choose_sensor_command invalid = none

-- `buffer[index] = c`: `none` where the array has no such element.
unfoldable pub store_at : ℤ → ℕ → List ℕ → Option (List ℕ)
store_at (negsuc i) c buffer = none
store_at (pos i) c buffer =
    if ltb i (length buffer) then some (take i buffer ++ c ∷ drop (suc i) buffer) else none

-- `recv` into an array: the number that it returns, and the array with the bytes that it copied. It
-- copies `room` bytes at most.
abbrev pub recv_into : ℕ → Option (List ℕ) → List ℕ → ℤ × List ℕ
recv_into room none buffer = (negsuc 0, buffer)
recv_into room (some bytes) buffer =
    let got = take room bytes in (pos (length got), got ++ drop (length got) buffer)

-- `if (num_bytes == -1)`
abbrev pub close_failed : Option ℕ → ℤ → State → State
close_failed any_fd (pos n) s = s
close_failed any_fd (negsuc zero) s = did (closed any_fd) s
close_failed any_fd (negsuc (suc n)) s = s

abbrev pub terminated : ℤ → Option (List ℕ) → M (ℤ × List ℕ)
terminated num_bytes none = stop undefined
terminated num_bytes (some buffer) = pure (num_bytes, buffer)

-- The number of bytes, -1 for none, and the array. The NUL is stored also after a `recv` that failed.
unfoldable pub recv_line : Option ℕ → List ℕ → ℕ → M (ℤ × List ℕ)
unfolding store_at
recv_line any_fd buffer zero s = ok (negsuc 0, buffer) s
recv_line any_fd buffer (suc room) s = elim s.answers [
  | [] ↦ halt blocked s
  | answer ∷ answers ↦
      let received = recv_into room answer buffer in
      terminated received.0 (store_at received.0 0 received.1)
        (close_failed any_fd received.0 (record s { answers = answers }))
]

-- What the callers do with it: they return where the number is negative, and else look at the buffer.
abbrev pub if_received {ℓ} : {A : Type ℓ} → ℤ × List ℕ → M A → (List ℕ → M A) → M A
if_received (negsuc n, buffer) failed next = failed
if_received (pos n, buffer) failed next = next buffer

-- `char buffer[256]`. What it holds at first is never looked at, and is taken to be zeros.
unfoldable pub line_buffer : List ℕ
line_buffer = replicate 256 0

-- `time_str[strlen(time_str) - 1] = '\0'`: a null pointer has no length, and an empty string no last
-- byte.
abbrev pub but_last : ℕ → List ℕ → List ℕ
but_last c [] = []
but_last c (d ∷ text) = c ∷ but_last d text

abbrev pub time_text : Option (List ℕ) → M (List ℕ)
time_text none = stop undefined
time_text (some []) = stop undefined
time_text (some (c ∷ text)) = pure (but_last c text)

abbrev pub reading_line : List ℕ → ℤ → List ℕ → List ℕ → List ℕ
reading_line sensor_name sensor_value units time_str =
    codes "\nThe last "
    ++ (sensor_name
        ++ (codes " reading was "
            ++ (print_int sensor_value
                ++ (codes " " ++ (units ++ (codes ", taken at " ++ (time_str ++ codes "\n\n")))))))

module _ (os : Os) where
  -- `send` on a descriptor, of which -1 fails. The answer tells whether it was not -1.
  unfoldable pub send_text : Option ℕ → List ℕ → M Bool
  send_text none str s = ok false (did (closed none) s)
  send_text (some fd) str s = elim (os.takes s.calls) [
    | none ↦ ok false (called (closed (some fd)) s)
    | some n ↦ ok true (called (sent fd (take n str)) s)
  ]

  -- getaddrinfo, socket and connect, each of which exits where it fails.
  unfoldable pub connect_to_host : List ℕ → List ℕ → M (Option ℕ)
  connect_to_host hostname port s =
      if os.finds hostname port
      then elim (os.socket s.calls) [
        | none ↦ halt (exited 1) s
        | some fd ↦
            if os.connects s.calls
            then ok (some fd) (called (connected hostname port fd) s)
            else halt (exited 1) s
      ]
      else halt (exited 1) s

  -- The connection to the station that the line names, with the password sent to it. `snprintf`
  -- writes 31 bytes at most.
  unfoldable pub open_station : Scan (List ℕ × List ℕ × List ℕ) → M (Option ℕ)
  unfolding send_text connect_to_host
  open_station overrun = stop undefined
  open_station mismatch = do act (complained (codes "error in sscanf")); pure none
  open_station (found (host, port, pass) rest) = do
    weather_station_fd ← connect_to_host host port
    authenticated ← send_text weather_station_fd (take 31 (codes "AUTH " ++ (pass ++ codes "\n")))
    if authenticated
        then (do
          answer ← recv_line weather_station_fd line_buffer 256
          if_received answer (pure none) (λ buffer. pure weather_station_fd))
        else pure none

  -- The weather station's descriptor, `none` for -1.
  unfoldable pub connect_to_weather_station : Option ℕ → M (Option ℕ)
  unfolding send_text open_station connect_line
  connect_to_weather_station server_socket = do
    authenticated ← send_text server_socket (codes "AUTH password123\n")
    if authenticated
        then (do
          answer ← recv_line server_socket line_buffer 256
          if_received answer (pure none) (λ buffer.
              act (closed server_socket) >> open_station (connect_line (c_string buffer))))
        else pure none

  unfoldable pub report : Option ℕ → List ℕ → Scan (ℤ × ℤ × List ℕ) → M (Unit {0})
  unfolding send_text
  report weather_station_fd sensor_name overrun = stop undefined
  report weather_station_fd sensor_name mismatch = do
    act (complained (codes "error in sscanf"))
    act (closed weather_station_fd)
  report weather_station_fd sensor_name (found (timestamp, sensor_value, units) rest) = do
    time_str ← time_text (os.ctime timestamp)
    act (printed (reading_line sensor_name sensor_value units time_str))
    told ← send_text weather_station_fd (codes "CLOSE\n")
    if told then act (closed weather_station_fd) else pure tt

  -- A request that is none of a sensor leaves `sensor_command` without a value.
  unfoldable pub get_sensor_data : Option ℕ → RequestType → M (Unit {0})
  unfolding choose_sensor_command send_text report sensor_line
  get_sensor_data weather_station_fd request = elim (choose_sensor_command request) [
    | none ↦ (do act (complained (codes "Invalid request")); stop undefined)
    | some (sensor_command, sensor_name) ↦ (do
      asked ← send_text weather_station_fd sensor_command
      if asked
          then (do
            answer ← recv_line weather_station_fd line_buffer 256
            if_received answer (pure tt)
                (λ buffer. report weather_station_fd sensor_name (sensor_line (c_string buffer))))
          else pure tt)
  ]

  unfoldable pub handle_request : RequestType → Option ℕ → M (Unit {0})
  unfolding connect_to_weather_station get_sensor_data
  handle_request request server_socket = do
    weather_station_fd ← connect_to_weather_station server_socket
    get_sensor_data weather_station_fd request

  -- The three cases of the loop that ask for a sensor.
  unfoldable pub serve : RequestType → M (Unit {0})
  unfolding connect_to_host handle_request
  serve selection = do
    server_fd ← connect_to_host (codes "hopper.sandiego.edu") (codes "7030")
    handle_request selection server_fd

-- How the loop ends: it returns, the program has stopped, or the fuel is used up.
pub data Outcome : Type 0 where
  finished : State → Outcome
  stopped : Halt → State → Outcome
  out_of_fuel : Outcome

abbrev pub after : Result (Unit {0}) → (State → Outcome) → Outcome
after (ok a s) next = next s
after (halt h s) next = stopped h s

-- One turn of the loop: what the user asked for, and how the loop goes on.
unfoldable pub turn : Os → Reading RequestType → (List ℕ → State → Outcome) → State → Outcome
unfolding serve
turn os (leaves status) loop s = stopped (exited status) s
turn os (gives quit input) loop s = finished (did (printed (codes "GOODBYE!\n")) s)
turn os (gives invalid input) loop s =
    loop input (did (complained (codes "\n*** Invalid selection\n\n")) s)
turn os (gives temperature input) loop s = after (serve os temperature s) (loop input)
turn os (gives humidity input) loop s = after (serve os humidity s) (loop input)
turn os (gives wind_speed input) loop s = after (serve os wind_speed s) (loop input)

-- The loop, by the bytes of the standard input. Each turn reads one of them or more, so that the fuel
-- that `run` gives is never used up.
unfoldable pub main_loop : Os → Bool → ℕ → List ℕ → State → Outcome
unfolding get_user_request turn
main_loop os fails zero input s = out_of_fuel
main_loop os fails (suc fuel) input s =
    turn os (get_user_request fails input) (main_loop os fails fuel) s

-- The program, as `main` runs it.
unfoldable pub run : Os → Bool → List ℕ → List (Option (List ℕ)) → Outcome
unfolding main_loop
run os fails input answers =
    main_loop os fails (suc (length input)) input
      (record { calls = 0; answers = answers; log = [] })
