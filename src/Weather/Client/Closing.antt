-- ===== src/Weather/Client/Closing.antt =====
-- The sensor client closes what it opens.
use networking_projects.Base.{
  ℕ, zero, suc, ◌≡◌, refl, subst, Bool, true, false, if◌then◌else◌, Option, none, Option-cases, inl,
  inr, List, [], ◌∷◌, ◌++◌, length, take,
}
use networking_projects.Base.Decimal.{codes}
use networking_projects.Base.Int.{ℤ}
use networking_projects.Base.Text.{c_string}
use networking_projects.Weather.State.{
  RequestType, temperature, humidity, wind_speed, quit, invalid, closed, printed, complained, State,
  Os, Result, ok, halt, pure, did, act, ◌>>=◌, ◌>>◌,
}
use networking_projects.Weather.Scanning.{Scan, found, mismatch, overrun, connect_line, sensor_line}
use networking_projects.Weather.Input.{Reading, leaves, gives, get_user_request}
use networking_projects.Weather.Client.{
  choose_sensor_command, line_buffer, recv_line, if_received, time_text, reading_line, send_text,
  connect_to_host, open_station, connect_to_weather_station, report, get_sensor_data,
  handle_request, serve, Outcome, finished, stopped, out_of_fuel, after, turn, main_loop, run,
}
use networking_projects.Weather.Client.Descriptors.{
  Heard, if_received-Leaves, held, with_fd, held-closed, Leaves, bind-Leaves, Sent, Holds, Opened,
  recv_line-Leaves, time_text-Leaves, send_text-Leaves, connect_to_host-Leaves,
}

module _ (os : Os) (fds : List ℕ) where
  open_station-Leaves :
      (line : Scan (List ℕ × List ℕ × List ℕ)) (s : State)
      → held s.log ≡ fds
      → Leaves (Opened fds) (open_station os line s)
  unfolding open_station held
  open_station-Leaves overrun s h = tt
  open_station-Leaves mismatch s h = h
  open_station-Leaves (found (host, port, pass) rest) s h =
      bind-Leaves (Opened fds) (Opened fds) (connect_to_host os host port s) _
        (connect_to_host-Leaves os fds host port s h)
        (λ fd t held_t.
          bind-Leaves (Sent fd fds) (Opened fds)
            (send_text os fd (take 31 (codes "AUTH " ++ (pass ++ codes "\n"))) t) _
            (send_text-Leaves os fds fd (take 31 (codes "AUTH " ++ (pass ++ codes "\n"))) t held_t)
            (greeted fd))
    where
      greeted :
          (fd : Option ℕ) (authenticated : Bool) (t : State)
          → Sent fd fds authenticated t.log
          → Leaves (Opened fds) (
              (if authenticated
                  then (do
                    answer ← recv_line fd line_buffer 256
                    if_received answer (pure none) (λ buffer. pure fd))
                  else pure none)
                t)
      greeted fd true t h =
          bind-Leaves (Heard (with_fd fd fds)) (Opened fds) (recv_line fd line_buffer 256 t) _
            (recv_line-Leaves fd line_buffer 255 (with_fd fd fds) t h)
            (λ answer u heard.
              if_received-Leaves (Opened fds) (with_fd fd fds) answer _ _ u heard
                (λ buffer held_u. held_u))
      greeted fd false t h = h

  connect_to_weather_station-Leaves :
      (server_socket : Option ℕ) (s : State)
      → held s.log ≡ with_fd server_socket fds
      → Leaves (Opened fds) (connect_to_weather_station os server_socket s)
  unfolding connect_to_weather_station held
  connect_to_weather_station-Leaves server_socket s h =
      bind-Leaves (Sent server_socket fds) (Opened fds)
        (send_text os server_socket (codes "AUTH password123\n") s) _
        (send_text-Leaves os fds server_socket (codes "AUTH password123\n") s h) told
    where
      told :
          (authenticated : Bool) (t : State)
          → Sent server_socket fds authenticated t.log
          → Leaves (Opened fds) (
              (if authenticated
                  then (do
                    answer ← recv_line server_socket line_buffer 256
                    if_received answer (pure none) (λ buffer.
                        act (closed server_socket)
                        >> open_station os (connect_line (c_string buffer))))
                  else pure none)
                t)
      told true t h =
          bind-Leaves (Heard (with_fd server_socket fds)) (Opened fds)
            (recv_line server_socket line_buffer 256 t) _
            (recv_line-Leaves server_socket line_buffer 255 (with_fd server_socket fds) t h)
            (λ answer u heard.
              if_received-Leaves (Opened fds) (with_fd server_socket fds) answer _ _ u heard
                (λ buffer held_u.
                  open_station-Leaves (connect_line (c_string buffer))
                    (record u { log = closed server_socket ∷ u.log })
                    (held-closed server_socket fds u.log held_u)))
      told false t h = h

  report-Leaves :
      (fd : Option ℕ) (name : List ℕ) (reading : Scan (ℤ × ℤ × List ℕ)) (s : State)
      → held s.log ≡ with_fd fd fds
      → Leaves (Holds fds) (report os fd name reading s)
  unfolding report held
  report-Leaves fd name overrun s h = tt
  report-Leaves fd name mismatch s h =
      held-closed fd fds (complained (codes "error in sscanf") ∷ s.log) h
  report-Leaves fd name (found (time, value, units) rest) s h =
      bind-Leaves (Holds (with_fd fd fds)) (Holds fds) (time_text (os.ctime time) s) _
        (time_text-Leaves (os.ctime time) (with_fd fd fds) s h)
        (λ time_str t held_t.
          bind-Leaves (Sent fd fds) (Holds fds)
            (send_text os fd (codes "CLOSE\n")
              (did (printed (reading_line name value units time_str)) t))
            _
            (send_text-Leaves os fds fd (codes "CLOSE\n")
              (did (printed (reading_line name value units time_str)) t) held_t)
            said)
    where
      said :
          (told : Bool) (t : State)
          → Sent fd fds told t.log
          → Leaves (Holds fds) ((if told then act (closed fd) else pure tt) t)
      said true t h = held-closed fd fds t.log h
      said false t h = h

  get_sensor_data-Leaves :
      (fd : Option ℕ) (request : RequestType) (s : State)
      → held s.log ≡ with_fd fd fds
      → Leaves (Holds fds) (get_sensor_data os fd request s)
  unfolding get_sensor_data
  get_sensor_data-Leaves fd request s h = elim (Option-cases (choose_sensor_command request)) [
    | inl e ↦ rw (e, get_sensor_data) tt
    | inr ((command, name), e) ↦
        rw (e, get_sensor_data)
          (bind-Leaves (Sent fd fds) (Holds fds) (send_text os fd command s) _
            (send_text-Leaves os fds fd command s h) (told name))
  ]
    where
      told :
          (name : List ℕ) (asked : Bool) (t : State)
          → Sent fd fds asked t.log
          → Leaves (Holds fds) (
              (if asked
                  then (do
                    answer ← recv_line fd line_buffer 256
                    if_received answer
                        (pure tt)
                        (λ buffer. report os fd name (sensor_line (c_string buffer))))
                  else pure tt)
                t)
      told name true t h =
          bind-Leaves (Heard (with_fd fd fds)) (Holds fds) (recv_line fd line_buffer 256 t) _
            (recv_line-Leaves fd line_buffer 255 (with_fd fd fds) t h)
            (λ answer u heard.
              if_received-Leaves (Holds fds) (with_fd fd fds) answer _ _ u heard
                (λ buffer held_u. report-Leaves fd name (sensor_line (c_string buffer)) u held_u))
      told name false t h = h

  serve-Leaves :
      (request : RequestType) (s : State)
      → held s.log ≡ fds
      → Leaves (Holds fds) (serve os request s)
  unfolding serve handle_request
  serve-Leaves request s h =
      let hopper = codes "hopper.sandiego.edu" in
      bind-Leaves (Opened fds) (Holds fds) (connect_to_host os hopper (codes "7030") s) _
        (connect_to_host-Leaves os fds hopper (codes "7030") s h)
        (λ fd t held_t.
          bind-Leaves (Opened fds) (Holds fds) (connect_to_weather_station os fd t) _
            (connect_to_weather_station-Leaves fd t held_t)
            (λ station u held_u. get_sensor_data-Leaves station request u held_u))

abbrev Returns : Outcome → Type 0
Returns (finished s) = held s.log ≡ []
Returns (stopped h s) = Unit
Returns out_of_fuel = Unit

after-Returns :
    (r : Result (Unit {0})) (next : State → Outcome)
    → Leaves (Holds []) r
    → ((s : State) → held s.log ≡ [] → Returns (next s))
    → Returns (after r next)
after-Returns (ok a s) next h go = go s h
after-Returns (halt k s) next h go = tt

turn-Returns :
    (os : Os) (r : Reading RequestType) (loop : List ℕ → State → Outcome) (s : State)
    → held s.log ≡ []
    → ((rest : List ℕ) (t : State) → held t.log ≡ [] → Returns (loop rest t))
    → Returns (turn os r loop s)
unfolding turn held
turn-Returns os (leaves status) loop s h next = tt
turn-Returns os (gives quit rest) loop s h next = h
turn-Returns os (gives invalid rest) loop s h next = next rest _ h
turn-Returns os (gives temperature rest) loop s h next =
    after-Returns (serve os temperature s) (loop rest) (serve-Leaves os [] temperature s h)
      (next rest)
turn-Returns os (gives humidity rest) loop s h next =
    after-Returns (serve os humidity s) (loop rest) (serve-Leaves os [] humidity s h) (next rest)
turn-Returns os (gives wind_speed rest) loop s h next =
    after-Returns (serve os wind_speed s) (loop rest) (serve-Leaves os [] wind_speed s h)
      (next rest)

main_loop-Returns :
    (os : Os) (fails : Bool) (fuel : ℕ) (input : List ℕ) (s : State)
    → held s.log ≡ []
    → Returns (main_loop os fails fuel input s)
unfolding main_loop
main_loop-Returns os fails zero input s h = tt
main_loop-Returns os fails (suc fuel) input s h =
    turn-Returns os (get_user_request fails input) (main_loop os fails fuel) s h
      (main_loop-Returns os fails fuel)

-- Whatever the user types and the system and the servers answer, errors included: if the program
-- returns, it has closed each descriptor that it opened.
pub run-closes :
    (os : Os) (fails : Bool) (input : List ℕ) (answers : List (Option (List ℕ))) (s : State)
    → run os fails input answers ≡ finished s
    → held s.log ≡ []
unfolding run held
run-closes os fails input answers s e = subst Returns e (
    main_loop-Returns os fails (suc (length input)) input
      (record { calls = 0; answers = answers; log = [] }) refl)
