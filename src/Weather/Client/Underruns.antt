-- ===== src/Weather/Client/Underruns.antt =====
-- Failures of `recv` that make the sensor client write before its array.
use networking_projects.Base.{
  ℕ, suc, ◌≤◌, ◌<◌, ◌≡◌, refl, Option, none, some, List, ◌∷◌, ◌++◌, arith, length, length-append,
  take_all, ◌+◌,
}
use networking_projects.Base.Decimal.{codes}
use networking_projects.Weather.State.{
  RequestType, Action, connected, sent, closed, Os, halt, undefined,
}
use networking_projects.Weather.Scanning.{found}
use networking_projects.Weather.Scanning.Lines.{connect_text, connect_line-connect_text}
use networking_projects.Weather.Client.{
  line_buffer, choose_sensor_command, open_station, get_sensor_data, serve,
  connect_to_weather_station, handle_request,
}
use networking_projects.Weather.Client.Visits.{Works, Visit, IsVisit, at}
use networking_projects.Weather.Client.Buffers.{recv_line-IsLine, recv_line-none}
use networking_projects.Weather.Client.Dialogue.{
  chosen_short, connect_to_weather_station-Works, send_text-Works, connect_to_host-Works,
}

module _ (os : Os) (fds : ℕ → ℕ) (works : Works os fds) where
  abbrev greeted : ℕ → List Action → List Action
  greeted calls log =
      sent (fds calls) (codes "AUTH password123\n")
      ∷ connected (codes "hopper.sandiego.edu") (codes "7030") (fds calls)
      ∷ log

  open_station_underruns :
      (v : Visit) (rest : List ℕ) (calls : ℕ) (later : List (Option (List ℕ))) (log : List Action)
      → IsVisit os v
      → open_station os (found (v.host, v.port, v.pass) rest) (at calls (none ∷ later) log)
        ≡ halt undefined (
            at (suc (suc calls)) later (
              closed (some (fds calls))
              ∷ sent (fds calls) (codes "AUTH " ++ (v.pass ++ codes "\n"))
              ∷ connected v.host v.port (fds calls)
              ∷ log))
  unfolding open_station
  open_station_underruns v rest calls later log h =
      let message = codes "AUTH " ++ (v.pass ++ codes "\n") in
      let fits_in : length v.pass < 14 = h.pass_word.fits_in in
      let e : length (v.pass ++ codes "\n") ≡ length v.pass + 1 =
        length-append v.pass (codes "\n") in
      let short : length message ≤ 31 = omega arith in
      let met = connected v.host v.port (fds calls) ∷ log in
      rw
        (
          connect_to_host-Works os fds works v.host v.port (at calls (none ∷ later) log),
          take_all 31 message short,
          send_text-Works os fds works (fds calls) message (at (suc calls) (none ∷ later) met)
              (omega arith),
          recv_line-none (some (fds calls)) line_buffer 255 (suc (suc calls)) later
              (sent (fds calls) message ∷ met),
        )
        refl

  -- What the program has done when the first server has told of a station, and when the station has
  -- been sent the password.
  abbrev met : ℕ → Visit → List Action → List Action
  met calls v log =
      sent (fds (suc (suc calls))) (codes "AUTH " ++ (v.pass ++ codes "\n"))
      ∷ connected v.host v.port (fds (suc (suc calls)))
      ∷ closed (some (fds calls))
      ∷ greeted calls log

  first_underruns :
      (request : RequestType) (calls : ℕ) (later : List (Option (List ℕ))) (log : List Action)
      → serve os request (at calls (none ∷ later) log)
        ≡ halt undefined
            (at (suc (suc calls)) later (closed (some (fds calls)) ∷ greeted calls log))
  unfolding serve handle_request connect_to_weather_station
  first_underruns request calls later log =
      let hopper = connected (codes "hopper.sandiego.edu") (codes "7030") (fds calls) ∷ log in
      rw
        (
          connect_to_host-Works os fds works (codes "hopper.sandiego.edu") (codes "7030")
              (at calls (none ∷ later) log),
          send_text-Works os fds works (fds calls) (codes "AUTH password123\n")
              (at (suc calls) (none ∷ later) hopper) (omega arith),
          recv_line-none (some (fds calls)) line_buffer 255 (suc (suc calls)) later
              (greeted calls log),
        )
        refl

  second_underruns :
      (request : RequestType) (v : Visit) (calls : ℕ) (later : List (Option (List ℕ)))
      (log : List Action)
      → IsVisit os v
      → serve os request (at calls (some (connect_text v.host v.port v.pass) ∷ none ∷ later) log)
        ≡ halt undefined (
            at
              (suc (suc (suc (suc calls))))
              later
              (closed (some (fds (suc (suc calls)))) ∷ met calls v log))
  unfolding serve handle_request connect_to_weather_station
  second_underruns request v calls later log h =
      let line = connect_text v.host v.port v.pass in
      let hopper = connected (codes "hopper.sandiego.edu") (codes "7030") (fds calls) ∷ log in
      let (n, filled, answered, text) =
        recv_line-IsLine (some (fds calls)) line (suc (suc calls)) (none ∷ later)
          (greeted calls log) h.connect_is_line in
      rw
        (
          connect_to_host-Works os fds works (codes "hopper.sandiego.edu") (codes "7030")
              (at calls (some line ∷ none ∷ later) log),
          send_text-Works os fds works (fds calls) (codes "AUTH password123\n")
              (at (suc calls) (some line ∷ none ∷ later) hopper) (omega arith),
          answered,
          text,
          connect_line-connect_text v.host v.port v.pass h.host_word h.port_word h.pass_word,
          open_station_underruns v (codes "\n") (suc (suc calls)) later
              (closed (some (fds calls)) ∷ greeted calls log) h,
        )
        refl

  third_underruns :
      (request : RequestType) (command name : List ℕ) (v : Visit) (calls : ℕ)
      (later : List (Option (List ℕ))) (log : List Action)
      → choose_sensor_command request ≡ some (command, name)
      → IsVisit os v
      → serve os request
          (at calls (some (connect_text v.host v.port v.pass) ∷ some v.greeting ∷ none ∷ later) log)
        ≡ halt undefined (
            at (suc (suc (suc (suc (suc calls))))) later (
              closed (some (fds (suc (suc calls))))
              ∷ sent (fds (suc (suc calls))) command
              ∷ met calls v log))
  unfolding serve handle_request get_sensor_data
  third_underruns request command name v calls later log chosen h =
      let line = connect_text v.host v.port v.pass in
      let station = fds (suc (suc calls)) in
      rw
        (
          connect_to_host-Works os fds works (codes "hopper.sandiego.edu") (codes "7030")
              (at calls (some line ∷ some v.greeting ∷ none ∷ later) log),
          connect_to_weather_station-Works os fds works v (fds calls) (suc calls) (none ∷ later)
              (connected (codes "hopper.sandiego.edu") (codes "7030") (fds calls) ∷ log) h,
          chosen,
          get_sensor_data,
          send_text-Works os fds works station command
              (at (suc (suc (suc (suc calls)))) (none ∷ later) (met calls v log))
              (chosen_short request (command, name) chosen),
          recv_line-none (some station) line_buffer 255 (suc (suc (suc (suc (suc calls))))) later
              (sent station command ∷ met calls v log),
        )
        refl

  -- Let the request be for a sensor, let every other call of the system succeed, and let the servers
  -- write their answers as they should. Whichever of the three `recv` calls of the request fails, the
  -- client has said what comes before it and closes the socket of that call, and the request then
  -- ends in a write before its buffer.
  pub serve_underruns :
      (request : RequestType) (command name : List ℕ) (v : Visit) (calls : ℕ)
      (later : List (Option (List ℕ))) (log : List Action)
      → choose_sensor_command request ≡ some (command, name)
      → IsVisit os v
      → (serve os request (at calls (none ∷ later) log)
          ≡ halt undefined
              (at (suc (suc calls)) later (closed (some (fds calls)) ∷ greeted calls log)))
        × (serve os request (at calls (some (connect_text v.host v.port v.pass) ∷ none ∷ later) log)
            ≡ halt undefined (
                at
                  (suc (suc (suc (suc calls))))
                  later
                  (closed (some (fds (suc (suc calls)))) ∷ met calls v log)))
        × (serve os request (
              at calls
                (some (connect_text v.host v.port v.pass) ∷ some v.greeting ∷ none ∷ later)
                log)
            ≡ halt undefined (
                at (suc (suc (suc (suc (suc calls))))) later (
                  closed (some (fds (suc (suc calls))))
                  ∷ sent (fds (suc (suc calls))) command
                  ∷ met calls v log)))
  serve_underruns request command name v calls later log chosen h = (
    first_underruns request calls later log,
    second_underruns request v calls later log h,
    third_underruns request command name v calls later log chosen h,
  )
