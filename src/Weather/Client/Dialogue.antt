-- ===== src/Weather/Client/Dialogue.antt =====
-- One request of client.c's user, with servers and a system that answer it.
use networking_projects.Base.{
  ℕ, suc, ◌+◌, ◌≤◌, ◌<◌, ◌≡◌, refl, subst, ap, true, Option, some, some-injective, List, [], ◌∷◌,
  ◌++◌, arith, length, length-append, take_all, ◌<◌,
}
use networking_projects.Base.Decimal.{codes}
use networking_projects.Weather.State.{
  RequestType, temperature, humidity, wind_speed, quit, invalid, Action, connected, sent, closed,
  printed, State, Os, ok, called, did,
}
use networking_projects.Weather.Scanning.{found}
use networking_projects.Weather.Scanning.Lines.{
  connect_text, sensor_text, connect_line-connect_text, sensor_line-sensor_text,
}
use networking_projects.Weather.Client.{
  choose_sensor_command, line_buffer, but_last, time_text, reading_line, send_text, connect_to_host,
  open_station, connect_to_weather_station, report, get_sensor_data, handle_request, serve,
}
use networking_projects.Weather.Client.Visits.{
  Works, Visit, IsVisit, answers_of, dialogue, next_call, at,
}
use networking_projects.Weather.Client.Buffers.{
  recv_line-some, length-line_buffer, recv_line-IsLine,
}

pub chosen_short :
    (request : RequestType) (sensor : List ℕ × List ℕ)
    → choose_sensor_command request ≡ some sensor
    → length sensor.0 ≤ 64
unfolding choose_sensor_command
chosen_short temperature sensor e = subst (λ s. length s.0 ≤ 64) (some-injective e) (omega arith)
chosen_short humidity sensor e = subst (λ s. length s.0 ≤ 64) (some-injective e) (omega arith)
chosen_short wind_speed sensor e = subst (λ s. length s.0 ≤ 64) (some-injective e) (omega arith)
chosen_short quit sensor e = absurd cc
chosen_short invalid sensor e = absurd cc

but_last-append : (c d : ℕ) (text : List ℕ) → but_last c (text ++ (d ∷ [])) ≡ c ∷ text
but_last-append c d [] = refl
but_last-append c d (e ∷ text) = ap (λ l. c ∷ l) (but_last-append e d text)

time_text-append : (text : List ℕ) (s : State) → time_text (some (text ++ codes "\n")) s ≡ ok text s
time_text-append [] s = refl
time_text-append (c ∷ text) s = ap (λ l. ok l s) (but_last-append c 10 text)

module _ (os : Os) (fds : ℕ → ℕ) (works : Works os fds) where
  pub send_text-Works :
      (fd : ℕ) (str : List ℕ) (s : State)
      → length str ≤ 64
      → send_text os (some fd) str s ≡ ok true (called (sent fd str) s)
  unfolding send_text
  send_text-Works fd str s h =
      let (n, takes, room) = works.takes s.calls in
      rw (takes, take_all n str (omega arith), send_text) refl

  pub connect_to_host-Works :
      (host port : List ℕ) (s : State)
      → connect_to_host os host port s
        ≡ ok (some (fds s.calls)) (called (connected host port (fds s.calls)) s)
  unfolding connect_to_host
  connect_to_host-Works host port s =
      rw (works.finds host port, works.socket s.calls, works.connects s.calls, connect_to_host) refl

  open_station-Works :
      (v : Visit) (rest : List ℕ) (calls : ℕ) (answers : List (Option (List ℕ))) (log : List Action)
      → IsVisit os v
      → open_station os
          (found (v.host, v.port, v.pass) rest)
          (at calls (some v.greeting ∷ answers) log)
        ≡ ok (some (fds calls)) (
            at (suc (suc calls)) answers (
              sent (fds calls) (codes "AUTH " ++ (v.pass ++ codes "\n"))
              ∷ connected v.host v.port (fds calls)
              ∷ log))
  unfolding open_station
  open_station-Works v rest calls answers log h =
      let message = codes "AUTH " ++ (v.pass ++ codes "\n") in
      let fits_in : length v.pass < 14 = h.pass_word.fits_in in
      let e : length (v.pass ++ codes "\n") ≡ length v.pass + 1 =
        length-append v.pass (codes "\n") in
      let short : length message ≤ 31 = omega arith in
      let (n, filled, answered, text) =
        recv_line-some (some (fds calls)) line_buffer v.greeting 255 (suc (suc calls)) answers
          (sent (fds calls) message ∷ connected v.host v.port (fds calls) ∷ log)
          length-line_buffer in
      rw
        (
          connect_to_host-Works v.host v.port (at calls (some v.greeting ∷ answers) log),
          take_all 31 message short,
          send_text-Works (fds calls) message
              (at (suc calls) (some v.greeting ∷ answers)
                (connected v.host v.port (fds calls) ∷ log))
              (omega arith),
          answered,
        )
        refl

  pub connect_to_weather_station-Works :
      (v : Visit) (fd calls : ℕ) (answers : List (Option (List ℕ))) (log : List Action)
      → IsVisit os v
      → connect_to_weather_station os
          (some fd)
          (at calls (some (connect_text v.host v.port v.pass) ∷ some v.greeting ∷ answers) log)
        ≡ ok (some (fds (suc calls))) (
            at (suc (suc (suc calls))) answers (
              sent (fds (suc calls)) (codes "AUTH " ++ (v.pass ++ codes "\n"))
              ∷ connected v.host v.port (fds (suc calls))
              ∷ closed (some fd)
              ∷ sent fd (codes "AUTH password123\n")
              ∷ log))
  unfolding connect_to_weather_station
  connect_to_weather_station-Works v fd calls answers log h =
      let line = connect_text v.host v.port v.pass in
      let asked = sent fd (codes "AUTH password123\n") ∷ log in
      let (n, filled, answered, text) =
        recv_line-IsLine (some fd) line (suc calls) (some v.greeting ∷ answers) asked
          h.connect_is_line in
      rw
        (
          send_text-Works fd (codes "AUTH password123\n")
              (at calls (some line ∷ some v.greeting ∷ answers) log) (omega arith),
          answered,
          text,
          connect_line-connect_text v.host v.port v.pass h.host_word h.port_word h.pass_word,
        )
        (open_station-Works v (codes "\n") (suc calls) answers (closed (some fd) ∷ asked) h)

  report-Works :
      (v : Visit) (fd : ℕ) (name rest : List ℕ) (s : State)
      → IsVisit os v
      → report os (some fd) name (found (v.timestamp, v.sensor_value, v.units) rest) s
        ≡ ok tt (
            at (suc s.calls) s.answers (
              closed (some fd)
              ∷ sent fd (codes "CLOSE\n")
              ∷ printed (reading_line name v.sensor_value v.units v.time)
              ∷ s.log))
  unfolding report
  report-Works v fd name rest s h =
      let line = reading_line name v.sensor_value v.units v.time in
      rw
        (
          h.has_time,
          time_text-append v.time s,
          send_text-Works fd (codes "CLOSE\n") (did (printed line) s) (omega arith),
        )
        refl

  get_sensor_data-Works :
      (request : RequestType) (command name : List ℕ) (v : Visit) (fd calls : ℕ)
      (answers : List (Option (List ℕ))) (log : List Action)
      → choose_sensor_command request ≡ some (command, name)
      → length command ≤ 64
      → IsVisit os v
      → get_sensor_data os
          (some fd)
          request
          (at calls (some (sensor_text v.timestamp v.sensor_value v.units) ∷ answers) log)
        ≡ ok tt (
            at (suc (suc calls)) answers (
              closed (some fd)
              ∷ sent fd (codes "CLOSE\n")
              ∷ printed (reading_line name v.sensor_value v.units v.time)
              ∷ sent fd command
              ∷ log))
  unfolding get_sensor_data
  get_sensor_data-Works request command name v fd calls answers log chosen short h =
      let line = sensor_text v.timestamp v.sensor_value v.units in
      let asked = sent fd command ∷ log in
      let (n, filled, answered, text) =
        recv_line-IsLine (some fd) line (suc calls) answers asked h.sensor_is_line in
      rw
        (
          chosen,
          get_sensor_data,
          send_text-Works fd command (at calls (some line ∷ answers) log) short,
          answered,
          text,
          sensor_line-sensor_text v.timestamp v.sensor_value v.units h.timestamp_fits h.value_fits
              h.units_word,
        )
        (report-Works v fd name (codes "\n") (at (suc calls) answers asked) h)

  -- One request is the whole dialogue: with answers as the servers write them, the program says to each
  -- server what it should, prints the reading, and closes both sockets.
  pub serve-Works :
      (request : RequestType) (command name : List ℕ) (v : Visit) (calls : ℕ)
      (later : List (Option (List ℕ))) (log : List Action)
      → choose_sensor_command request ≡ some (command, name)
      → IsVisit os v
      → serve os request (at calls (answers_of v later) log)
        ≡ ok tt (at (next_call calls) later (dialogue fds calls (command, name) v log))
  unfolding serve handle_request
  serve-Works request command name v calls later log chosen h =
      let server = fds calls in
      rw
        (
          connect_to_host-Works (codes "hopper.sandiego.edu") (codes "7030")
              (at calls (answers_of v later) log),
          connect_to_weather_station-Works v server (suc calls)
              (some (sensor_text v.timestamp v.sensor_value v.units) ∷ later)
              (connected (codes "hopper.sandiego.edu") (codes "7030") server ∷ log) h,
          get_sensor_data-Works request command name v (fds (suc (suc calls)))
              (suc (suc (suc (suc calls)))) later _ chosen
              (chosen_short request (command, name) chosen) h,
        )
        refl
