-- ===== src/Weather/Client/Visits.antt =====
-- What the system and the two servers do for one request of client.c's user, and the dialogue that it
-- makes.
use networking_projects.Base.{
  ℕ, suc, ◌≤◌, ◌≡◌, true, false, ◌==◌, Option, some, List, ◌∷◌, ◌++◌, length, All,
}
use networking_projects.Base.Decimal.{codes}
use networking_projects.Base.Int.{fits, ℤ}
use networking_projects.Weather.State.{Action, connected, sent, closed, printed, State, Os}
use networking_projects.Weather.Scanning.Lines.{IsWord, connect_text, sensor_text}
use networking_projects.Weather.Client.{reading_line}

-- A system that finds each host, opens and connects each socket, with descriptors of its own choice,
-- and takes 64 bytes of a `send` at least.
pub record Works (os : Os) (fds : ℕ → ℕ) : Type 0 where
  pub finds : (host port : List ℕ) → os.finds host port ≡ true
  pub socket : (k : ℕ) → os.socket k ≡ some (fds k)
  pub connects : (k : ℕ) → os.connects k ≡ true
  pub takes : (k : ℕ) → (n : ℕ) × (os.takes k ≡ some n) × (64 ≤ n)

-- A line that the buffer has room for, and that is a C string.
pub record IsLine (bytes : List ℕ) : Type 0 where
  pub fits_in : length bytes ≤ 255
  pub solid : All (λ c. (c == 0) ≡ false) bytes

-- What the servers know: the station and its password, and the reading of its sensor.
pub record Visit : Type 0 where
  pub host : List ℕ
  pub port : List ℕ
  pub pass : List ℕ
  pub greeting : List ℕ
  pub timestamp : ℤ
  pub sensor_value : ℤ
  pub units : List ℕ
  pub time : List ℕ

-- The arrays and types of the code have room for all of it, and ctime has a text for the time.
pub record IsVisit (os : Os) (v : Visit) : Type 0 where
  pub host_word : IsWord 28 v.host
  pub port_word : IsWord 10 v.port
  pub pass_word : IsWord 14 v.pass
  pub connect_is_line : IsLine (connect_text v.host v.port v.pass)
  pub sensor_is_line : IsLine (sensor_text v.timestamp v.sensor_value v.units)
  pub timestamp_fits : fits 63 v.timestamp ≡ true
  pub value_fits : fits 31 v.sensor_value ≡ true
  pub units_word : IsWord 10 v.units
  pub has_time : os.ctime v.timestamp ≡ some (v.time ++ codes "\n")

-- What the three calls of `recv` return.
abbrev pub answers_of : Visit → List (Option (List ℕ)) → List (Option (List ℕ))
answers_of v later =
    some (connect_text v.host v.port v.pass)
    ∷ some v.greeting
    ∷ some (sensor_text v.timestamp v.sensor_value v.units)
    ∷ later

-- What the program does, the latest first: it sends the password to the first server and closes that
-- socket, sends the station's password and the command to the station, prints the reading, and closes.
abbrev pub dialogue : (ℕ → ℕ) → ℕ → List ℕ × List ℕ → Visit → List Action → List Action
dialogue fds calls (command, name) v log =
    let server = fds calls in
    let station = fds (suc (suc calls)) in
    closed (some station)
    ∷ sent station (codes "CLOSE\n")
    ∷ printed (reading_line name v.sensor_value v.units v.time)
    ∷ sent station command
    ∷ sent station (codes "AUTH " ++ (v.pass ++ codes "\n"))
    ∷ connected v.host v.port station
    ∷ closed (some server)
    ∷ sent server (codes "AUTH password123\n")
    ∷ connected (codes "hopper.sandiego.edu") (codes "7030") server
    ∷ log

-- The number of calls of the system after a dialogue.
abbrev pub next_call : ℕ → ℕ
next_call calls = suc (suc (suc (suc (suc (suc calls)))))

abbrev pub at : ℕ → List (Option (List ℕ)) → List Action → State
at calls answers log = record { calls = calls; answers = answers; log = log }
