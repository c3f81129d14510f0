-- ===== src/Weather/Tests.antt =====
-- Runs of the sensor client on samples.
use networking_projects.Base.{
  ℕ, ◌+◌, ◌≡◌, ◌≢◌, refl, inl, inr, Bool, true, false, not, Bool-cases, if◌then◌else◌, ◌==◌, Option,
  none, some, List, [], ◌∷◌, ◌++◌, ◌⊎◌, replicate, arith, All,
}
use networking_projects.Base.Zones.{All-map}
use networking_projects.Base.Int.{pos, negsuc}
use networking_projects.Base.Text.{is_space, up_to, c_string}
use networking_projects.Base.Text.Decimals.{IsDecimal}
use networking_projects.Weather.State.{
  temperature, wind_speed, invalid, halt, undefined, State, Halt, blocked,
}
use networking_projects.Weather.Input.{selection_of}
use networking_projects.Weather.Input.Selections.{number_of, selection_of-IsDecimal}
use networking_projects.Weather.Scanning.Lines.{connect_text, sensor_text}
use networking_projects.Weather.Client.{choose_sensor_command, line_buffer, recv_line, serve}
use networking_projects.Weather.Client.Visits.{Works, Visit, IsVisit, at}
use networking_projects.Weather.Client.Descriptors.{held}
use networking_projects.Weather.Client.Closing.{run-closes}
use networking_projects.Weather.Client.Overruns.{serve_overruns}
use networking_projects.Weather.Client.Underruns.{serve_underruns}
use networking_projects.Weather.Loop.{run-ends}
use networking_projects.Weather.Session.{
  Order, IsOrder, input_of, answers_to, dialogues, run-session,
}
use networking_projects.Base.Decimal.{codes, to_string}
use networking_projects.Weather.State.{Action, connected, sent, closed, printed, complained, Os}
use networking_projects.Weather.Client.{Outcome, finished, stopped, out_of_fuel, run}

-- A test of each byte that comes out true.
abbrev every : (ℕ → Bool) → List ℕ → Bool
every test [] = true
every test (c ∷ text) = if test c then every test text else false

every-All :
    (test : ℕ → Bool) (text : List ℕ) → every test text ≡ true → All (λ c. test c ≡ true) text
every-All test [] e = tt
every-All test (c ∷ text) e = elim (Bool-cases (test c)) [
  | inl is ↦ (is, every-All test text (rw is at e))
  | inr isnt ↦ absurd (let no : false ≡ true = rw isnt at e in cc)
]

false_of_not : (b : Bool) → not b ≡ true → b ≡ false
false_of_not true e = absurd cc
false_of_not false e = refl

-- A test of each byte that comes out false.
none_of :
    (test : ℕ → Bool) (text : List ℕ)
    → every (λ c. not (test c)) text ≡ true
    → All (λ c. test c ≡ false) text
none_of test text e =
    All-map (λ c. not (test c) ≡ true) (λ c. test c ≡ false) (λ c. false_of_not (test c)) text
      (every-All (λ c. not (test c)) text e)

abbrev quiet : Os
quiet = record {
  finds = λ host port. true;
  socket = λ k. some (k + 3);
  connects = λ k. true;
  takes = λ k. some 64;
  ctime = λ time. some (codes "Thu Jan  1 00:00:00 1970\n");
}

abbrev replies : List (Option (List ℕ))
replies =
    some (codes "CONNECT sensor.example 7031 secret\n")
    ∷ some (codes "SUCCESS\n")
    ∷ some (codes "0 -12 C\n")
    ∷ []

abbrev outcome_log : Outcome → List Action
outcome_log (finished s) = s.log
outcome_log (stopped h s) = s.log
outcome_log out_of_fuel = []

session :
    outcome_log (run quiet false (codes "x\n +1\n4") replies)
    ≡ printed (codes "GOODBYE!\n")
      ∷ closed (some 5)
      ∷ sent 5 (codes "CLOSE\n")
      ∷ printed (
          codes
            "\nThe last AIR TEMPERATURE reading was -12 C, taken at Thu Jan  1 00:00:00 1970\n\n")
      ∷ sent 5 (codes "AIR TEMPERATURE\n")
      ∷ sent 5 (codes "AUTH secret\n")
      ∷ connected (codes "sensor.example") (codes "7031") 5
      ∷ closed (some 3)
      ∷ sent 3 (codes "AUTH password123\n")
      ∷ connected (codes "hopper.sandiego.edu") (codes "7030") 3
      ∷ complained (codes "\n*** Invalid selection\n\n")
      ∷ []
unfolding run to_string recv_line line_buffer
session = refl

quiet-Works : Works quiet (λ k. k + 3)
quiet-Works = record {
  finds = λ host port. refl;
  socket = λ k. refl;
  connects = λ k. refl;
  takes = λ k. (64, refl, omega arith);
}

abbrev sample_visit : Visit
sample_visit = record {
  host = codes "sensor.example";
  port = codes "7031";
  pass = codes "secret";
  greeting = codes "SUCCESS\n";
  timestamp = pos 0;
  sensor_value = negsuc 11;
  units = codes "C";
  time = codes "Thu Jan  1 00:00:00 1970";
}

sample_visit-IsVisit : IsVisit quiet sample_visit
unfolding to_string
sample_visit-IsVisit = record {
  host_word = record {
    solid = none_of is_space (codes "sensor.example") refl;
    positive = omega arith;
    fits_in = omega arith;
  };
  port_word = record {
    solid = none_of is_space (codes "7031") refl;
    positive = omega arith;
    fits_in = omega arith;
  };
  pass_word = record {
    solid = none_of is_space (codes "secret") refl;
    positive = omega arith;
    fits_in = omega arith;
  };
  connect_is_line = record {
    fits_in = omega arith;
    solid =
        none_of (λ c. c == 0)
          (connect_text (codes "sensor.example") (codes "7031") (codes "secret")) refl;
  };
  sensor_is_line = record {
    fits_in = omega arith;
    solid = none_of (λ c. c == 0) (sensor_text (pos 0) (negsuc 11) (codes "C")) refl;
  };
  timestamp_fits = refl;
  value_fits = refl;
  units_word = record { solid = (refl, tt); positive = omega arith; fits_in = omega arith };
  has_time = refl;
}

abbrev sample_order : Order
sample_order = record {
  typed = codes " +1";
  request = temperature;
  sensor = (codes "AIR TEMPERATURE\n", codes "AIR TEMPERATURE");
  visit = sample_visit;
}

sample_order-IsOrder : IsOrder quiet sample_order
unfolding selection_of choose_sensor_command
sample_order-IsOrder = record {
  short = omega arith;
  one_line = none_of (λ c. c == 10) (codes " +1") refl;
  selects = refl;
  chosen = refl;
  known = sample_visit-IsVisit;
}

run-session_example :
    run quiet false
      (input_of (sample_order ∷ sample_order ∷ []))
      (answers_to (sample_order ∷ sample_order ∷ []))
    ≡ finished (
        at 12 [] (
          printed (codes "GOODBYE!\n")
          ∷ dialogues (λ k. k + 3) 0 (sample_order ∷ sample_order ∷ []) []))
run-session_example =
    run-session quiet (λ k. k + 3) quiet-Works false (sample_order ∷ sample_order ∷ [])
      (sample_order-IsOrder, (sample_order-IsOrder, tt))

run-ends_example :
    ((s : State) × (run quiet false (codes "2\n1\n") (replies ++ replicate 12 none) ≡ finished s))
    ⊎ ((h : Halt) × (s : State) × (run quiet false (codes "2\n1\n") (replies ++ replicate 12 none)
          ≡ stopped h s)
        × (h ≢ blocked))
run-ends_example =
    run-ends quiet false (codes "2\n1\n") (replies ++ replicate 12 none) (omega arith)

run-closes_example :
    held (printed (codes "GOODBYE!\n") ∷ dialogues (λ k. k + 3) 0 (sample_order ∷ []) []) ≡ []
run-closes_example =
    run-closes quiet false (input_of (sample_order ∷ [])) (answers_to (sample_order ∷ []))
      (at 6 [] (printed (codes "GOODBYE!\n") ∷ dialogues (λ k. k + 3) 0 (sample_order ∷ []) []))
      (run-session quiet (λ k. k + 3) quiet-Works false (sample_order ∷ [])
        (sample_order-IsOrder, tt))

selection_of-IsDecimal_example :
    (selection_of (codes " +03\n") ≡ wind_speed
      → IsDecimal (up_to 10 (c_string (codes " +03\n"))) (number_of wind_speed))
    × (IsDecimal (up_to 10 (c_string (codes " +03\n"))) (number_of wind_speed)
        → selection_of (codes " +03\n") ≡ wind_speed)
selection_of-IsDecimal_example =
    selection_of-IsDecimal (codes " +03\n") wind_speed (λ e. let f : wind_speed ≡ invalid = e in cc)

abbrev long_host : List ℕ
long_host = codes "a-station-with-a-name-that-is-too-long.example"

serve_overruns_example :
    serve quiet temperature (at 0 (some (connect_text long_host (codes "1") (codes "p")) ∷ []) [])
    ≡ halt undefined (
        at 2 [] (
          closed (some 3)
          ∷ sent 3 (codes "AUTH password123\n")
          ∷ connected (codes "hopper.sandiego.edu") (codes "7030") 3
          ∷ []))
serve_overruns_example =
    serve_overruns quiet (λ k. k + 3) quiet-Works temperature long_host (codes "1") (codes "p") 0 []
      [] (none_of is_space long_host refl) (omega arith)
      (record {
        fits_in = omega arith;
        solid = none_of (λ c. c == 0) (connect_text long_host (codes "1") (codes "p")) refl;
      })

serve_underruns_example :
    (serve quiet temperature (at 0 (none ∷ []) [])
      ≡ halt undefined (
          at 2 [] (
            closed (some 3)
            ∷ sent 3 (codes "AUTH password123\n")
            ∷ connected (codes "hopper.sandiego.edu") (codes "7030") 3
            ∷ [])))
    × (serve quiet temperature (
          at 0
            (some (connect_text (codes "sensor.example") (codes "7031") (codes "secret"))
              ∷ none
              ∷ [])
            [])
        ≡ halt undefined (
            at 4 [] (
              closed (some 5)
              ∷ sent 5 (codes "AUTH secret\n")
              ∷ connected (codes "sensor.example") (codes "7031") 5
              ∷ closed (some 3)
              ∷ sent 3 (codes "AUTH password123\n")
              ∷ connected (codes "hopper.sandiego.edu") (codes "7030") 3
              ∷ [])))
    × (serve quiet temperature (
          at 0
            (some (connect_text (codes "sensor.example") (codes "7031") (codes "secret"))
              ∷ some (codes "SUCCESS\n")
              ∷ none
              ∷ [])
            [])
        ≡ halt undefined (
            at 5 [] (
              closed (some 5)
              ∷ sent 5 (codes "AIR TEMPERATURE\n")
              ∷ sent 5 (codes "AUTH secret\n")
              ∷ connected (codes "sensor.example") (codes "7031") 5
              ∷ closed (some 3)
              ∷ sent 3 (codes "AUTH password123\n")
              ∷ connected (codes "hopper.sandiego.edu") (codes "7030") 3
              ∷ [])))
unfolding choose_sensor_command
serve_underruns_example =
    serve_underruns quiet (λ k. k + 3) quiet-Works temperature (codes "AIR TEMPERATURE\n")
      (codes "AIR TEMPERATURE") sample_visit 0 [] [] refl sample_visit-IsVisit
