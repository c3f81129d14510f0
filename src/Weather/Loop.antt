-- ===== src/Weather/Loop.antt =====
-- The loop of the sensor client over the bytes of its input.
use networking_projects.Base.{
  ℕ, zero, suc, ◌+◌, ◌*◌, ◌<◌, ◌≤◌, ◌≡◌, ◌≢◌, ◌⊎◌, refl, inl, inr, Bool, true, false, Bool-cases,
  ◌==◌, Option, none, some, List, [], ◌∷◌, arith, length,
}
use networking_projects.Weather.State.{
  RequestType, temperature, humidity, wind_speed, quit, invalid, State, Os, Halt, blocked, Result,
  ok, halt,
}
use networking_projects.Weather.Input.{
  fgets, cons_line, Reading, leaves, gives, line_read, get_text_input, request_read,
  get_user_request,
}
use networking_projects.Weather.Client.Waits.{Spares, serve-Spares}
use networking_projects.Weather.Client.{
  serve, Outcome, finished, stopped, out_of_fuel, after, turn, main_loop, run,
}

-- The bytes of the line and those behind it are those of the input.
abbrev Parts : ℕ → Option (List ℕ × List ℕ) → Type 0
Parts n none = Unit
Parts n (some (line, rest)) = length line + length rest ≡ n

cons_line-Parts :
    (n c : ℕ) (found : Option (List ℕ × List ℕ)) → Parts n found → Parts (suc n) (cons_line c found)
cons_line-Parts n c none p = tt
cons_line-Parts n c (some (line, rest)) p = omega arith

fgets-Parts :
    (fails : Bool) (room : ℕ) (input : List ℕ) → Parts (length input) (fgets fails room input)
unfolding fgets
fgets-Parts fails zero input = omega arith
fgets-Parts true (suc room) [] = tt
fgets-Parts false (suc room) [] = omega arith
fgets-Parts fails (suc room) (c ∷ input) = elim (Bool-cases (c == 10)) [
  | inl ends ↦ rw (ends, fgets) (omega arith)
  | inr goes ↦
      rw (goes, fgets)
        (cons_line-Parts (length input) c (fgets fails room input) (fgets-Parts fails room input))
]

abbrev Shrinks : {A : Type 0} → ℕ → Reading A → Type 0
Shrinks n (leaves status) = Unit
Shrinks n (gives a rest) = length rest < n

line_read-Shrinks :
    (n : ℕ) (found : Option (List ℕ × List ℕ)) → Parts n found → Shrinks n (line_read found)
line_read-Shrinks n none p = tt
line_read-Shrinks n (some ([], rest)) p = tt
line_read-Shrinks n (some (c ∷ line, rest)) p = omega arith

request_read-Shrinks : (n : ℕ) (r : Reading (List ℕ)) → Shrinks n r → Shrinks n (request_read r)
request_read-Shrinks n (leaves status) p = tt
request_read-Shrinks n (gives line rest) p = p

-- Each request takes a byte of the input or more.
get_user_request-Shrinks :
    (fails : Bool) (input : List ℕ) → Shrinks (length input) (get_user_request fails input)
unfolding get_user_request get_text_input
get_user_request-Shrinks fails input =
    request_read-Shrinks (length input) (line_read (fgets fails 9 input))
      (line_read-Shrinks (length input) (fgets fails 9 input) (fgets-Parts fails 9 input))

-- The loop has returned, or the program has stopped other than in a `recv` that nothing answers.
abbrev Ends : Outcome → Type 0
Ends (finished s) = Unit
Ends (stopped h s) = h ≢ blocked
Ends out_of_fuel = ⊥

after-Ends :
    (m : ℕ) (r : Result (Unit {0})) (next : State → Outcome)
    → Spares m r
    → ((s : State) → m ≤ length s.answers → Ends (next s))
    → Ends (after r next)
after-Ends m (ok a s) next h go = go s h
after-Ends m (halt k s) next h go = h

-- The three answers that a turn may take are of the byte that it reads.
turn-Ends :
    (os : Os) (n : ℕ) (r : Reading RequestType) (loop : List ℕ → State → Outcome) (s : State)
    → Shrinks n r
    → 3 * n ≤ length s.answers
    → ((rest : List ℕ) (t : State)
        → length rest < n
        → 3 * length rest ≤ length t.answers
        → Ends (loop rest t))
    → Ends (turn os r loop s)
unfolding turn
turn-Ends os n (leaves status) loop s p room next = λ e. cc
turn-Ends os n (gives quit rest) loop s p room next = tt
turn-Ends os n (gives invalid rest) loop s p room next = next rest _ p (omega arith)
turn-Ends os n (gives temperature rest) loop s p room next =
    after-Ends (3 * length rest) (serve os temperature s) (loop rest)
      (serve-Spares os (3 * length rest) temperature s (omega arith)) (λ t. next rest t p)
turn-Ends os n (gives humidity rest) loop s p room next =
    after-Ends (3 * length rest) (serve os humidity s) (loop rest)
      (serve-Spares os (3 * length rest) humidity s (omega arith)) (λ t. next rest t p)
turn-Ends os n (gives wind_speed rest) loop s p room next =
    after-Ends (3 * length rest) (serve os wind_speed s) (loop rest)
      (serve-Spares os (3 * length rest) wind_speed s (omega arith)) (λ t. next rest t p)

main_loop-Ends :
    (os : Os) (fails : Bool) (fuel : ℕ) (input : List ℕ) (s : State)
    → length input < fuel
    → 3 * length input ≤ length s.answers
    → Ends (main_loop os fails fuel input s)
unfolding main_loop
main_loop-Ends os fails zero input s h room = absurd (omega arith)
main_loop-Ends os fails (suc fuel) input s h room =
    turn-Ends os (length input) (get_user_request fails input) (main_loop os fails fuel) s
      (get_user_request-Shrinks fails input) room
      (λ rest t shorter left. main_loop-Ends os fails fuel rest t (omega arith) left)

Ends-cases :
    (outcome : Outcome)
    → Ends outcome
    → ((s : State) × (outcome ≡ finished s))
      ⊎ ((h : Halt) × (s : State) × (outcome ≡ stopped h s) × (h ≢ blocked))
Ends-cases (finished s) e = inl (s, refl)
Ends-cases (stopped h s) e = inr (h, s, refl, e)
Ends-cases out_of_fuel e = absurd e

-- Let there be three answers to `recv` for each byte that the user types, whatever they are. Then,
-- whatever the system answers besides, the program ends: either its loop returns, or the program has
-- stopped by an exit or an undefined access. It neither waits for a `recv` for ever nor uses up the
-- fuel that stands for the loop's turns.
pub run-ends :
    (os : Os) (fails : Bool) (input : List ℕ) (answers : List (Option (List ℕ)))
    → 3 * length input ≤ length answers
    → ((s : State) × (run os fails input answers ≡ finished s))
      ⊎ ((h : Halt) × (s : State) × (run os fails input answers ≡ stopped h s) × (h ≢ blocked))
unfolding run
run-ends os fails input answers room = Ends-cases (run os fails input answers) (
    main_loop-Ends os fails (suc (length input)) input
      (record { calls = 0; answers = answers; log = [] }) (omega arith) room)
