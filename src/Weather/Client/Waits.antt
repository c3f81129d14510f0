-- ===== src/Weather/Client/Waits.antt =====
-- client.c: how many answers of `recv` a request waits for.
use networking_projects.Base.{
  ℕ, suc, ◌≤◌, ◌≡◌, ◌≢◌, refl, Bool, true, false, Bool-cases, inl, inr, if◌then◌else◌, Option, none,
  some, Option-cases, List, [], ◌∷◌, ◌++◌, arith, length, take,
}
use networking_projects.Base.Decimal.{codes}
use networking_projects.Base.Int.{ℤ, pos, negsuc}
use networking_projects.Base.Text.{c_string}
use networking_projects.Weather.State.{
  RequestType, closed, printed, State, Os, blocked, Result, ok, halt, M, bind, pure, did, act,
  ◌>>=◌, ◌>>◌,
}
use networking_projects.Weather.Scanning.{Scan, found, mismatch, overrun, connect_line, sensor_line}
use networking_projects.Weather.Client.{
  choose_sensor_command, line_buffer, store_at, terminated, recv_line, if_received, time_text,
  reading_line, send_text, connect_to_host, open_station, connect_to_weather_station, report,
  get_sensor_data, handle_request, serve,
}

-- A call that returns leaves as many answers at least, and one that stops does not wait for one.
abbrev pub Spares {ℓ} : {A : Type ℓ} → ℕ → Result A → Type 0
Spares m (ok a s) = m ≤ length s.answers
Spares m (halt h s) = h ≢ blocked

bind-Spares {ℓ κ} :
    {A : Type ℓ} {B : Type κ} (k m : ℕ) (r : Result A) (f : A → M B)
    → Spares k r
    → ((a : A) (s : State) → k ≤ length s.answers → Spares m (f a s))
    → Spares m (bind r f)
bind-Spares k m (ok a s) f h next = next a s h
bind-Spares k m (halt c s) f h next = h

if_received-Spares {ℓ} :
    {A : Type ℓ} (m : ℕ) (answer : ℤ × List ℕ) (failed : M A) (next : List ℕ → M A) (s : State)
    → Spares m (failed s)
    → ((buffer : List ℕ) → Spares m (next buffer s))
    → Spares m (if_received answer failed next s)
if_received-Spares m (negsuc n, buffer) failed next s h go = h
if_received-Spares m (pos n, buffer) failed next s h go = go buffer

terminated-Spares :
    (m : ℕ) (num_bytes : ℤ) (stored : Option (List ℕ)) (s : State)
    → m ≤ length s.answers
    → Spares m (terminated num_bytes stored s)
terminated-Spares m num_bytes none s h = λ e. cc
terminated-Spares m num_bytes (some buffer) s h = h

recv_line-answered :
    (m : ℕ) (fd : Option ℕ) (buffer : List ℕ) (room : ℕ) (s : State)
    (answers : List (Option (List ℕ)))
    → s.answers ≡ answers
    → suc m ≤ length answers
    → Spares m (recv_line fd buffer (suc room) s)
unfolding recv_line store_at
recv_line-answered m fd buffer room s [] e h = absurd (omega arith)
recv_line-answered m fd buffer room s (none ∷ answers) e h = rw (e, recv_line) (λ c. cc)
recv_line-answered m fd buffer room s (some bytes ∷ answers) e h =
    rw (e, recv_line)
      (terminated-Spares m (pos (length (take room bytes))) _ (record s { answers = answers })
        (omega arith))

recv_line-Spares :
    (m : ℕ) (fd : Option ℕ) (buffer : List ℕ) (room : ℕ) (s : State)
    → suc m ≤ length s.answers
    → Spares m (recv_line fd buffer (suc room) s)
recv_line-Spares m fd buffer room s h = recv_line-answered m fd buffer room s s.answers refl h

time_text-Spares :
    (m : ℕ) (text : Option (List ℕ)) (s : State)
    → m ≤ length s.answers
    → Spares m (time_text text s)
time_text-Spares m none s h = λ e. cc
time_text-Spares m (some []) s h = λ e. cc
time_text-Spares m (some (c ∷ text)) s h = h

module _ (os : Os) (m : ℕ) where
  send_text-Spares :
      (fd : Option ℕ) (str : List ℕ) (s : State)
      → m ≤ length s.answers
      → Spares m (send_text os fd str s)
  unfolding send_text
  send_text-Spares none str s h = h
  send_text-Spares (some fd) str s h = elim (Option-cases (os.takes s.calls)) [
    | inl fails ↦ rw (fails, send_text) h
    | inr (n, takes) ↦ rw (takes, send_text) h
  ]

  connect_to_host-Spares :
      (host port : List ℕ) (s : State)
      → m ≤ length s.answers
      → Spares m (connect_to_host os host port s)
  unfolding connect_to_host
  connect_to_host-Spares host port s h = elim (Bool-cases (os.finds host port)) [
    | inr lost ↦ rw (lost, connect_to_host) (λ e. cc)
    | inl finds ↦ elim (Option-cases (os.socket s.calls)) [
      | inl fails ↦ rw (finds, fails, connect_to_host) (λ e. cc)
      | inr (fd, opens) ↦ elim (Bool-cases (os.connects s.calls)) [
        | inl connects ↦ rw (finds, opens, connects, connect_to_host) h
        | inr fails ↦ rw (finds, opens, fails, connect_to_host) (λ e. cc)
      ]
    ]
  ]

module _ (os : Os) (m : ℕ) where
  open_station-Spares :
      (line : Scan (List ℕ × List ℕ × List ℕ)) (s : State)
      → suc m ≤ length s.answers
      → Spares m (open_station os line s)
  unfolding open_station
  open_station-Spares overrun s h = λ e. cc
  open_station-Spares mismatch s h = omega arith
  open_station-Spares (found (host, port, pass) rest) s h =
      bind-Spares (suc m) m (connect_to_host os host port s) _
        (connect_to_host-Spares os (suc m) host port s h)
        (λ fd t left.
          bind-Spares (suc m) m
            (send_text os fd (take 31 (codes "AUTH " ++ (pass ++ codes "\n"))) t) _
            (send_text-Spares os (suc m) fd (take 31 (codes "AUTH " ++ (pass ++ codes "\n"))) t
              left)
            (greeted fd))
    where
      greeted :
          (fd : Option ℕ) (authenticated : Bool) (t : State)
          → suc m ≤ length t.answers
          → Spares m (
              (if authenticated
                  then (do
                    answer ← recv_line fd line_buffer 256
                    if_received answer (pure none) (λ buffer. pure fd))
                  else pure none)
                t)
      greeted fd true t h =
          bind-Spares m m (recv_line fd line_buffer 256 t) _
            (recv_line-Spares m fd line_buffer 255 t h)
            (λ answer u left. if_received-Spares m answer _ _ u left (λ buffer. left))
      greeted fd false t h = omega arith

  connect_to_weather_station-Spares :
      (server_socket : Option ℕ) (s : State)
      → suc (suc m) ≤ length s.answers
      → Spares m (connect_to_weather_station os server_socket s)
  unfolding connect_to_weather_station
  connect_to_weather_station-Spares server_socket s h =
      bind-Spares (suc (suc m)) m (send_text os server_socket (codes "AUTH password123\n") s) _
        (send_text-Spares os (suc (suc m)) server_socket (codes "AUTH password123\n") s h) told
    where
      told :
          (authenticated : Bool) (t : State)
          → suc (suc m) ≤ length t.answers
          → Spares m (
              (if authenticated
                  then (do
                    answer ← recv_line server_socket line_buffer 256
                    if_received answer (pure none) (λ buffer.
                        act (closed server_socket)
                        >> open_station os (connect_line (c_string buffer))))
                  else pure none)
                t)
      told true t h =
          bind-Spares (suc m) m (recv_line server_socket line_buffer 256 t) _
            (recv_line-Spares (suc m) server_socket line_buffer 255 t h)
            (λ answer u left. if_received-Spares m answer _ _ u (omega arith) (λ buffer.
              open_station-Spares (connect_line (c_string buffer))
                (record u { log = closed server_socket ∷ u.log }) left))
      told false t h = omega arith

  report-Spares :
      (fd : Option ℕ) (name : List ℕ) (reading : Scan (ℤ × ℤ × List ℕ)) (s : State)
      → m ≤ length s.answers
      → Spares m (report os fd name reading s)
  unfolding report
  report-Spares fd name overrun s h = λ e. cc
  report-Spares fd name mismatch s h = h
  report-Spares fd name (found (time, value, units) rest) s h =
      bind-Spares m m (time_text (os.ctime time) s) _ (time_text-Spares m (os.ctime time) s h)
        (λ time_str t left.
          bind-Spares m m
            (send_text os fd (codes "CLOSE\n")
              (did (printed (reading_line name value units time_str)) t))
            _
            (send_text-Spares os m fd (codes "CLOSE\n")
              (did (printed (reading_line name value units time_str)) t) left)
            said)
    where
      said :
          (told : Bool) (t : State)
          → m ≤ length t.answers
          → Spares m ((if told then act (closed fd) else pure tt) t)
      said true t h = h
      said false t h = h

  get_sensor_data-Spares :
      (fd : Option ℕ) (request : RequestType) (s : State)
      → suc m ≤ length s.answers
      → Spares m (get_sensor_data os fd request s)
  unfolding get_sensor_data
  get_sensor_data-Spares fd request s h = elim (Option-cases (choose_sensor_command request)) [
    | inl e ↦ rw (e, get_sensor_data) (λ c. cc)
    | inr ((command, name), e) ↦
        rw (e, get_sensor_data)
          (bind-Spares (suc m) m (send_text os fd command s) _
            (send_text-Spares os (suc m) fd command s h) (told name))
  ]
    where
      told :
          (name : List ℕ) (asked : Bool) (t : State)
          → suc m ≤ length t.answers
          → Spares m (
              (if asked
                  then (do
                    answer ← recv_line fd line_buffer 256
                    if_received answer
                        (pure tt)
                        (λ buffer. report os fd name (sensor_line (c_string buffer))))
                  else pure tt)
                t)
      told name true t h =
          bind-Spares m m (recv_line fd line_buffer 256 t) _
            (recv_line-Spares m fd line_buffer 255 t h)
            (λ answer u left.
              if_received-Spares m answer _ _ u left
                (λ buffer. report-Spares fd name (sensor_line (c_string buffer)) u left))
      told name false t h = omega arith

-- A request takes three answers at most.
pub serve-Spares :
    (os : Os) (m : ℕ) (request : RequestType) (s : State)
    → suc (suc (suc m)) ≤ length s.answers
    → Spares m (serve os request s)
unfolding serve handle_request
serve-Spares os m request s h =
    let hopper = codes "hopper.sandiego.edu" in
    bind-Spares (suc (suc (suc m))) m (connect_to_host os hopper (codes "7030") s) _
      (connect_to_host-Spares os (suc (suc (suc m))) hopper (codes "7030") s h)
      (λ fd t left.
        bind-Spares (suc m) m (connect_to_weather_station os fd t) _
          (connect_to_weather_station-Spares os (suc m) fd t left)
          (λ station u kept. get_sensor_data-Spares os m station request u kept))
