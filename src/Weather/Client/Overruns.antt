-- ===== src/Weather/Client/Overruns.antt =====
-- Answers to the sensor client that make it write outside its arrays.
use networking_projects.Base.{
  ℕ, suc, ◌≤◌, ◌<◌, ◌≡◌, refl, false, ltb, Option, some, List, ◌∷◌, ◌++◌, arith, length,
  length-append, All,
}
use networking_projects.Base.Decimal.{codes}
use networking_projects.Base.Text.{is_space}
use networking_projects.Base.Text.Numbers.{AtSpace, word-append}
use networking_projects.Weather.State.{
  RequestType, Action, connected, sent, closed, Os, halt, undefined,
}
use networking_projects.Weather.Scanning.{overrun, string_into, connect_line}
use networking_projects.Weather.Scanning.Lines.{
  IsWord, connect_text, skip_space-word, string_into-space,
}
use networking_projects.Weather.Client.{serve, connect_to_weather_station, handle_request}
use networking_projects.Weather.Client.Visits.{Works, IsLine, at}
use networking_projects.Weather.Client.Buffers.{recv_line-IsLine}
use networking_projects.Weather.Client.Dialogue.{send_text-Works, connect_to_host-Works}

string_into-overrun :
    (size : ℕ) (w rest : List ℕ)
    → All (λ c. is_space c ≡ false) w
    → 0 < length w
    → size ≤ length w
    → AtSpace rest
    → string_into size (w ++ rest) ≡ overrun
unfolding string_into
string_into-overrun size w rest solid positive large e =
    let w_word : IsWord (suc (length w)) w = record {
      solid = solid;
      positive = positive;
      fits_in = omega arith;
    } in
    let first = skip_space-word (suc (length w)) w rest w_word in
    let room : length w ≤ length (w ++ rest) = omega (arith, length-append w rest) in
    let full : ltb (length w) size ≡ false = ground (arith, large) in
    rw (first, word-append (length (w ++ rest)) w rest solid room e, full, string_into) refl

connect_line-overrun :
    (host port pass : List ℕ)
    → All (λ c. is_space c ≡ false) host
    → 28 ≤ length host
    → connect_line (connect_text host port pass) ≡ overrun
unfolding connect_line
connect_line-overrun host port pass solid large =
    let after_host = 32 ∷ (port ++ (32 ∷ (pass ++ codes "\n"))) in
    rw
      (
        string_into-space 28 (host ++ after_host),
        string_into-overrun 28 host after_host solid (omega arith) large refl,
      )
      refl

module _ (os : Os) (fds : ℕ → ℕ) (works : Works os fds) where
  abbrev greeted : ℕ → List Action → List Action
  greeted calls log =
      sent (fds calls) (codes "AUTH password123\n")
      ∷ connected (codes "hopper.sandiego.edu") (codes "7030") (fds calls)
      ∷ log

  -- Let every call of the system but `recv` succeed. When the first server names a host of 28 bytes or
  -- more, none of them white space, in a line that the buffer has room for and that has no NUL, the
  -- request ends in a write behind the array of the host.
  pub serve_overruns :
      (request : RequestType) (host port pass : List ℕ) (calls : ℕ) (later : List (Option (List ℕ)))
      (log : List Action)
      → All (λ c. is_space c ≡ false) host
      → 28 ≤ length host
      → IsLine (connect_text host port pass)
      → serve os request (at calls (some (connect_text host port pass) ∷ later) log)
        ≡ halt undefined
            (at (suc (suc calls)) later (closed (some (fds calls)) ∷ greeted calls log))
  unfolding serve handle_request connect_to_weather_station
  serve_overruns request host port pass calls later log solid large is_line =
      let line = connect_text host port pass in
      let hopper = connected (codes "hopper.sandiego.edu") (codes "7030") (fds calls) ∷ log in
      let (n, filled, answered, text) =
        recv_line-IsLine (some (fds calls)) line (suc (suc calls)) later (greeted calls log)
          is_line in
      rw
        (
          connect_to_host-Works os fds works (codes "hopper.sandiego.edu") (codes "7030")
              (at calls (some line ∷ later) log),
          send_text-Works os fds works (fds calls) (codes "AUTH password123\n")
              (at (suc calls) (some line ∷ later) hopper) (omega arith),
          answered,
          text,
          connect_line-overrun host port pass solid large,
        )
        refl
