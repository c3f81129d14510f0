-- ===== src/Weather/Scanning/Lines.antt =====
-- The lines that client.c's formats read: written as the servers write them, they are read back.
use networking_projects.Base.{
  ℕ, suc, ◌≤◌, ◌<◌, ◌≡◌, refl, true, false, ltb, ltb_of_lt, List, [], ◌∷◌, ◌++◌, arith, length,
  length-append, All,
}
use networking_projects.Base.Decimal.{codes}
use networking_projects.Base.Int.{fits, ℤ, print_int}
use networking_projects.Base.Text.{is_space, is_digit, skip_space, integer}
use networking_projects.Base.Text.Numbers.{
  Ends, AtSpace, skip_space_twice, integer-print_int, word-append,
}
use networking_projects.Weather.Scanning.{
  found, not_empty, string_into, string_of, signed_into, connect_line, sensor_line,
}

-- A word that an array of so many bytes has room for.
pub record IsWord (size : ℕ) (w : List ℕ) : Type 0 where
  pub solid : All (λ c. is_space c ≡ false) w
  pub positive : 0 < length w
  pub fits_in : length w < size

-- "CONNECT", the host, the port and the password, and the end of the line.
abbrev pub connect_text : List ℕ → List ℕ → List ℕ → List ℕ
connect_text host port pass =
    codes "CONNECT" ++ (32 ∷ (host ++ (32 ∷ (port ++ (32 ∷ (pass ++ codes "\n"))))))

-- The time, the value and the units, and the end of the line.
abbrev pub sensor_text : ℤ → ℤ → List ℕ → List ℕ
sensor_text timestamp sensor_value units =
    print_int timestamp ++ (32 ∷ (print_int sensor_value ++ (32 ∷ (units ++ codes "\n"))))

pub skip_space-word :
    (size : ℕ) (w rest : List ℕ) → IsWord size w → skip_space (w ++ rest) ≡ w ++ rest
unfolding skip_space
skip_space-word size [] rest h = absurd (omega (arith, h.positive))
skip_space-word size (c ∷ w) rest h = rw (h.solid.0, skip_space) refl

not_empty-word : (size : ℕ) (w rest : List ℕ) → IsWord size w → not_empty w rest ≡ found w rest
not_empty-word size [] rest h = absurd (omega (arith, h.positive))
not_empty-word size (c ∷ w) rest h = refl

string_into-append :
    (size : ℕ) (w rest : List ℕ)
    → IsWord size w
    → AtSpace rest
    → string_into size (w ++ rest) ≡ found w rest
unfolding string_into
string_into-append size w rest h e =
    let first = skip_space-word size w rest h in
    let room : length w ≤ length (w ++ rest) = omega (arith, length-append w rest) in
    let fit : ltb (length w) size ≡ true = ltb_of_lt (length w) size h.fits_in in
    rw (first, word-append (length (w ++ rest)) w rest h.solid room e, fit, string_into)
      (not_empty-word size w rest h)

string_of-append :
    (width : ℕ) (w rest : List ℕ)
    → IsWord (suc width) w
    → AtSpace rest
    → string_of width (w ++ rest) ≡ found w rest
unfolding string_of
string_of-append width w rest h e =
    let first = skip_space-word (suc width) w rest h in
    let room : length w ≤ width = omega (arith, h.fits_in) in
    rw (first, word-append width w rest h.solid room e, string_of)
      (not_empty-word (suc width) w rest h)

signed_into-print_int :
    (bits : ℕ) (z : ℤ) (rest : List ℕ)
    → fits bits z ≡ true
    → Ends is_digit rest
    → signed_into bits (print_int z ++ rest) ≡ found z rest
unfolding signed_into
signed_into-print_int bits z rest h e = rw (integer-print_int z rest e, h, signed_into) refl

-- White space in front of a conversion makes no difference to it.
pub string_into-space :
    (size : ℕ) (text : List ℕ) → string_into size (skip_space (32 ∷ text)) ≡ string_into size text
unfolding string_into skip_space
string_into-space size text = rw (skip_space_twice text) refl

string_of-space :
    (width : ℕ) (text : List ℕ) → string_of width (skip_space (32 ∷ text)) ≡ string_of width text
unfolding string_of skip_space
string_of-space width text = rw (skip_space_twice text) refl

signed_into-space :
    (bits : ℕ) (text : List ℕ) → signed_into bits (skip_space (32 ∷ text)) ≡ signed_into bits text
unfolding signed_into integer skip_space
signed_into-space bits text = rw (skip_space_twice text) refl

pub connect_line-connect_text :
    (host port pass : List ℕ)
    → IsWord 28 host
    → IsWord 10 port
    → IsWord 14 pass
    → connect_line (connect_text host port pass) ≡ found (host, port, pass) (codes "\n")
unfolding connect_line
connect_line-connect_text host port pass h p w =
    let after_port = 32 ∷ (pass ++ codes "\n") in
    let after_host = 32 ∷ (port ++ after_port) in
    rw
      (
        string_into-space 28 (host ++ after_host),
        string_into-append 28 host after_host h refl,
        string_into-space 10 (port ++ after_port),
        string_into-append 10 port after_port p refl,
        string_into-space 14 (pass ++ codes "\n"),
        string_into-append 14 pass (codes "\n") w refl,
      )
      refl

pub sensor_line-sensor_text :
    (timestamp sensor_value : ℤ) (units : List ℕ)
    → fits 63 timestamp ≡ true
    → fits 31 sensor_value ≡ true
    → IsWord 10 units
    → sensor_line (sensor_text timestamp sensor_value units)
      ≡ found (timestamp, sensor_value, units) (codes "\n")
unfolding sensor_line
sensor_line-sensor_text timestamp sensor_value units t v u =
    let after_value = 32 ∷ (units ++ codes "\n") in
    let after_time = 32 ∷ (print_int sensor_value ++ after_value) in
    rw
      (
        signed_into-print_int 63 timestamp after_time t refl,
        signed_into-space 31 (print_int sensor_value ++ after_value),
        signed_into-print_int 31 sensor_value after_value v refl,
        string_of-space 9 (units ++ codes "\n"),
        string_of-append 9 units (codes "\n") u refl,
      )
      refl
