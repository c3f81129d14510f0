-- ===== src/Weather/Scanning.antt =====
-- client.c: the two formats that it hands to sscanf. Each conversion reads on from the byte where the
-- one before it ended.
pub mod Lines
use networking_projects.Base.{
  ℕ, ◌^◌, Bool, Option, none, some, true, false, List, [], ◌∷◌, ltb, ◌==◌, if◌then◌else◌, length,
}
use networking_projects.Base.Decimal.{codes}
use networking_projects.Base.Int.{fits, ℤ, pos, negsuc}
use networking_projects.Base.Text.{skip_space, integer, word}

-- The conversions up to a place succeed; one does not match; or one writes outside its array, or a
-- number that its type has no room for.
pub data Scan {ℓ} (A : Type ℓ) : Type ℓ where
  found : A → List ℕ → Scan A
  mismatch overrun : Scan A

abbrev pub Scanner {ℓ} : Type ℓ → Type ℓ
Scanner A = List ℕ → Scan A

abbrev pub pure {ℓ} : {A : Type ℓ} → A → Scanner A
pure a text = found a text

abbrev pub bind {ℓ κ} : {A : Type ℓ} {B : Type κ} → Scan A → (A → Scanner B) → Scan B
bind (found a text) f = f a text
bind mismatch f = mismatch
bind overrun f = overrun

infixl 5 ◌>>=◌ ◌>>◌
abbrev pub ◌>>=◌ {ℓ κ} : {A : Type ℓ} {B : Type κ} → Scanner A → (A → Scanner B) → Scanner B
◌>>=◌ m f text = bind (m text) f

abbrev pub ◌>>◌ {ℓ κ} : {A : Type ℓ} {B : Type κ} → Scanner A → Scanner B → Scanner B
m >> k = m >>= λ _. k

-- Bytes of the format that stand for themselves.
unfoldable pub literal : List ℕ → Scanner (Unit {0})
literal [] text = found tt text
literal (c ∷ format) [] = mismatch
literal (c ∷ format) (d ∷ text) = elim (d == c) [ true ↦ literal format text | false ↦ mismatch ]

-- A space of the format, which any white space matches.
abbrev pub space : Scanner (Unit {0})
space text = found tt (skip_space text)

abbrev pub not_empty : List ℕ → List ℕ → Scan (List ℕ)
not_empty [] rest = mismatch
not_empty (c ∷ w) rest = found (c ∷ w) rest

-- `%s`, into an array of so many bytes, of which the last one is for the NUL.
abbrev pub fitted : ℕ → List ℕ → List ℕ → Scan (List ℕ)
fitted size w rest = if ltb (length w) size then not_empty w rest else overrun

unfoldable pub string_into : ℕ → Scanner (List ℕ)
unfolding word skip_space
string_into size text =
    let w = word (length (skip_space text)) (skip_space text) in fitted size w.0 w.1

-- `%s` with a width.
unfoldable pub string_of : ℕ → Scanner (List ℕ)
unfolding word skip_space
string_of width text = let w = word width (skip_space text) in not_empty w.0 w.1

abbrev pub in_range : ℕ → Option (ℤ × List ℕ) → Scan ℤ
in_range bits none = mismatch
in_range bits (some (z, rest)) = if fits bits z then found z rest else overrun

-- `%d` and `%ld`
unfoldable pub signed_into : ℕ → Scanner ℤ
unfolding integer
signed_into bits text = in_range bits (integer text)

-- "CONNECT %s %s %s", into the host, the port and the password.
unfoldable pub connect_line : Scanner (List ℕ × List ℕ × List ℕ)
unfolding literal string_into skip_space
connect_line = do
  literal (codes "CONNECT")
  space
  weather_station_host ← string_into 28
  space
  weather_station_port ← string_into 10
  space
  weather_station_pass ← string_into 14
  pure (weather_station_host, weather_station_port, weather_station_pass)

-- "%ld %d %9s", into the time, the value and the units.
unfoldable pub sensor_line : Scanner (ℤ × ℤ × List ℕ)
unfolding signed_into string_of skip_space
sensor_line = do
  timestamp ← signed_into 63
  space
  sensor_value ← signed_into 31
  space
  units ← string_of 9
  pure (timestamp, sensor_value, units)
