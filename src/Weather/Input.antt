-- ===== src/Weather/Input.antt =====
-- io_helpers.c's get_text_input and client.c's get_user_request, over the bytes of the standard input.
-- `fails` tells that reading past the last of them is an error, and not the end of the file.
pub mod Selections
use networking_projects.Base.{
  ℕ, zero, suc, Bool, Option, none, some, true, false, List, [], ◌∷◌, ◌==◌, if◌then◌else◌,
}
use networking_projects.Base.Int.{ℤ, pos, negsuc}
use networking_projects.Base.Text.{integer, up_to, c_string}
use networking_projects.Weather.State.{
  RequestType, temperature, humidity, wind_speed, quit, invalid,
}

-- `fgets` with room for so many bytes before the NUL: the line and what follows it, or an error.
abbrev pub cons_line : ℕ → Option (List ℕ × List ℕ) → Option (List ℕ × List ℕ)
cons_line c none = none
cons_line c (some (line, input)) = some (c ∷ line, input)

unfoldable pub fgets : Bool → ℕ → List ℕ → Option (List ℕ × List ℕ)
fgets fails zero input = some ([], input)
fgets fails (suc room) [] = if fails then none else some ([], [])
fgets fails (suc room) (c ∷ input) = elim (c == 10) [
  | true ↦ some (c ∷ [], input)
  | false ↦ cons_line c (fgets fails room input)
]

-- A call that reads the input: it exits with a status, or has a value and leaves the rest.
pub data Reading (A : Type 0) : Type 0 where
  leaves : ℕ → Reading A
  gives : A → List ℕ → Reading A

-- What `fgets` gives. A line without a byte is the end of the file.
abbrev pub line_read : Option (List ℕ × List ℕ) → Reading (List ℕ)
line_read none = leaves 1
line_read (some ([], input)) = leaves 0
line_read (some (c ∷ line, input)) = gives (c ∷ line) input

unfoldable pub get_text_input : Bool → ℕ → List ℕ → Reading (List ℕ)
unfolding fgets
get_text_input fails room input = line_read (fgets fails room input)

abbrev pub request_of : ℤ → RequestType
request_of (negsuc n) = invalid
request_of (pos n) =
    if n == 1
    then temperature
    else if n == 2
    then humidity
    else if n == 3
    then wind_speed
    else if n == 4
    then quit
    else invalid

-- `strtol` and the tests of where it ended and of what it returned.
abbrev pub checked_request : Option (ℤ × List ℕ) → RequestType
checked_request none = invalid
checked_request (some (selection, [])) = request_of selection
checked_request (some (selection, c ∷ rest)) = invalid

-- The text of the line, up to its end.
unfoldable pub selection_of : List ℕ → RequestType
unfolding integer up_to
selection_of line = checked_request (integer (up_to 10 (c_string line)))

abbrev pub request_read : Reading (List ℕ) → Reading RequestType
request_read (leaves status) = leaves status
request_read (gives line input) = gives (selection_of line) input

unfoldable pub get_user_request : Bool → List ℕ → Reading RequestType
unfolding get_text_input selection_of
get_user_request fails input = request_read (get_text_input fails 9 input)
