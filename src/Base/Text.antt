-- ===== src/Base/Text.antt =====
-- What the C and C++ libraries read out of text, as the programs use it: the character classes of the
-- "C" locale, strtol and std::stoi, the conversions of sscanf, and the end of a C string.
pub mod Numbers
pub mod Decimals
use networking_projects.Base.Tests.{leb, ltb, ◌==◌, if◌then◌else◌}
use networking_projects.Base.Int.{fits, to_unsigned, ℤ, pos, negsuc, negate}
use Prim.Native.Nat.{ℕ, zero, suc, ◌+◌, ◌-◌, ◌*◌, ◌^◌}
use mathlib.Core.Bool.{Bool, true, false, not, ◌&&◌, ◌||◌}
use mathlib.Core.Option.{Option, none, some}
use mathlib.Core.List.{List, [], ◌∷◌}

abbrev pub is_space : ℕ → Bool
is_space c = (c == 32) || (leb 9 c && leb c 13)

abbrev pub is_digit : ℕ → Bool
is_digit c = leb b'0' c && leb c b'9'

unfoldable pub skip_space : List ℕ → List ℕ
skip_space [] = []
skip_space (c ∷ text) = elim (is_space c) [ true ↦ skip_space text | false ↦ c ∷ text ]

-- The number that the digits go on to write, and what follows them.
unfoldable pub digits : ℕ → List ℕ → ℕ × List ℕ
digits n [] = (n, [])
digits n (c ∷ text) = elim (is_digit c) [
  | true ↦ digits (10 * n + (c - b'0')) text
  | false ↦ (n, c ∷ text)
]

-- One digit or more.
unfoldable pub number : List ℕ → Option (ℕ × List ℕ)
unfolding digits
number [] = none
number (c ∷ text) = if is_digit c then some (digits 0 (c ∷ text)) else none

abbrev pub with_sign : (ℕ → ℤ) → Option (ℕ × List ℕ) → Option (ℤ × List ℕ)
with_sign sign none = none
with_sign sign (some (n, text)) = some (sign n, text)

unfoldable pub signed : List ℕ → Option (ℤ × List ℕ)
unfolding number
signed [] = none
signed (c ∷ text) =
    if c == b'-'
    then with_sign negate (number text)
    else if c == b'+'
    then with_sign pos (number text)
    else with_sign pos (number (c ∷ text))

-- An integer in base ten after white space, and what follows it; `none` where there is none. The range
-- of the result is left to the caller.
unfoldable pub integer : List ℕ → Option (ℤ × List ℕ)
unfolding skip_space signed
integer text = signed (skip_space text)

-- `std::stoi`: the value of an `int`, or one of the two exceptions that it throws.
pub data Parsed : Type 0 where
  parsed : ℤ → Parsed
  invalid_argument out_of_range : Parsed

abbrev pub int_read : Option (ℤ × List ℕ) → Parsed
int_read none = invalid_argument
int_read (some (z, rest)) = if fits 31 z then parsed z else out_of_range

unfoldable pub stoi : List ℕ → Parsed
unfolding integer
stoi text = int_read (integer text)

-- `std::stoul`, of an unsigned type of 64 bits: a minus sign negates in it.
abbrev pub unsigned_read : Option (ℤ × List ℕ) → Parsed
unsigned_read none = invalid_argument
unsigned_read (some (pos n, rest)) = if ltb n (2 ^ 64) then parsed (pos n) else out_of_range
unsigned_read (some (negsuc n, rest)) =
    if ltb (suc n) (2 ^ 64) then parsed (pos (to_unsigned 64 (negsuc n))) else out_of_range

unfoldable pub stoul : List ℕ → Parsed
unfolding integer
stoul text = unsigned_read (integer text)

-- The bytes up to white space, so many at most, and what follows them.
unfoldable pub word : ℕ → List ℕ → List ℕ × List ℕ
word zero text = ([], text)
word (suc n) [] = ([], [])
word (suc n) (c ∷ text) = elim (is_space c) [
  | true ↦ ([], c ∷ text)
  | false ↦ (let later = word n text in (c ∷ later.0, later.1))
]

-- The bytes before the first of this value, all where it does not occur.
unfoldable pub up_to : ℕ → List ℕ → List ℕ
up_to b [] = []
up_to b (c ∷ text) = elim (c == b) [ true ↦ [] | false ↦ c ∷ up_to b text ]

-- A C string ends before its NUL.
abbrev pub c_string : List ℕ → List ℕ
c_string bytes = up_to 0 bytes
