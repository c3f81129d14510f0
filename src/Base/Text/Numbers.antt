-- ===== src/Base/Text/Numbers.antt =====
-- Printed integers and words are read back.
use networking_projects.Base.Tests.{ltb, ◌==◌, if◌then◌else◌, Bool-cases, lt_of_ltb, le_of_ltb}
use networking_projects.Base.Lists.{length, All}
use networking_projects.Base.Decimal.{to_string, digits_within}
use networking_projects.Base.Int.{ℤ, pos, negsuc, negate, print_int}
use networking_projects.Base.Text.{
  is_space, is_digit, int_read, stoi, parsed, out_of_range, skip_space, digits, number, with_sign,
  signed, integer, word,
}
use Prim.Native.Nat.{ℕ, zero, suc, ◌+◌, ◌-◌, ◌*◌, ◌/◌, ◌%◌, ◌^◌, ◌≤◌, ◌<◌}
use mathlib.Core.Path.{◌≡◌, refl, sym, ap, ◌∙◌}
use mathlib.Core.Logic.{inl, inr}
use mathlib.Core.Bool.{Bool, true, false}
use mathlib.Core.Option.{some}
use mathlib.Core.List.{List, [], ◌∷◌, ◌++◌, append_assoc, append-nil}
use native.Mathlib.Omega.{arith}

-- What follows does not go on with bytes of a class.
abbrev pub Ends : (ℕ → Bool) → List ℕ → Type 0
Ends p [] = Unit
Ends p (c ∷ text) = p c ≡ false

-- What follows is white space or nothing.
abbrev pub AtSpace : List ℕ → Type 0
AtSpace [] = Unit
AtSpace (c ∷ text) = is_space c ≡ true

digit_lem : (d : ℕ) → d < 10 → is_digit (d + b'0') ≡ true
digit_lem d h = ground arith

digits-end : (n : ℕ) (rest : List ℕ) → Ends is_digit rest → digits n rest ≡ (n, rest)
unfolding digits
digits-end n [] e = refl
digits-end n (c ∷ rest) e = rw (e, digits) refl

digits-step :
    (n d : ℕ) (rest : List ℕ) → d < 10 → digits n ((d + b'0') ∷ rest) ≡ digits (10 * n + d) rest
unfolding digits
digits-step n d rest h =
    rw (digit_lem d h, digits)
      (ap (λ m. digits (10 * n + m) rest) (let e : (d + b'0') - b'0' ≡ d = omega arith in e))

-- Reading the digits printed leaves their number as the one that the digits behind them go on with.
digits-within :
    (fuel n : ℕ) (rest : List ℕ)
    → n < fuel
    → digits 0 (digits_within fuel n ++ rest) ≡ digits n rest
unfolding digits_within
digits-within zero n rest h = absurd (omega arith)
digits-within (suc fuel) n rest h = elim (Bool-cases (ltb n 10)) [
  | inl small ↦
      rw (small, digits_within)
        (digits-step 0 n rest (lt_of_ltb n 10 small)
          ∙ ap (λ m. digits m rest) (let e : 10 * 0 + n ≡ n = omega arith in e))
  | inr large ↦
      let ge : 10 ≤ n = le_of_ltb n 10 large in
      rw (large, digits_within)
        (ap (digits 0) (append_assoc (digits_within fuel (n / 10)) ((n % 10 + b'0') ∷ []) rest)
          ∙ digits-within fuel (n / 10) ((n % 10 + b'0') ∷ rest) (omega arith)
          ∙ digits-step (n / 10) (n % 10) rest (omega arith)
          ∙ ap (λ m. digits m rest) (let e : 10 * (n / 10) + n % 10 ≡ n = omega arith in e))
]

-- The first byte printed is a digit.
abbrev FirstDigit : List ℕ → Type 0
FirstDigit [] = ⊥
FirstDigit (c ∷ text) = is_digit c ≡ true

FirstDigit-append : (xs ys : List ℕ) → FirstDigit xs → FirstDigit (xs ++ ys)
FirstDigit-append [] ys h = absurd h
FirstDigit-append (x ∷ xs) ys h = h

digits_within-FirstDigit : (fuel n : ℕ) → n < fuel → FirstDigit (digits_within fuel n)
unfolding digits_within
digits_within-FirstDigit zero n h = absurd (omega arith)
digits_within-FirstDigit (suc fuel) n h = elim (Bool-cases (ltb n 10)) [
  | inl small ↦ rw (small, digits_within) (digit_lem n (lt_of_ltb n 10 small))
  | inr large ↦
      let ge : 10 ≤ n = le_of_ltb n 10 large in
      rw (large, digits_within)
        (FirstDigit-append (digits_within fuel (n / 10)) ((n % 10 + b'0') ∷ [])
          (digits_within-FirstDigit fuel (n / 10) (omega arith)))
]

number_of_digit : (text : List ℕ) → FirstDigit text → number text ≡ some (digits 0 text)
unfolding number
number_of_digit [] h = absurd h
number_of_digit (c ∷ text) h = rw (h, number) refl

to_string-FirstDigit : (n : ℕ) (rest : List ℕ) → FirstDigit (to_string n ++ rest)
unfolding to_string
to_string-FirstDigit n rest =
    FirstDigit-append (digits_within (suc n) n) rest
      (digits_within-FirstDigit (suc n) n (omega arith))

number-to_string :
    (n : ℕ) (rest : List ℕ) → Ends is_digit rest → number (to_string n ++ rest) ≡ some (n, rest)
unfolding to_string
number-to_string n rest e =
    number_of_digit (to_string n ++ rest) (to_string-FirstDigit n rest)
    ∙ ap some (digits-within (suc n) n rest (omega arith) ∙ digits-end n rest e)

-- A digit is neither a sign nor white space.
integer_of_digit : (text : List ℕ) → FirstDigit text → integer text ≡ with_sign pos (number text)
unfolding integer signed skip_space
integer_of_digit [] h = absurd h
integer_of_digit (c ∷ text) h =
    let solid : is_space c ≡ false = ground (arith, h) in
    let minus : (c == b'-') ≡ false = ground (arith, h) in
    let plus : (c == b'+') ≡ false = ground (arith, h) in
    rw (solid, minus, plus, integer, skip_space, signed) refl

-- A printed integer is read back.
pub integer-print_int :
    (z : ℤ) (rest : List ℕ) → Ends is_digit rest → integer (print_int z ++ rest) ≡ some (z, rest)
unfolding integer signed skip_space
integer-print_int (pos n) rest e =
    integer_of_digit (to_string n ++ rest) (to_string-FirstDigit n rest)
    ∙ ap (with_sign pos) (number-to_string n rest e)
integer-print_int (negsuc n) rest e = ap (with_sign negate) (number-to_string (suc n) rest e)

-- A word is read back.
pub word-append :
    (n : ℕ) (w rest : List ℕ)
    → All (λ c. is_space c ≡ false) w
    → length w ≤ n
    → AtSpace rest
    → word n (w ++ rest) ≡ (w, rest)
unfolding word
word-append zero [] rest solid h e = refl
word-append (suc n) [] [] solid h e = refl
word-append (suc n) [] (c ∷ rest) solid h e = rw (e, word) refl
word-append zero (c ∷ w) rest solid h e = absurd (omega arith)
word-append (suc n) (c ∷ w) rest solid h e =
    rw (solid.0, word) (ap (λ l. (c ∷ l.0, l.1)) (word-append n w rest solid.1 (omega arith) e))

pub skip_space_twice : (text : List ℕ) → skip_space (skip_space text) ≡ skip_space text
unfolding skip_space
skip_space_twice [] = refl
skip_space_twice (c ∷ text) = elim (Bool-cases (is_space c)) [
  | inl e ↦ rw (e, skip_space) (skip_space_twice text)
  | inr e ↦ rw (e, skip_space) (rw (e, skip_space) refl)
]

-- A printed number is read back by std::stoi, if an `int` has room for it.
pub stoi-to_string :
    (n : ℕ) → stoi (to_string n) ≡ (if ltb n (2 ^ 31) then parsed (pos n) else out_of_range)
unfolding stoi
stoi-to_string n =
    ap (λ t. int_read (integer t)) (sym (append-nil (to_string n)))
    ∙ ap int_read (integer-print_int (pos n) [] tt)
