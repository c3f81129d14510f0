-- ===== src/Weather/Input/Selections.antt =====
-- The lines that client.c's get_user_request takes for a selection.
use networking_projects.Base.{
  ℕ, ◌≡◌, ◌≢◌, refl, sym, ap, ◌∙◌, inl, inr, Bool-cases, ◌==◌, Option, none, some, List, [], ◌∷◌,
  arith,
}
use networking_projects.Base.Int.{ℤ, pos, negsuc}
use networking_projects.Base.Text.{integer, up_to, c_string}
use networking_projects.Base.Text.Decimals.{IsDecimal, integer-IsDecimal, IsDecimal-integer}
use networking_projects.Weather.State.{
  RequestType, temperature, humidity, wind_speed, quit, invalid,
}
use networking_projects.Weather.Input.{request_of, checked_request, selection_of}

-- The values of the enumeration.
abbrev pub number_of : RequestType → ℕ
number_of temperature = 1
number_of humidity = 2
number_of wind_speed = 3
number_of quit = 4
number_of invalid = 5

request_of-number_of : (q : RequestType) → q ≢ invalid → request_of (pos (number_of q)) ≡ q
request_of-number_of temperature valid = refl
request_of-number_of humidity valid = refl
request_of-number_of wind_speed valid = refl
request_of-number_of quit valid = refl
request_of-number_of invalid valid = absurd (valid refl)

number_of-request_of :
    (n : ℕ) (q : RequestType) → request_of (pos n) ≡ q → q ≢ invalid → n ≡ number_of q
number_of-request_of n q e valid = elim (Bool-cases (n == 1)) [
  | inl is ↦ let q_is : temperature ≡ q = rw is at e in ground (arith, is) ∙ ap number_of q_is
  | inr no1 ↦ elim (Bool-cases (n == 2)) [
    | inl is ↦ let q_is : humidity ≡ q = rw (no1, is) at e in ground (arith, is) ∙ ap number_of q_is
    | inr no2 ↦ elim (Bool-cases (n == 3)) [
      | inl is ↦
          let q_is : wind_speed ≡ q = rw (no1, no2, is) at e in
          ground (arith, is) ∙ ap number_of q_is
      | inr no3 ↦ elim (Bool-cases (n == 4)) [
        | inl is ↦
            let q_is : quit ≡ q = rw (no1, no2, no3, is) at e in
            ground (arith, is) ∙ ap number_of q_is
        | inr no4 ↦
            let q_is : invalid ≡ q = rw (no1, no2, no3, no4) at e in absurd (valid (sym q_is))
      ]
    ]
  ]
]

checked_request-number :
    (read : Option (ℤ × List ℕ)) (q : RequestType)
    → checked_request read ≡ q
    → q ≢ invalid
    → read ≡ some (pos (number_of q), [])
checked_request-number none q e valid = absurd (valid (sym e))
checked_request-number (some (negsuc n, [])) q e valid = absurd (valid (sym e))
checked_request-number (some (pos n, [])) q e valid =
    ap (λ m. some (pos m, [])) (number_of-request_of n q e valid)
checked_request-number (some (z, c ∷ rest)) q e valid = absurd (valid (sym e))

valid-IsDecimal :
    (text : List ℕ) (q : RequestType)
    → q ≢ invalid
    → integer text ≡ some (pos (number_of q), [])
    → IsDecimal text (number_of q)
valid-IsDecimal text temperature valid e = integer-IsDecimal text 0 e
valid-IsDecimal text humidity valid e = integer-IsDecimal text 1 e
valid-IsDecimal text wind_speed valid e = integer-IsDecimal text 2 e
valid-IsDecimal text quit valid e = integer-IsDecimal text 3 e
valid-IsDecimal text invalid valid e = absurd (valid refl)

-- A line selects a request other than INVALID exactly when what stands before its end, and before a
-- NUL, is white space, a plus sign or nothing, and digits that write the number of the request.
pub selection_of-IsDecimal :
    (line : List ℕ) (q : RequestType)
    → q ≢ invalid
    → (selection_of line ≡ q → IsDecimal (up_to 10 (c_string line)) (number_of q))
      × (IsDecimal (up_to 10 (c_string line)) (number_of q) → selection_of line ≡ q)
unfolding selection_of
selection_of-IsDecimal line q valid =
    let text = up_to 10 (c_string line) in
    (
      λ e. valid-IsDecimal text q valid (checked_request-number (integer text) q e valid),
      λ d.
          ap checked_request (IsDecimal-integer text (number_of q) d)
          ∙ request_of-number_of q valid,
    )
