-- ===== src/Base/Text/Decimals.antt =====
-- The texts that strtol reads to their end, with a number that is not negative.
use networking_projects.Base.Tests.{◌==◌, Bool-cases, some-injective}
use networking_projects.Base.Lists.{length, All}
use networking_projects.Base.Decimal.{codes}
use networking_projects.Base.Int.{ℤ, pos, negsuc, negate}
use networking_projects.Base.Text.{
  is_space, is_digit, skip_space, digits, number, with_sign, signed, integer,
}
use Prim.Native.Nat.{ℕ, zero, suc, ◌+◌, ◌-◌, ◌*◌, ◌<◌}
use mathlib.Core.Path.{◌≡◌, refl, ap, ◌∙◌}
use mathlib.Core.Logic.{◌≢◌, ◌⊎◌, inl, inr}
use mathlib.Core.Bool.{Bool, true, false}
use mathlib.Core.Option.{Option, none, some}
use mathlib.Core.List.{List, [], ◌∷◌, ◌++◌}
use native.Mathlib.Omega.{arith}

-- The number that digits write behind a number.
abbrev pub value : ℕ → List ℕ → ℕ
value n [] = n
value n (d ∷ ds) = value (10 * n + (d - b'0')) ds

-- White space, a plus sign or nothing, and digits that write the number.
pub record IsDecimal (text : List ℕ) (n : ℕ) : Type 0 where
  pub spaces : List ℕ
  pub sign : List ℕ
  pub ds : List ℕ
  pub is_text : text ≡ spaces ++ (sign ++ ds)
  pub all_spaces : All (λ c. is_space c ≡ true) spaces
  pub is_sign : (sign ≡ []) ⊎ (sign ≡ codes "+")
  pub all_digits : All (λ c. is_digit c ≡ true) ds
  pub positive : 0 < length ds
  pub writes : value 0 ds ≡ n

digits-All :
    (n : ℕ) (ds : List ℕ) → All (λ c. is_digit c ≡ true) ds → digits n ds ≡ (value n ds, [])
unfolding digits
digits-All n [] h = refl
digits-All n (d ∷ ds) h = rw (h.0, digits) (digits-All (10 * n + (d - b'0')) ds h.1)

All-digits :
    (n m : ℕ) (ds : List ℕ)
    → digits n ds ≡ (m, [])
    → All (λ c. is_digit c ≡ true) ds × (value n ds ≡ m)
unfolding digits
All-digits n m [] e = (tt, ap (λ r. r.0) e)
All-digits n m (d ∷ ds) e = elim (Bool-cases (is_digit d)) [
  | inl is ↦
      let rest = All-digits (10 * n + (d - b'0')) m ds (rw (is, digits) at e) in
      ((is, rest.0), rest.1)
  | inr isnt ↦ absurd (let nil : d ∷ ds ≡ [] = ap (λ r. r.1) (rw (isnt, digits) at e) in cc)
]

number-All :
    (ds : List ℕ)
    → All (λ c. is_digit c ≡ true) ds
    → 0 < length ds
    → number ds ≡ some (value 0 ds, [])
unfolding number
number-All [] h p = absurd (omega arith)
number-All (d ∷ ds) h p = rw (h.0, number) (ap some (digits-All 0 (d ∷ ds) h))

All-number :
    (ds : List ℕ) (n : ℕ)
    → number ds ≡ some (n, [])
    → All (λ c. is_digit c ≡ true) ds × (0 < length ds) × (value 0 ds ≡ n)
unfolding number
All-number [] n e = absurd cc
All-number (d ∷ ds) n e = elim (Bool-cases (is_digit d)) [
  | inl is ↦
      let rest = All-digits 0 n (d ∷ ds) (some-injective (rw (is, number) at e)) in
      (rest.0, omega arith, rest.1)
  | inr isnt ↦ absurd (let no : none ≡ some (n, []) = rw (isnt, number) at e in cc)
]

skip_spaces :
    (spaces text : List ℕ)
    → All (λ c. is_space c ≡ true) spaces
    → skip_space (spaces ++ text) ≡ skip_space text
unfolding skip_space
skip_spaces [] text h = refl
skip_spaces (c ∷ spaces) text h = rw (h.0, skip_space) (skip_spaces spaces text h.1)

skipped :
    (text : List ℕ)
    → (spaces : List ℕ) × All (λ c. is_space c ≡ true) spaces × (text ≡ spaces ++ skip_space text)
unfolding skip_space
skipped [] = ([], tt, refl)
skipped (c ∷ text) = elim (Bool-cases (is_space c)) [
  | inl is ↦
      let (spaces, all, e) = skipped text in
      (c ∷ spaces, (is, all), rw (is, skip_space) (ap (λ l. c ∷ l) e))
  | inr isnt ↦ ([], tt, rw (isnt, skip_space) refl)
]

abbrev magnitude : ℤ → ℕ
magnitude (pos n) = n
magnitude (negsuc n) = suc n

abbrev is_pos : ℤ → Bool
is_pos (pos n) = true
is_pos (negsuc n) = false

-- The text after a sign, or all of it.
pos-with_sign :
    (read : Option (ℕ × List ℕ)) (n : ℕ)
    → with_sign pos read ≡ some (pos n, [])
    → read ≡ some (n, [])
pos-with_sign none n e = absurd cc
pos-with_sign (some (m, rest)) n e = ap (λ r. some (magnitude r.0, r.1)) (some-injective e)

negate-with_sign :
    (read : Option (ℕ × List ℕ)) (n : ℕ) → with_sign negate read ≢ some (pos (suc n), [])
negate-with_sign none n e = cc
negate-with_sign (some (zero, rest)) n e =
    let same : 0 ≡ suc n = ap (λ r. magnitude r.0) (some-injective e) in omega arith
negate-with_sign (some (suc m, rest)) n e =
    let same : false ≡ true = ap (λ r. is_pos r.0) (some-injective e) in cc

-- A text that is read to its end as a positive number writes it.
pub integer-IsDecimal :
    (text : List ℕ) (n : ℕ) → integer text ≡ some (pos (suc n), []) → IsDecimal text (suc n)
unfolding integer signed
integer-IsDecimal text n e =
    let (spaces, all, parts) = skipped text in go spaces all (skip_space text) parts e
  where
    go :
        (spaces : List ℕ)
        → All (λ c. is_space c ≡ true) spaces
        → (rest : List ℕ) → text ≡ spaces ++ rest
        → signed rest ≡ some (pos (suc n), [])
        → IsDecimal text (suc n)
    go spaces all [] parts e = absurd cc
    go spaces all (c ∷ rest) parts e = elim (Bool-cases (c == b'-')) [
      | inl minus ↦ absurd (negate-with_sign (number rest) n (rw (minus, signed) at e))
      | inr not_minus ↦ elim (Bool-cases (c == b'+')) [
        | inl plus ↦
            let (digits, positive, writes) =
              All-number rest (suc n)
                (pos-with_sign (number rest) (suc n) (rw (not_minus, plus, signed) at e)) in
            let c_plus : c ≡ b'+' = ground (arith, plus) in
            record {
              spaces = spaces;
              sign = codes "+";
              ds = rest;
              is_text = parts ∙ ap (λ d. spaces ++ (d ∷ rest)) c_plus;
              all_spaces = all;
              is_sign = inr refl;
              all_digits = digits;
              positive = positive;
              writes = writes;
            }
        | inr not_plus ↦
            let (digits, positive, writes) =
              All-number (c ∷ rest) (suc n) (
                pos-with_sign (number (c ∷ rest)) (suc n)
                  (rw (not_minus, not_plus, signed) at e)) in
            record {
              spaces = spaces;
              sign = [];
              ds = c ∷ rest;
              is_text = parts;
              all_spaces = all;
              is_sign = inl refl;
              all_digits = digits;
              positive = positive;
              writes = writes;
            }
      ]
    ]

signed-digits :
    (ds : List ℕ)
    → All (λ c. is_digit c ≡ true) ds
    → 0 < length ds
    → signed (skip_space ds) ≡ some (pos (value 0 ds), [])
unfolding signed skip_space
signed-digits [] h p = absurd (omega arith)
signed-digits (d ∷ ds) h p =
    let digit = h.0 in
    let solid : is_space d ≡ false = ground (arith, digit) in
    let minus : (d == b'-') ≡ false = ground (arith, digit) in
    let plus : (d == b'+') ≡ false = ground (arith, digit) in
    rw (solid, skip_space) (rw (minus, plus, signed) (ap (with_sign pos) (number-All (d ∷ ds) h p)))

signed-sign :
    (sign ds : List ℕ)
    → (sign ≡ []) ⊎ (sign ≡ codes "+")
    → All (λ c. is_digit c ≡ true) ds
    → 0 < length ds
    → signed (skip_space (sign ++ ds)) ≡ some (pos (value 0 ds), [])
unfolding signed skip_space
signed-sign sign ds (inl e) h p = rw e (signed-digits ds h p)
signed-sign sign ds (inr e) h p = rw e (ap (with_sign pos) (number-All ds h p))

-- A text that writes a number is read to its end.
pub IsDecimal-integer : (text : List ℕ) (n : ℕ) → IsDecimal text n → integer text ≡ some (pos n, [])
unfolding integer
IsDecimal-integer text n d =
    ap integer d.is_text
    ∙ ap signed (skip_spaces d.spaces (d.sign ++ d.ds) d.all_spaces)
    ∙ signed-sign d.sign d.ds d.is_sign d.all_digits d.positive
    ∙ ap (λ m. some (pos m, [])) d.writes
