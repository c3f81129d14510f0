-- ===== src/Base/Decimal.antt =====
-- `std::to_string` of an unsigned number, as ASCII bytes, and string literals as bytes.
use Prim.Native.Char.{code}
use Prim.Native.String.{String}
use networking_projects.Base.Tests.{ltb, if◌then◌else◌}
use Prim.Native.Nat.{ℕ, zero, suc, ◌+◌, ◌/◌, ◌%◌}
use mathlib.Core.Path.{◌≡◌, refl}
use mathlib.Core.List.{List, [], ◌∷◌, ◌++◌}

abbrev pub codes : String → List ℕ
codes String.[] = []
codes (String.◌∷◌ c s) = code c ∷ codes s

-- The digits, most significant first. The fuel bounds their number.
unfoldable pub digits_within : ℕ → ℕ → List ℕ
digits_within zero n = []
digits_within (suc fuel) n =
    let rest = digits_within fuel (n / 10) ++ ((n % 10 + b'0') ∷ []) in
    if ltb n 10 then (n + b'0') ∷ [] else rest

unfoldable pub to_string : ℕ → List ℕ
unfolding digits_within
to_string n = digits_within (suc n) n

to_string_runs : to_string 1394 ≡ codes "1394"
unfolding to_string
to_string_runs = refl
