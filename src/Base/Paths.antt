-- ===== src/Base/Paths.antt =====
-- The parts of a `std::filesystem::path` that the programs look at, by its bytes.
use networking_projects.Base.Tests.{◌==◌, if◌then◌else◌}
use Prim.Native.Nat.{ℕ}
use mathlib.Core.Bool.{Bool, true, false, ◌&&◌, ◌||◌}
use mathlib.Core.List.{List, [], ◌∷◌}

abbrev pub same_bytes : List ℕ → List ℕ → Bool
same_bytes [] [] = true
same_bytes [] (b ∷ bs) = false
same_bytes (a ∷ rest) [] = false
same_bytes (a ∷ rest) (b ∷ bs) = (a == b) && same_bytes rest bs

unfoldable pub has_byte : ℕ → List ℕ → Bool
has_byte b [] = false
has_byte b (c ∷ rest) = (c == b) || has_byte b rest

-- `filename()`: what follows the last slash.
unfoldable pub filename : List ℕ → List ℕ
unfolding has_byte
filename [] = []
filename (c ∷ rest) =
    let inner = filename rest in if has_byte b'/' (c ∷ rest) then inner else c ∷ rest

-- From the last dot on; nothing where there is no dot.
unfoldable pub from_dot : List ℕ → List ℕ
unfolding has_byte
from_dot [] = []
from_dot (c ∷ rest) =
    let later = from_dot rest in
    if has_byte b'.' rest then later else if c == b'.' then c ∷ rest else []

-- A dot at the start of a name begins no extension.
unfoldable pub name_extension : List ℕ → List ℕ
unfolding from_dot
name_extension [] = []
name_extension (c ∷ rest) = if same_bytes (c ∷ rest) (b'.' ∷ b'.' ∷ []) then [] else from_dot rest

-- `extension()`
unfoldable pub extension : List ℕ → List ℕ
unfolding filename name_extension
extension path = name_extension (filename path)
