-- ===== src/Prelude/Texts.antt =====
-- Text as the list of its bytes, and the literals of a program as such lists.
use Prim.Native.Char.{code}
use Prim.Native.String.{String}
use Prim.Native.Nat.{ℕ}
use mathlib.Core.List.{List, [], ◌∷◌}

-- The bytes of a literal in ASCII.
abbrev pub bytes_of : String → List ℕ
bytes_of String.[] = []
bytes_of (String.◌∷◌ letter letters) = code letter ∷ bytes_of letters
