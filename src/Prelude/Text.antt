-- ===== src/Prelude/Text.antt =====
-- The bytes of a text that the source writes as a literal.
use Prim.Native.Char.{code}
use Prim.Native.String.{String}
use Prim.Native.Nat.{ℕ, ◌+◌}
use mathlib.Core.Bool.{◌&&◌}
use mathlib.Core.List.{List, [], ◌∷◌}
use gateway_mt.Prelude.Tests.{leb, if◌then◌else◌}

-- the bytes of an ASCII literal
abbrev pub codes : String → List ℕ
codes String.[] = []
codes (String.◌∷◌ c s) = code c ∷ codes s

-- a concrete function for strings.ToLower, which is a parameter: it lowers the letters of ASCII
unfoldable pub lower : ℕ → ℕ
lower c = if leb 65 c && leb c 90 then c + 32 else c

unfoldable pub to_lower : List ℕ → List ℕ
unfolding lower
to_lower [] = []
to_lower (c ∷ s) = lower c ∷ to_lower s
