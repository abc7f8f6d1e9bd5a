-- ===== src/Prelude/Codes.antt =====
-- The characters of a literal text, as the codes of the C strings.
use Prim.Native.Nat.{ℕ}
use Prim.Native.Char.{code}
use Prim.Native.String.{String, [], ◌∷◌}
use mathlib.Core.List as Lists

unfoldable pub codes : String → Lists.List ℕ
codes [] = Lists.List.[]
codes (c ∷ s) = Lists.◌∷◌ (code c) (codes s)
