-- ===== src/Base/Codes.antt =====
-- A text as the list of its code points, and the code point that ends a line.
use Prim.Native.Nat.{ℕ}
use Prim.Native.Char.{code}
use Prim.Native.String.{String}
use mathlib.Core.Bool.{Bool}
use mathlib.Core.List.{List, [], ◌∷◌}
use onboard_core.Base.Tests.{nat_eq}
use onboard_core.Base.Lists.{any}

unfoldable pub codes : String → List ℕ
codes String.[] = []
codes (String.◌∷◌ c s) = code c ∷ codes s

abbrev pub newline : ℕ
newline = 10

abbrev pub has_newline : List ℕ → Bool
has_newline l = any (λ c. nat_eq c newline) l
