-- ===== src/Common/Text.antt =====
-- Texts: the concatenation that stands for `fmt.Sprintf` and `+`, and equality with "".
use Prim.Native.String
use Prim.Native.Char.{Char}
use Prim.Native.String.{String}
use mathlib.Core.Path.{◌≡◌}
use mathlib.Core.Logic.{◌≢◌}
use mathlib.Core.Bool.{Bool, true, false}
use mathlib.Core.List.{List, [], ◌∷◌}
use text.Mathlib.Text.{◌==◌, is_eq}
use native.Mathlib.Omega.{arith}
use text.Mathlib.TextEquality.{eq_iff}

abbrev pub str_eq : String → String → Bool
str_eq a b = a == b

abbrev pub is_empty : String → Bool
is_empty s = s == ""

abbrev pub concat : List String → String
concat [] = ""
concat (s ∷ r) = String.◌++◌ s (concat r)

-- Texts that the test tells apart are different.
pub str_eq-ne : (a b : String) → str_eq a b ≡ false → a ≢ b
str_eq-ne a b p e = ground (arith, eq_iff a b)

pub is_empty-eq : (s : String) → is_empty s ≡ true → s ≡ ""
is_empty-eq s e = ground (arith, eq_iff s "")

pub is_empty-cons : (c : Char) (s : String) → is_empty (String.◌∷◌ c s) ≡ false
is_empty-cons c s i = is_eq (Prim.Native.String.compare.cons-nil c s i)
