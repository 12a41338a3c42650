-- ===== src/Common/Maps.antt =====
-- Go's maps of texts as association lists: `m[k]`, `m[k] = v`, and what a run of writes leaves.
use Prim.Native.String.{String}
use mathlib.Core.Path.{◌≡◌, refl}
use mathlib.Core.Logic.{◌≢◌}
use mathlib.Core.Option.{Option, none, some}
use mathlib.Core.List.{List, [], ◌∷◌}
use native.Mathlib.Omega.{arith}
use text.Mathlib.TextEquality.{eq_iff}
use hermes_operator.Common.Tests.{if◌then◌else◌}
use hermes_operator.Common.Text.{str_eq}

abbrev pub Entries : Type 0
Entries = List (String × String)

-- `m[k] = v` and `m[k]` on a map of texts.
unfoldable pub put : String → String → Entries → Entries
put k v [] = (k, v) ∷ []
put k v ((j, u) ∷ m) = if str_eq j k then (k, v) ∷ m else (j, u) ∷ put k v m

unfoldable pub get : String → Entries → Option String
get k [] = none
get k ((j, v) ∷ m) = if str_eq j k then some v else get k m

-- `for k, v := range right { out[k] = v }`.
unfoldable pub put_all : Entries → Entries → Entries
unfolding put
put_all [] m = m
put_all ((k, v) ∷ r) m = put_all r (put k v m)

-- `m[k]`, "" on a missing key.
abbrev pub text_or_empty : Option String → String
text_or_empty none = ""
text_or_empty (some v) = v

pub get-put :
    (k j v : String) (m : Entries) → get j (put k v m) ≡ (if str_eq k j then some v else get j m)
unfolding get put
get-put k j v [] = refl
get-put k j v ((i, u) ∷ m) = ground (arith, eq_iff k j, eq_iff i k, eq_iff i j, get-put k j v m)

pub get-put_ne : (k j v : String) (m : Entries) → j ≢ k → get j (put k v m) ≡ get j m
get-put_ne k j v m d = ground (arith, eq_iff k j, get-put k j v m, d)

pub get-put_same : (k v : String) (m : Entries) → get k (put k v m) ≡ some v
get-put_same k v m = ground (arith, eq_iff k k, get-put k k v m)

-- The entry that a list of writes leaves for a key: the last one.
abbrev pub or_else : Option String → Option String → Option String
or_else none b = b
or_else (some a) b = some a

-- No key stands twice, as in a Go map.
abbrev pub IsMap : Entries → Type 0
IsMap [] = Unit
IsMap ((k, v) ∷ m) = (get k m ≡ none) × IsMap m

pub get-put_all :
    (j : String) (r m : Entries) → IsMap r → get j (put_all r m) ≡ or_else (get j r) (get j m)
unfolding put_all get
get-put_all j [] m d = refl
get-put_all j ((k, v) ∷ r) m d =
    ground (arith, eq_iff k j, get-put_all j r (put k v m) d.1, get-put k j v m, d.0)
