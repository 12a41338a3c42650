-- ===== src/Resources/Yaml/Paths.antt =====
-- internal/resources/configmap.go: what `deepMergeMaps` holds at a path.
use hermes_operator.Common.{
  String, Bool, true, false, Option, none, some, List, [], ◌∷◌, ◌≡◌, refl, ap, arith, eq_iff,
  str_eq, if◌then◌else◌,
}
use mathlib.Core.Path.{subst}
use hermes_operator.Resources.Yaml.{
  Value, Fields, flag, text, texts, numbers, mapping, end, field, look, set, merge_value,
  deep_merge_maps,
}

-- No key stands twice in the fields, as in a Go map.
abbrev pub IsMapping : Fields → Type 0
IsMapping end = Unit
IsMapping (field k v m) = (look k m ≡ none) × IsMapping m

-- The value of a key after the merge.
abbrev pub merged : Option Value → Option Value → Option Value
merged old none = old
merged old (some v) = some (merge_value old v)

pub look-set :
    (k j : String) (v : Value) (m : Fields)
    → look j (set k v m) ≡ (if str_eq k j then some v else look j m)
unfolding look set
look-set k j v end = refl
look-set k j v (field i u m) = ground (arith, eq_iff k j, eq_iff i k, eq_iff i j, look-set k j v m)

-- The merge is made key by key, whatever the order of the overlay: where no key stands twice in the
-- overlay, a key that it lacks keeps its value of the base, and a key that it has is merged into the
-- value of the base.
pub look-deep_merge_maps :
    (j : String) (base overlay : Fields)
    → IsMapping overlay
    → look j (deep_merge_maps base overlay) ≡ merged (look j base) (look j overlay)
unfolding look deep_merge_maps
look-deep_merge_maps j base end d = refl
look-deep_merge_maps j base (field k v m) d = ground (
  arith,
  eq_iff k j,
  look-deep_merge_maps j (set k (merge_value (look k base) v) base) m d.1,
  look-set k j (merge_value (look k base) v) base,
  d.0,
)

-- No key stands twice in any mapping of a value.
unfoldable mutual
  unfolding look

  pub IsProper : Value → Type 0
  IsProper (flag b) = Unit
  IsProper (text s) = Unit
  IsProper (texts ts) = Unit
  IsProper (numbers ns) = Unit
  IsProper (mapping m) = AllProper m

  pub AllProper : Fields → Type 0
  AllProper end = Unit
  AllProper (field k v m) = (look k m ≡ none) × IsProper v × AllProper m

abbrev is_mapping : Value → Bool
is_mapping (mapping m) = true
is_mapping (flag b) = false
is_mapping (text s) = false
is_mapping (texts ts) = false
is_mapping (numbers ns) = false

abbrev fields_of : Value → Fields
fields_of (mapping m) = m
fields_of (flag b) = end
fields_of (text s) = end
fields_of (texts ts) = end
fields_of (numbers ns) = end

-- The value at a path.
unfoldable pub at : List String → Value → Option Value
at [] v = some v
at (k ∷ p) v = elim (look k (fields_of v)) [ none ↦ none | some u ↦ at p u ]

AllProper-IsMapping : (m : Fields) → AllProper m → IsMapping m
unfolding AllProper
AllProper-IsMapping end a = tt
AllProper-IsMapping (field k v m) a = (a.0, AllProper-IsMapping m a.2)

abbrev some_value : Value → Option Value → Value
some_value d none = d
some_value d (some v) = v

if-IsProper :
    (b : Bool) (u v : Value) (rest : Option Value)
    → (rest ≡ some v → IsProper v)
    → IsProper u
    → (if b then some u else rest) ≡ some v
    → IsProper v
if-IsProper true u v rest f proper e = subst IsProper (ap (some_value u) e) proper
if-IsProper false u v rest f proper e = f e

look-IsProper : (k : String) (v : Value) (m : Fields) → AllProper m → look k m ≡ some v → IsProper v
unfolding look AllProper
look-IsProper k v end a e = ground arith
look-IsProper k v (field j u m) a e =
    if-IsProper (str_eq j k) u v (look k m) (look-IsProper k v m a.2) a.1 e

-- What is read below a key.
abbrev below : List String → Option Value → Option Value
below p o = elim o [ none ↦ none | some u ↦ at p u ]

below-merged :
    (p : List String) (old new : Option Value) (v : Value)
    → ((u : Value) → new ≡ some u → at p u ≡ some v → at p (merge_value old u) ≡ some v)
    → below p new ≡ some v
    → below p (merged old new) ≡ some v
below-merged p old none v f e = ground arith
below-merged p old (some u) v f e = f u refl e

-- A value that is no mapping stays at its path when what holds it is merged into any value.
at-merge_value :
    (p : List String) (old : Option Value) (u v : Value)
    → IsProper u
    → is_mapping v ≡ false
    → at p u ≡ some v
    → at p (merge_value old u) ≡ some v
unfolding at merge_value IsProper
at-merge_value p none u v a n e = e
at-merge_value p (some old) (flag b) v a n e = e
at-merge_value p (some old) (text s) v a n e = e
at-merge_value p (some old) (texts ts) v a n e = e
at-merge_value p (some old) (numbers ns) v a n e = e
at-merge_value p (some (flag b)) (mapping m) v a n e = e
at-merge_value p (some (text s)) (mapping m) v a n e = e
at-merge_value p (some (texts ts)) (mapping m) v a n e = e
at-merge_value p (some (numbers ns)) (mapping m) v a n e = e
at-merge_value [] (some (mapping bm)) (mapping m) v a n e = ground arith
at-merge_value (k ∷ p) (some (mapping bm)) (mapping m) v a n e =
    rw (look-deep_merge_maps k bm m (AllProper-IsMapping m a)) (
      below-merged p (look k bm) (look k m) v
        (λ w found. at-merge_value p (look k bm) w v (look-IsProper k w m a found) n) e)

-- What the overlay sets wins: where no key stands twice in a mapping of the overlay, a value of the
-- overlay that is no mapping is found at its path in the merge of any base with the overlay.
pub at-deep_merge_maps :
    (p : List String) (base overlay : Fields) (v : Value)
    → AllProper overlay
    → is_mapping v ≡ false
    → at p (mapping overlay) ≡ some v
    → at p (mapping (deep_merge_maps base overlay)) ≡ some v
unfolding IsProper merge_value
at-deep_merge_maps p base overlay v a n e =
    at-merge_value p (some (mapping base)) (mapping overlay) v a n e
