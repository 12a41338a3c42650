-- ===== src/Resources/Yaml.antt =====
-- internal/resources/configmap.go: YAML values as `map[string]any` holds them, and `deepMergeMaps`.
pub mod Paths
use hermes_operator.Common.{
  ℕ, String, Bool, true, false, Option, none, some, List, str_eq, if◌then◌else◌,
}

-- A mapping, or a value that is none: the code only tells these apart.
mutual
  pub data Value : Type 0 where
    flag : Bool → Value
    text : String → Value
    texts : List String → Value
    numbers : List ℕ → Value
    mapping : Fields → Value

  pub data Fields : Type 0 where
    end : Fields
    field : String → Value → Fields → Fields

-- `m[k]` and `m[k] = v`.
unfoldable pub look : String → Fields → Option Value
look k end = none
look k (field j v m) = if str_eq j k then some v else look k m

unfoldable pub set : String → Value → Fields → Fields
set k v end = field k v end
set k v (field j u m) = if str_eq j k then field k v m else field j u (set k v m)

-- The loop over the overlay: two mappings are merged, and any other value is replaced. `out` starts as
-- a copy of the base.
unfoldable mutual
  unfolding look set

  pub merge_value : Option Value → Value → Value
  merge_value none v = v
  merge_value (some old) (flag b) = flag b
  merge_value (some old) (text s) = text s
  merge_value (some old) (texts ts) = texts ts
  merge_value (some old) (numbers ns) = numbers ns
  merge_value (some old) (mapping vm) = elim old [
    | mapping bm ↦ mapping (deep_merge_maps bm vm)
    | _ ↦ mapping vm
  ]

  pub deep_merge_maps : Fields → Fields → Fields
  deep_merge_maps out end = out
  deep_merge_maps out (field k v overlay) =
      deep_merge_maps (set k (merge_value (look k out) v) out) overlay
