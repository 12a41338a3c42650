-- ===== src/Oci/Tags.antt =====
-- internal/oci/client.go: `HighestMatching` and `DefaultChannel`. Versions, constraints and the
-- unstable sort of github.com/Masterminds/semver and of package sort are an interface.
pub mod Highest
mod Tests
use hermes_operator.Common.{
  ℕ, String, Bool, true, false, Option, none, some, List, [], ◌∷◌, All, ◌≡◌, if◌then◌else◌, concat,
  is_some, is_cons,
}
use mathlib.Core.List.{Memᴰ}
use hermes_operator.Kube.Result.{Result, ok, err, plain, no_matching_tag}

-- `V` is `*semver.Version`, `C` is `*semver.Constraints`.
pub record Semver (V C : Type 0) : Type 0 where
  pub new_constraint : String → Option C
  pub new_version : String → Option V
  pub check : C → V → Bool
  pub less : V → V → Bool
  pub sort : List V → List V
  pub original : V → String
  pub major : V → ℕ
  -- `%d`.
  pub decimal : ℕ → String

-- No later element is less than an earlier one.
abbrev pub Ordered : {V : Type 0} → (V → V → Bool) → List V → Type 0
Ordered less [] = Unit
Ordered less (v ∷ vs) = All (λ u. less u v ≡ false) vs × Ordered less vs

-- What the two packages document: a version keeps the text it was parsed from, no version is less
-- than itself, and sorting keeps the elements and orders them.
pub record IsSemver {V C : Type 0} (s : Semver V C) : Type 0 where
  pub original-new_version : (t : String) (v : V) → s.new_version t ≡ some v → s.original v ≡ t
  pub less_irrefl : (v : V) → s.less v v ≡ false
  pub sort-Ordered : (vs : List V) → Ordered s.less (s.sort vs)
  pub mem-sort : (v : V) (vs : List V) → Memᴰ v vs → Memᴰ v (s.sort vs)
  pub mem_of_sort : (v : V) (vs : List V) → Memᴰ v (s.sort vs) → Memᴰ v vs

-- `versions[len(versions)-1]`.
abbrev pub last : {V : Type 0} → List V → Option V
last [] = none
last (v ∷ []) = some v
last (v ∷ u ∷ vs) = last (u ∷ vs)

module _ {V C : Type 0} (s : Semver V C) where
  -- One round of the loop over the tags.
  abbrev pub keep : C → Option V → List V → List V
  keep constraint none versions = versions
  keep constraint (some v) versions = if s.check constraint v then v ∷ versions else versions

  -- The loop of `HighestMatching`.
  pub matching : C → List String → List V
  matching constraint [] = []
  matching constraint (t ∷ tags) = keep constraint (s.new_version t) (matching constraint tags)

  -- The answer from the sorted versions; the test for none stands before the sort in the source.
  abbrev pub pick : Option V → Result String
  pick none = err no_matching_tag
  pick (some v) = ok (s.original v)

  unfoldable pub highest_matching : List String → String → Result String
  unfolding matching
  highest_matching tags channel = elim (s.new_constraint channel) [
    | none ↦ err (plain "invalid channel")
    | some constraint ↦
        let versions = matching constraint tags in
        if is_cons versions then pick (last (s.sort versions)) else err no_matching_tag
  ]

  pub default_channel : String → String
  default_channel current_tag = elim (s.new_version current_tag) [
    | none ↦ "*"
    | some v ↦ concat (s.decimal (s.major v) ∷ ".x" ∷ [])
  ]
