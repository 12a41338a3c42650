-- ===== src/Oci/Tags/Tests.antt =====
-- The highest tag of a list, with versions ordered by their length.
use mathlib.Core.List.{Memᴰ}
use hermes_operator.Common.{String, some, false, List, [], ◌∷◌, ◌≡◌, ◌↔◌, refl}
use hermes_operator.Kube.Result.{ok, err, no_matching_tag}
use hermes_operator.Oci.Tags.{highest_matching}
use hermes_operator.Oci.Tags.Highest.{
  IsHighest, highest_matching-IsHighest, highest_matching-err_iff,
}
use hermes_operator.Fixtures.Versions.{by_length, by_length-IsSemver}

abbrev tags : List String
tags = "22" ∷ "4444" ∷ "1" ∷ "333" ∷ []

highest_is_333 : highest_matching by_length tags "xxx" ≡ ok "333"
unfolding highest_matching
highest_is_333 = refl

highest_matching-IsHighest_example :
    IsHighest by_length "xxx" tags (highest_matching by_length tags "xxx")
highest_matching-IsHighest_example =
    highest_matching-IsHighest by_length by_length-IsSemver tags "xxx" refl

highest_matching-err_iff_example :
    (highest_matching by_length ("22" ∷ []) "x" ≡ err no_matching_tag) ↔ (
      (t u : String)
      → Memᴰ t ("22" ∷ [])
      → by_length.new_version t ≡ some u
      → by_length.check "x" u ≡ false)
highest_matching-err_iff_example =
    highest_matching-err_iff by_length by_length-IsSemver ("22" ∷ []) "x" refl
