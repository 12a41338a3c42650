-- ===== src/Resources/Labels.antt =====
-- internal/resources/common.go: the labels of the objects of an instance, and the merge that keeps
-- what others have put on them.
pub mod Foreign
mod Tests
use Prim.Native.Char.{code}
use Prim.Native.String.{String}
use hermes_operator.Common.{
  Bool, true, false, ◌&&◌, [], ◌∷◌, ◌==◌, if◌then◌else◌, is_empty, Entries, put, put_all,
}
use hermes_operator.Api.Instance.{HermesInstance}

unfoldable pub labels_for_instance : HermesInstance → Entries
labels_for_instance i =
    ("app.kubernetes.io/name", "hermes-agent")
    ∷ ("app.kubernetes.io/instance", i.meta.name)
    ∷ ("app.kubernetes.io/managed-by", "hermes-operator")
    ∷ ("app.kubernetes.io/part-of", "hermes.agent")
    ∷ []

unfoldable pub selector_labels : HermesInstance → Entries
selector_labels i =
    ("app.kubernetes.io/name", "hermes-agent") ∷ ("app.kubernetes.io/instance", i.meta.name) ∷ []

unfoldable pub service_account_name_for : HermesInstance → String
service_account_name_for i =
    if is_empty i.spec.security.rbac.service_account_name
    then i.meta.name
    else i.spec.security.rbac.service_account_name

-- `strings.HasPrefix(s, prefix)`.
unfoldable pub has_prefix : String → String → Bool
has_prefix s String.[] = true
has_prefix String.[] (String.◌∷◌ d p) = false
has_prefix (String.◌∷◌ c s) (String.◌∷◌ d p) = code c == code d && has_prefix s p

-- The first loop of `MergePreservingForeign`.
unfoldable pub put_foreign : String → Entries → Entries → Entries
unfolding has_prefix put
put_foreign prefix [] out = out
put_foreign prefix ((k, v) ∷ m) out =
    put_foreign prefix m (if has_prefix k prefix then out else put k v out)

unfoldable pub merge_preserving_foreign : Entries → Entries → String → Entries
unfolding put_foreign put_all
merge_preserving_foreign existing desired operator_prefix =
    put_all desired (put_foreign operator_prefix existing [])
