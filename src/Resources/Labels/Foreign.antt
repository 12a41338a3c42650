-- ===== src/Resources/Labels/Foreign.antt =====
-- internal/resources/common.go: what `MergePreservingForeign` leaves for a key.
use hermes_operator.Common.{
  String, Option, none, [], ◌∷◌, ◌≡◌, arith, eq_iff, if◌then◌else◌, Entries, get, or_else, IsMap,
  get-put, get-put_all, put,
}
use hermes_operator.Resources.Labels.{has_prefix, put_foreign, merge_preserving_foreign}

-- What the operator lets stand of the entry of a key.
unfoldable pub foreign : String → String → Option String → Option String
foreign prefix j old = if has_prefix j prefix then none else old

get-put_foreign :
    (prefix j : String) (m out : Entries)
    → IsMap m
    → get j (put_foreign prefix m out) ≡ or_else (foreign prefix j (get j m)) (get j out)
unfolding put_foreign get foreign
get-put_foreign prefix j [] out d = ground arith
get-put_foreign prefix j ((k, v) ∷ m) out d = ground (
  arith,
  eq_iff k j,
  get-put_foreign prefix j m out d.1,
  get-put_foreign prefix j m (put k v out) d.1,
  get-put k j v out,
  d.0,
)

-- Of two maps without double keys, the merge holds for a key the desired value; where there is
-- none, the existing value if the key has not the operator's prefix; and nothing otherwise.
pub get-merge_preserving_foreign :
    (existing desired : Entries) (prefix j : String)
    → IsMap existing
    → IsMap desired
    → get j (merge_preserving_foreign existing desired prefix)
      ≡ or_else (get j desired) (foreign prefix j (get j existing))
unfolding merge_preserving_foreign get
get-merge_preserving_foreign existing desired prefix j d e = ground (
  arith,
  get-put_all j desired (put_foreign prefix existing []) e,
  get-put_foreign prefix j existing [] d,
)
