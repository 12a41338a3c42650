-- ===== src/Instance/Objects.antt =====
-- internal/controller/hermesinstance_controller.go: what the steps share: `deleteIfExists`, the
-- create-only claims, and the parts of the functions that they give to `CreateOrUpdate`.
use hermes_operator.Common.{String, is_empty, if◌then◌else◌}
use hermes_operator.Common.Flow.{go, M, ◌>>=◌, ◌>>◌, finish, run}
use hermes_operator.Api.Instance.{HermesInstance}
use hermes_operator.Kube.Result.{Result, ok, err, Err, is_not_found}
use hermes_operator.Kube.Cluster.{Kind, Key, Object, Cluster}
use hermes_operator.Controller.{check}
use hermes_operator.Resources.Labels.{merge_preserving_foreign}
use hermes_operator.Instance.{Done, operator_label_prefix}

abbrev pub key : Kind → String → HermesInstance → Key
key kind name i = record { kind = kind; name = name; namespace = i.meta.namespace }

-- A call whose error is looked at.
abbrev pub ask : {W R A : Type 0} → (W → A × W) → M W R A
ask f w = let (a, w') = f w in go a w'

-- `if err != nil { return ... }`.
abbrev pub must : {W A : Type 0} → (W → Result A × W) → (Err → Err) → M W Done A
must f k w = let (r, w') = f w in check r (λ e. err (k e)) w'

-- The assignments to the labels, the annotations and the rest of the object.
module _ {S : Type 0} where
  abbrev pub merge_labels : Object S → Object S → Object S
  merge_labels desired o = record o {
    labels = merge_preserving_foreign o.labels desired.labels operator_label_prefix;
  }

  abbrev pub merge_annotations : Object S → Object S → Object S
  merge_annotations desired o = record o {
    annotations = merge_preserving_foreign o.annotations desired.annotations operator_label_prefix;
  }

  abbrev pub set_spec : Object S → Object S → Object S
  set_spec desired o = record o { spec = desired.spec }

  abbrev pub set_entries : Object S → Object S → Object S
  set_entries desired o = record o { entries = desired.entries }

  -- A Service: its spec is replaced, but for an address that it has.
  abbrev pub set_service_spec : Object S → Object S → Object S
  set_service_spec desired o = record o {
    spec = desired.spec;
    cluster_ip = if is_empty o.cluster_ip then desired.cluster_ip else o.cluster_ip;
    cluster_ips = if is_empty o.cluster_ip then desired.cluster_ips else o.cluster_ips;
  }

module _ {W S : Type 0} (c : Cluster W S) where
  -- The last statement of such a function.
  abbrev pub own : HermesInstance → Object S → W → Result (Object S) × W
  own i o w = (c.set_controller_reference i o, w)

  -- `client.IgnoreNotFound`.
  abbrev pub ignore_not_found : Done → Done
  ignore_not_found (ok u) = ok u
  ignore_not_found (err e) = if is_not_found e then ok tt else err e

  abbrev pub on_get : Key → Result (Object S) → M W Done Done
  on_get k (ok o) = do deleted ← ask (c.delete k); finish (ignore_not_found deleted)
  on_get k (err e) = if is_not_found e then finish (ok tt) else finish (err e)

  unfoldable pub delete_if_exists : Key → W → Done × W
  delete_if_exists k = run do found ← ask (c.get k); on_get k found

  -- A claim is only created: `wrap_own`, `wrap_create` and `wrap_get` are what the caller does to
  -- an error of a call.
  module _ (wrap_own wrap_create wrap_get : Err → Err) where
    abbrev create_claim : HermesInstance → Key → Object S → M W Done Done
    create_claim i k desired = do
      owned ← must (own i desired) wrap_own
      must (c.create k owned) wrap_create
      finish (ok tt)

    abbrev on_claim : HermesInstance → Key → Object S → Result (Object S) → M W Done Done
    on_claim i k desired (ok o) = finish (ok tt)
    on_claim i k desired (err e) =
        if is_not_found e then create_claim i k desired else finish (err (wrap_get e))

    unfoldable pub ensure_claim : HermesInstance → Key → Object S → W → Done × W
    ensure_claim i k desired = run do found ← ask (c.get k); on_claim i k desired found
