-- ===== src/Instance/Optional.antt =====
-- internal/controller/hermesinstance_controller.go: the steps of the optional parts: each updates
-- its objects where the part is switched on, and deletes them where it is switched off.
use hermes_operator.Common.{
  String, Bool, true, false, not, ◌&&◌, Option, none, some, bool_value, bool_value_or_default,
  if◌then◌else◌,
}
use hermes_operator.Common.Flow.{M, ◌>>=◌, ◌>>◌, finish, run, return_if, when}
use hermes_operator.Api.Spec.{HttpRouteSpec}
use hermes_operator.Api.Instance.{HermesInstance}
use hermes_operator.Kube.Result.{ok, err, wrap, is_no_match}
use hermes_operator.Kube.Cluster.{
  Kind, Key, Object, Mutate, pvc, config_map, network_policy, service, pdb, hpa, ingress,
  http_route, service_monitor, prometheus_rule, deployment,
}
use hermes_operator.Resources.Names.{
  grafana_dashboard_enabled, grafana_dashboard_operator_name, grafana_dashboard_instance_name,
  is_hpa_enabled, honcho_deployment_name, honcho_pvc_name,
}
use hermes_operator.Instance.{HermesInstanceReconciler, Done, Step}
use hermes_operator.Instance.Objects.{
  key, must, merge_labels, merge_annotations, set_spec, set_entries, own, delete_if_exists,
  ensure_claim,
}
use hermes_operator.Instance.Steps.{
  same_error, spec_mutate, annotated_mutate, service_mutate, network_policy_enabled,
}

module _ {V C W S I : Type 0} (r : HermesInstanceReconciler V C W S I) where
  open r use {cluster, builders, prometheus_operator_crds_present}

  -- An object that is there exactly if the part is switched on.
  unfoldable pub toggle : Bool → Key → Mutate W S → W → Done × W
  toggle enabled k f = if enabled then cluster.create_or_update k f else delete_if_exists cluster k

  unfoldable pub reconcile_pdb : Step W
  unfolding toggle
  reconcile_pdb i =
      toggle (bool_value i.spec.availability.pod_disruption_budget.enabled) (key pdb i.meta.name i)
        (spec_mutate r i (builders.pdb i))

  unfoldable pub reconcile_hpa : Step W
  unfolding toggle
  reconcile_hpa i =
      toggle (is_hpa_enabled i) (key hpa i.meta.name i) (spec_mutate r i (builders.hpa i))

  unfoldable pub reconcile_ingress : Step W
  unfolding toggle
  reconcile_ingress i =
      toggle (bool_value i.spec.networking.ingress.enabled) (key ingress i.meta.name i)
        (annotated_mutate r i (builders.ingress i))

  -- `ignoreNoGatewayAPI`.
  abbrev ignore_no_gateway_api : Done → Done
  ignore_no_gateway_api (ok u) = ok u
  ignore_no_gateway_api (err e) = if is_no_match e then ok tt else err e

  abbrev route_enabled : Option HttpRouteSpec → Bool
  route_enabled none = false
  route_enabled (some spec) = bool_value spec.enabled

  -- An unstructured object: its owners are those of the desired one.
  abbrev unstructured_mutate : Object S → Mutate W S
  unstructured_mutate desired o w =
      (ok (record (merge_labels desired (set_spec desired o)) { owner = desired.owner }), w)

  abbrev route_mutate : Object S → Mutate W S
  route_mutate desired o w = (
    ok (record (merge_annotations desired (merge_labels desired (set_spec desired o))) {
      owner = desired.owner;
    }),
    w,
  )

  -- The desired object is owned before the object in the cluster is touched.
  abbrev apply_owned : HermesInstance → Key → Object S → (Object S → Mutate W S) → M W Done Done
  apply_owned i k desired f = do
    d ← must (own cluster i desired) same_error
    must (cluster.create_or_update k (f d)) same_error
    finish (ok tt)

  abbrev tolerant : Done × W → Done × W
  tolerant (d, w) = (ignore_no_gateway_api d, w)

  unfoldable pub reconcile_http_route : Step W
  reconcile_http_route i w =
      let k = key http_route i.meta.name i in
      if route_enabled i.spec.networking.http_route
      then run (apply_owned i k (builders.http_route i) route_mutate) w
      else tolerant (delete_if_exists cluster k w)

  -- The objects of the Prometheus operator: nothing where its CRDs are not installed.
  unfoldable pub monitor : Bool → Kind → Object S → Step W
  monitor enabled kind desired i = run do
    return_if (not prometheus_operator_crds_present) (ok tt)
    if enabled then apply_owned i (key kind i.meta.name i) desired unstructured_mutate else (do
      must (delete_if_exists cluster (key kind i.meta.name i)) same_error
      finish (ok tt))

  unfoldable pub reconcile_service_monitor : Step W
  unfolding monitor
  reconcile_service_monitor i =
      monitor (bool_value i.spec.observability.service_monitor.enabled) service_monitor
        (builders.service_monitor i) i

  unfoldable pub reconcile_prometheus_rule : Step W
  unfolding monitor
  reconcile_prometheus_rule i =
      monitor (bool_value i.spec.observability.prometheus_rule.enabled) prometheus_rule
        (builders.prometheus_rule i) i

  abbrev dashboard_mutate : HermesInstance → Object S → Mutate W S
  dashboard_mutate i desired o w =
      own cluster i (set_entries desired (merge_annotations desired (merge_labels desired o))) w

  -- The two dashboards, in this order.
  unfoldable pub reconcile_grafana_dashboards : Step W
  reconcile_grafana_dashboards i =
      let operator = key config_map (grafana_dashboard_operator_name i) i in
      let instance_key = key config_map (grafana_dashboard_instance_name i) i in
      if grafana_dashboard_enabled i
      then run (do
        must
            (cluster.create_or_update operator
              (dashboard_mutate i (builders.grafana_dashboard_operator i)))
            same_error
        must
            (cluster.create_or_update instance_key
              (dashboard_mutate i (builders.grafana_dashboard_instance i)))
            same_error
        finish (ok tt))
      else run (do
        must (delete_if_exists cluster operator) same_error
        must (delete_if_exists cluster instance_key) same_error
        finish (ok tt))

  -- Honcho's claim is kept when the store is switched off.
  abbrev honcho_claim : HermesInstance → W → Done × W
  honcho_claim i =
      ensure_claim cluster (wrap "honcho pvc owner ref") (wrap "honcho pvc create")
        (wrap "honcho pvc get") i (key pvc (honcho_pvc_name i) i)
        (merge_labels (builders.honcho_pvc i) (builders.honcho_pvc i))

  abbrev toggle_label : Bool → String → String → String
  toggle_label enabled applied deleted = if enabled then applied else deleted

  unfoldable pub reconcile_honcho : Step W
  unfolding toggle
  reconcile_honcho i =
      let enabled = bool_value i.spec.profile_store.honcho.enabled in
      let persist = bool_value_or_default i.spec.profile_store.honcho.persistence.enabled true in
      let guarded = enabled && network_policy_enabled r i in
      let name = honcho_deployment_name i in
      run do
        when (enabled && persist) (must (honcho_claim i) same_error)
        must (toggle enabled (key service name i) (service_mutate r i (builders.honcho_service i)))
            (wrap (toggle_label enabled "honcho svc" "honcho svc delete"))
        must
            (toggle enabled (key deployment name i)
              (spec_mutate r i (builders.honcho_deployment i)))
            (wrap (toggle_label enabled "honcho deployment" "honcho deployment delete"))
        must
            (toggle guarded (key network_policy name i)
              (spec_mutate r i (builders.honcho_network_policy i)))
            (wrap (toggle_label guarded "honcho netpol" "honcho netpol delete"))
        finish (ok tt)

  -- The sidecar belongs to the StatefulSet: the step only keeps its condition.
  unfoldable pub reconcile_tailscale : Step W
  reconcile_tailscale i w = (ok tt, w)
