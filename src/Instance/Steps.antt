-- ===== src/Instance/Steps.antt =====
-- internal/controller/hermesinstance_controller.go: the steps over the objects that every instance
-- has, from the Secret to the Service, and the StatefulSet.
use hermes_operator.Common.{
  String, Bool, true, not, Option, none, some, List, [], ◌∷◌, ◌++◌, is_empty, str_eq, get, put,
  text_or_empty, bool_value_or_default, if◌then◌else◌,
}
use hermes_operator.Common.Flow.{go, M, ◌>>=◌, ◌>>◌, finish, run, return_if}
use hermes_operator.Api.Spec.{ConfigSpec}
use hermes_operator.Api.Features.{LocalObjectReference}
use hermes_operator.Api.Instance.{HermesInstance}
use hermes_operator.Kube.Result.{Result, ok, err, Err, wrap}
use hermes_operator.Kube.Cluster.{
  Object, Mutate, secret, pvc, config_map, network_policy, service_account, role, role_binding,
  service, stateful_set,
}
use hermes_operator.Latches.Migration.{Volume, build_source_volume}
use hermes_operator.Resources.Secret.{
  api_server_key_secret_key, generate_api_server_key, build_gateway_token_secret,
}
use hermes_operator.Resources.Workspace.{workspace_config_map_name, build_workspace_config_map}
use hermes_operator.Resources.Config.{merge_yaml_bodies, build_config_map}
use hermes_operator.Resources.Names.{gateway_token_secret_name, pvc_name, config_map_name}
use hermes_operator.Controller.Names.{stateful_set_name}
use hermes_operator.Instance.{HermesInstanceReconciler, Done, Step}
use hermes_operator.Instance.Objects.{
  key, must, merge_labels, merge_annotations, set_spec, set_entries, set_service_spec, own,
  delete_if_exists, ensure_claim,
}

abbrev pub same_error : Err → Err
same_error e = e

module _ {V C W S I : Type 0} (r : HermesInstanceReconciler V C W S I) where
  open r use {cluster, builders, random, yaml, migration_set}

  -- The key is drawn once, and kept from then on.
  abbrev pub put_key : Object S → Result String × W → Result (Object S) × W
  put_key o (ok k, w) = (ok (record o { entries = put api_server_key_secret_key k o.entries }), w)
  put_key o (err e, w) = (err e, w)

  abbrev pub with_api_key : Object S → W → Result (Object S) × W
  with_api_key o w =
      if is_empty (text_or_empty (get api_server_key_secret_key o.entries))
      then put_key o (generate_api_server_key random w)
      else (ok o, w)

  abbrev pub owned : HermesInstance → Result (Object S) × W → Result (Object S) × W
  owned i (ok o, w) = own cluster i o w
  owned i (err e, w) = (err e, w)

  unfoldable pub secret_mutate : HermesInstance → Mutate W S
  secret_mutate i o w =
      let desired = build_gateway_token_secret builders.no_spec i in
      owned i (
        with_api_key
          (record (merge_annotations desired (merge_labels desired o)) {
            secret_type = desired.secret_type;
          })
          w)

  unfoldable pub reconcile_secret : Step W
  unfolding secret_mutate
  reconcile_secret i =
      cluster.create_or_update (key secret (gateway_token_secret_name i) i) (secret_mutate i)

  unfoldable pub reconcile_pvc : Step W
  reconcile_pvc i =
      ensure_claim cluster same_error same_error same_error i (key pvc (pvc_name i) i)
        (builders.pvc i)

  -- The part of `resolveConfigBody` after the user's ConfigMap has been read.
  abbrev merge_body : ConfigSpec → String → Result String
  merge_body cs base = elim cs.raw [
    | none ↦ ok base
    | some raw ↦ if str_eq cs.merge_mode "merge" then merge_yaml_bodies yaml base raw else ok ""
  ]

  abbrev resolve_ref : HermesInstance → Option LocalObjectReference → M W Done String
  resolve_ref i none = go ""
  resolve_ref i (some ref) = do
    user ← must (cluster.get (key config_map ref.name i)) (wrap "resolve configMapRef")
    must (λ w. (merge_body i.spec.config (text_or_empty (get "config.yaml" user.entries)), w))
        same_error

  unfoldable pub resolve_config_body : HermesInstance → M W Done String
  resolve_config_body i = resolve_ref i i.spec.config.config_map_ref

  abbrev config_map_mutate : HermesInstance → Object S → Mutate W S
  config_map_mutate i desired o w = own cluster i (set_entries desired (merge_labels desired o)) w

  unfoldable pub reconcile_config_map : Step W
  unfolding resolve_config_body
  reconcile_config_map i = run do
    body ← resolve_config_body i
    must
        (cluster.create_or_update (key config_map (config_map_name i) i) (
          config_map_mutate i
            (build_config_map yaml builders.tailscale_serve_config builders.no_spec i body)))
        same_error
    finish (ok tt)

  unfoldable pub reconcile_workspace_config_map : Step W
  reconcile_workspace_config_map i =
      cluster.create_or_update (key config_map (workspace_config_map_name i) i) (
        config_map_mutate i
          (build_workspace_config_map builders.semaphore_soul_block builders.no_spec i))

  -- Labels, the spec and the owner: most of the steps.
  abbrev pub spec_mutate : HermesInstance → Object S → Mutate W S
  spec_mutate i desired o w = own cluster i (set_spec desired (merge_labels desired o)) w

  -- The same, with the annotations.
  abbrev pub annotated_mutate : HermesInstance → Object S → Mutate W S
  annotated_mutate i desired o w =
      own cluster i (set_spec desired (merge_annotations desired (merge_labels desired o))) w

  abbrev pub network_policy_enabled : HermesInstance → Bool
  network_policy_enabled i = bool_value_or_default i.spec.security.network_policy.enabled true

  unfoldable pub reconcile_network_policy : Step W
  reconcile_network_policy i =
      let k = key network_policy i.meta.name i in
      if network_policy_enabled i
      then cluster.create_or_update k (spec_mutate i (builders.network_policy i))
      else delete_if_exists cluster k

  unfoldable pub reconcile_rbac : Step W
  reconcile_rbac i = run do
    return_if (not (bool_value_or_default i.spec.security.rbac.create_service_account true)) (ok tt)
    must
        (cluster.create_or_update (key service_account i.meta.name i)
          (annotated_mutate i (builders.service_account i)))
        (wrap "sa")
    must (cluster.create_or_update (key role i.meta.name i) (spec_mutate i (builders.role i)))
        (wrap "role")
    must
        (cluster.create_or_update (key role_binding i.meta.name i)
          (spec_mutate i (builders.role_binding i)))
        (wrap "rolebinding")
    finish (ok tt)

  unfoldable pub service_mutate : HermesInstance → Object S → Mutate W S
  service_mutate i desired o w =
      own cluster i (set_service_spec desired (merge_annotations desired (merge_labels desired o)))
        w

  unfoldable pub reconcile_service : Step W
  unfolding service_mutate
  reconcile_service i =
      cluster.create_or_update (key service i.meta.name i) (service_mutate i (builders.service i))

  -- The function of the StatefulSet: the init containers that the latches ask for, in this order,
  -- and the volume of a migration.
  abbrev if_any : Option I → List I
  if_any none = []
  if_any (some c) = c ∷ []

  abbrev with_volume : Option Volume → Object S → Object S
  with_volume none o = o
  with_volume (some v) o = builders.append_volume v o

  unfoldable pub desired_stateful_set : HermesInstance → Object S
  desired_stateful_set i =
      let inits =
        if_any (builders.restore_init_container i)
        ++ if_any (builders.migration_init_container i) in
      let desired = builders.stateful_set i inits in
      if migration_set then with_volume (build_source_volume i) desired else desired

  unfoldable pub reconcile_stateful_set : Step W
  unfolding desired_stateful_set
  reconcile_stateful_set i =
      cluster.create_or_update (key stateful_set (stateful_set_name i) i)
        (spec_mutate i (desired_stateful_set i))
