-- ===== src/Instance.antt =====
-- internal/controller/hermesinstance_controller.go: the main reconciler. It brings the objects of an
-- instance up to date in ordered steps, calls the sub-controllers and writes the status.
pub mod Objects
pub mod Steps
pub mod Optional
pub mod Status
pub mod Reconcile
pub mod Secrets
pub mod Tracks
pub mod Seeds
pub mod Ordered
pub mod Deletes
mod Tests
use hermes_operator.Common.{ℕ, String, Bool, Option, List}
use hermes_operator.Kube.Result.{Result}
use hermes_operator.Kube.Cluster.{Object, Cluster}
use hermes_operator.Api.Instance.{HermesInstance}
use hermes_operator.AutoUpdate.{AutoUpdateReconciler}
use hermes_operator.Latches.Migration.{Volume}
use hermes_operator.Resources.Secret.{Random}
use hermes_operator.Resources.Config.{Yaml}
use hermes_operator.Semaphore.{Http}

-- `error` alone.
abbrev pub Done : Type 0
Done = Result (Unit {0})

-- A step over the world, for an instance that it does not change.
abbrev pub Step : Type 0 → Type 0
Step W = HermesInstance → W → Done × W

-- The builders of internal/resources that only fill in API types: no property here depends on what
-- they build, so the reconciler works with any. `S` is the part of an object that they set as a
-- whole, `I` an init container.
pub record Builders (S I : Type 0) : Type 0 where
  -- The `S` of an object that has none.
  pub no_spec : S
  pub semaphore_soul_block : String
  pub pvc : HermesInstance → Object S
  pub tailscale_serve_config : HermesInstance → String
  pub network_policy : HermesInstance → Object S
  pub service_account : HermesInstance → Object S
  pub role : HermesInstance → Object S
  pub role_binding : HermesInstance → Object S
  pub service : HermesInstance → Object S
  pub pdb : HermesInstance → Object S
  pub hpa : HermesInstance → Object S
  pub ingress : HermesInstance → Object S
  pub http_route : HermesInstance → Object S
  pub service_monitor : HermesInstance → Object S
  pub prometheus_rule : HermesInstance → Object S
  pub grafana_dashboard_operator : HermesInstance → Object S
  pub grafana_dashboard_instance : HermesInstance → Object S
  pub restore_init_container : HermesInstance → Option I
  pub migration_init_container : HermesInstance → Option I
  pub stateful_set : HermesInstance → List I → Object S
  -- `append` to the volumes of the Pod template.
  pub append_volume : Volume → Object S → Object S
  pub honcho_pvc : HermesInstance → Object S
  pub honcho_service : HermesInstance → Object S
  pub honcho_deployment : HermesInstance → Object S
  pub honcho_network_policy : HermesInstance → Object S

-- The reconciler's fields, with what it calls; `updater` has the client and the library that the
-- sub-controllers share, and the Booleans tell whether a sub-controller is not nil.
pub record HermesInstanceReconciler (V C W S I : Type 0) : Type 0 where
  pub cluster : Cluster W S
  pub builders : Builders S I
  pub random : Random W
  pub yaml : Yaml
  pub http : Http W
  pub updater : AutoUpdateReconciler V C W
  pub backup_set : Bool
  pub migration_set : Bool
  pub restore_set : Bool
  pub auto_update_set : Bool
  pub prometheus_operator_crds_present : Bool
  -- `Get` of the instance, and the ready replicas of a Deployment.
  pub get_instance : String → String → W → Result HermesInstance × W
  pub get_ready_replicas : String → String → W → Result ℕ × W

abbrev pub operator_label_prefix : String
operator_label_prefix = "hermes.agent/"
