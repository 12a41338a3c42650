-- ===== src/Api/Spec.antt =====
-- api/v1/hermesinstance_types.go: the workload sub-specs, and the spec of an instance.
-- A record has the fields that validation, defaulting, self-configuration and the sub-controllers
-- read or write; the fields that only shape Kubernetes objects are left out.
use hermes_operator.Common.{ℕ, String, Bool, Option, List}
use hermes_operator.Api.Features.{
  LocalObjectReference, BackupSpec, AutoUpdateSpec, MigrationSpec, SelfConfigureSpec, GatewaysSpec,
  ProfileStoreSpec, TailscaleSpec, SemaphoreSpec,
}

-- A `map[string]string`, or a resource list with its quantities as text.
abbrev pub StringMap : Type 0
StringMap = List (String × String)

pub record ImageSpec : Type 0 where
  pub repository : String
  pub tag : String
  pub digest : String
  pub pull_policy : String

pub record PersistenceSpec : Type 0 where
  pub enabled : Option Bool
  pub size : String
  pub storage_class_name : Option String

pub record StorageSpec : Type 0 where
  pub persistence : PersistenceSpec

pub record ConfigSpec : Type 0 where
  pub raw : Option String
  pub config_map_ref : Option LocalObjectReference
  pub merge_mode : String

pub record ResourcesSpec : Type 0 where
  pub requests : Option StringMap
  pub limits : Option StringMap

pub record RbacSpec : Type 0 where
  pub create_service_account : Option Bool
  pub service_account_name : String
  pub annotations : Option StringMap

pub record NetworkPolicySpec : Type 0 where
  pub enabled : Option Bool
  pub allow_dns : Option Bool

pub record CaBundleSpec : Type 0 where
  pub config_map_name : String
  pub secret_name : String
  pub key : String

pub record SecuritySpec : Type 0 where
  pub rbac : RbacSpec
  pub network_policy : NetworkPolicySpec
  pub ca_bundle : CaBundleSpec

pub record ServiceSpec : Type 0 where
  pub type : String

pub record IngressSpec : Type 0 where
  pub enabled : Option Bool

pub record HttpRouteSpec : Type 0 where
  pub enabled : Option Bool

pub record NetworkingSpec : Type 0 where
  pub service : ServiceSpec
  pub ingress : IngressSpec
  pub http_route : Option HttpRouteSpec

pub record GrafanaDashboardSpec : Type 0 where
  pub enabled : Option Bool

pub record MetricsSpec : Type 0 where
  pub enabled : Option Bool
  pub port : ℕ
  pub secure : Option Bool
  pub grafana_dashboard : Option GrafanaDashboardSpec

pub record ServiceMonitorSpec : Type 0 where
  pub enabled : Option Bool

pub record PrometheusRuleSpec : Type 0 where
  pub enabled : Option Bool

pub record LoggingSpec : Type 0 where
  pub format : String
  pub level : String

pub record ObservabilitySpec : Type 0 where
  pub metrics : MetricsSpec
  pub service_monitor : ServiceMonitorSpec
  pub prometheus_rule : PrometheusRuleSpec
  pub logging : LoggingSpec

-- An `IntOrString` is only tested for nil and passed on: it is kept as text.
pub record PdbSpec : Type 0 where
  pub enabled : Option Bool
  pub min_available : Option String
  pub max_unavailable : Option String

pub record HpaSpec : Type 0 where
  pub enabled : Option Bool
  pub min_replicas : Option ℕ
  pub max_replicas : Option ℕ

pub record AvailabilitySpec : Type 0 where
  pub pod_disruption_budget : PdbSpec
  pub horizontal_pod_autoscaler : HpaSpec

pub record WorkspaceFile : Type 0 where
  pub path : String
  pub content : String

pub record WorkspaceSpec : Type 0 where
  pub initial_files : List WorkspaceFile
  pub initial_dirs : List String

pub record InstanceSkill : Type 0 where
  pub source : String
  pub version : String

-- `sidecars` and `extra_volumes` keep the names of the containers and volumes; `runtime_set` tells
-- whether the deprecated `spec.runtime` differs from its zero value.
pub record HermesInstanceSpec : Type 0 where
  pub image : ImageSpec
  pub config : ConfigSpec
  pub resources : ResourcesSpec
  pub security : SecuritySpec
  pub storage : StorageSpec
  pub workspace : WorkspaceSpec
  pub networking : NetworkingSpec
  pub observability : ObservabilitySpec
  pub availability : AvailabilitySpec
  pub sidecars : List String
  pub extra_volumes : List String
  pub skills : List InstanceSkill
  pub self_configure : SelfConfigureSpec
  pub suspended : Bool
  pub backup : BackupSpec
  pub restore_from : String
  pub auto_update : AutoUpdateSpec
  pub migration : MigrationSpec
  pub runtime_set : Bool
  pub gateways : GatewaysSpec
  pub profile_store : ProfileStoreSpec
  pub tailscale : TailscaleSpec
  pub semaphore : SemaphoreSpec
