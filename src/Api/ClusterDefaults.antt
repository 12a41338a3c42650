-- ===== src/Api/ClusterDefaults.antt =====
-- api/v1/hermesclusterdefaults_types.go: the cluster-wide defaults.
-- A record has the fields that validation, defaulting, self-configuration and the sub-controllers
-- read or write; the fields that only shape Kubernetes objects are left out.
use hermes_operator.Common.{ℕ, String, Bool, Option, List}
use hermes_operator.Api.Status.{Condition}
use hermes_operator.Api.Spec.{
  StringMap, ImageSpec, StorageSpec, ResourcesSpec, CaBundleSpec, MetricsSpec, ServiceMonitorSpec,
  PrometheusRuleSpec, LoggingSpec,
}

pub record RegistryDefaults : Type 0 where
  pub pull_secret_name : String

pub record ServiceAccountDefaults : Type 0 where
  pub annotations : Option StringMap

pub record NetworkPolicyDefaults : Type 0 where
  pub enabled : Option Bool
  pub allow_dns : Option Bool

pub record SecurityDefaults : Type 0 where
  pub service_account : ServiceAccountDefaults
  pub network_policy : NetworkPolicyDefaults
  pub ca_bundle : CaBundleSpec

pub record ServiceDefaults : Type 0 where
  pub type : String

pub record NetworkingDefaults : Type 0 where
  pub service : ServiceDefaults
  pub network_policy : NetworkPolicyDefaults

pub record ObservabilityDefaults : Type 0 where
  pub metrics : MetricsSpec
  pub service_monitor : ServiceMonitorSpec
  pub prometheus_rule : PrometheusRuleSpec
  pub logging : LoggingSpec

pub record HermesClusterDefaultsSpec : Type 0 where
  pub image : ImageSpec
  pub registry : RegistryDefaults
  pub storage : StorageSpec
  pub security : SecurityDefaults
  pub observability : ObservabilityDefaults
  pub networking : NetworkingDefaults
  pub resources : ResourcesSpec

pub record HermesClusterDefaultsStatus : Type 0 where
  pub observed_generation : ℕ
  pub conditions : List Condition

pub record HermesClusterDefaults : Type 0 where
  pub name : String
  pub generation : ℕ
  pub spec : HermesClusterDefaultsSpec
  pub status : HermesClusterDefaultsStatus
