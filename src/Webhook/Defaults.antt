-- ===== src/Webhook/Defaults.antt =====
-- internal/webhook/webhook_hermesinstance_default.go: `Default` and `ApplyClusterDefaults`.
pub mod Keeps
mod Tests
use hermes_operator.Common.{
  ℕ, String, Bool, ◌&&◌, Option, none, some, is_empty, if◌then◌else◌, ◌==◌,
}
use hermes_operator.Kube.Result.{Result, ok, err, Err, wrap, is_not_found}
use hermes_operator.Api.Spec.{CaBundleSpec, HermesInstanceSpec}
use hermes_operator.Api.ClusterDefaults.{HermesClusterDefaults, HermesClusterDefaultsSpec}
use hermes_operator.Api.Instance.{HermesInstance}

-- `if x == "" { x = d }`, and the same for nil and for 0.
or_text : String → String → String
or_text x d = if is_empty x then d else x

or_default {ℓ} : {A : Type ℓ} → Option A → Option A → Option A
or_default none d = d
or_default (some x) d = some x

or_number : ℕ → ℕ → ℕ
or_number x d = if x == 0 then d else x

or_bundle : CaBundleSpec → CaBundleSpec → CaBundleSpec
or_bundle b d = if is_empty b.config_map_name && is_empty b.secret_name then d else b

fill : HermesInstanceSpec → HermesClusterDefaultsSpec → HermesInstanceSpec
fill s d = record s {
  image = record s.image {
    repository = or_text s.image.repository d.image.repository;
    tag = or_text s.image.tag d.image.tag;
    pull_policy = or_text s.image.pull_policy d.image.pull_policy;
  };
  storage = record s.storage {
    persistence = record s.storage.persistence {
      size = or_text s.storage.persistence.size d.storage.persistence.size;
      storage_class_name =
          or_default s.storage.persistence.storage_class_name
            d.storage.persistence.storage_class_name;
    };
  };
  resources = record {
    requests = or_default s.resources.requests d.resources.requests;
    limits = or_default s.resources.limits d.resources.limits;
  };
  security = record {
    rbac = record s.security.rbac {
      annotations = or_default s.security.rbac.annotations d.security.service_account.annotations;
    };
    network_policy = record {
      enabled = or_default s.security.network_policy.enabled d.security.network_policy.enabled;
      allow_dns =
          or_default s.security.network_policy.allow_dns d.security.network_policy.allow_dns;
    };
    ca_bundle = or_bundle s.security.ca_bundle d.security.ca_bundle;
  };
  networking = record s.networking {
    service = record { type = or_text s.networking.service.type d.networking.service.type };
  };
  observability = record {
    metrics = record s.observability.metrics {
      enabled = or_default s.observability.metrics.enabled d.observability.metrics.enabled;
      port = or_number s.observability.metrics.port d.observability.metrics.port;
      secure = or_default s.observability.metrics.secure d.observability.metrics.secure;
    };
    service_monitor = record {
      enabled =
          or_default s.observability.service_monitor.enabled
            d.observability.service_monitor.enabled;
    };
    prometheus_rule = record {
      enabled =
          or_default s.observability.prometheus_rule.enabled
            d.observability.prometheus_rule.enabled;
    };
    logging = record {
      format = or_text s.observability.logging.format d.observability.logging.format;
      level = or_text s.observability.logging.level d.observability.logging.level;
    };
  };
}

pub apply_cluster_defaults : HermesInstance → HermesClusterDefaults → HermesInstance
unfolding fill or_text or_default or_number or_bundle
apply_cluster_defaults i d = record i { spec = fill i.spec d.spec }

-- The singleton named "cluster" is read; without it nothing is filled in.
module _ {W : Type 0} (get_defaults : String → W → Result HermesClusterDefaults × W) where
  abbrev defaulted : HermesInstance → Result HermesClusterDefaults → Result HermesInstance
  defaulted i (ok d) = ok (apply_cluster_defaults i d)
  defaulted i (err e) = if is_not_found e then ok i else err (wrap "get HermesClusterDefaults" e)

  pub default : HermesInstance → W → Result HermesInstance × W
  default i w = let (r, w') = get_defaults "cluster" w in (defaulted i r, w')
