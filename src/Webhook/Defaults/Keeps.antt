-- ===== src/Webhook/Defaults/Keeps.antt =====
-- What defaulting leaves alone.
use hermes_operator.Common.{ℕ, String, Option, none, some, ◌≡◌, refl, arith, eq_iff, ◌⊎◌, ap}
use hermes_operator.Api.Spec.{CaBundleSpec, HermesInstanceSpec}
use hermes_operator.Api.ClusterDefaults.{HermesClusterDefaults, HermesClusterDefaultsSpec}
use hermes_operator.Api.Instance.{HermesInstance}
use hermes_operator.Webhook.Validate.Accepts.{IsAdmissible}
use hermes_operator.Webhook.Defaults.{
  or_text, or_default, or_number, or_bundle, fill, apply_cluster_defaults,
}

or_text_idem : (x d : String) → or_text (or_text x d) d ≡ or_text x d
unfolding or_text
or_text_idem x d = ground arith

or_default_idem {ℓ} : {A : Type ℓ} (x d : Option A) → or_default (or_default x d) d ≡ or_default x d
unfolding or_default
or_default_idem none none = refl
or_default_idem none (some d) = refl
or_default_idem (some x) d = refl

or_number_idem : (x d : ℕ) → or_number (or_number x d) d ≡ or_number x d
unfolding or_number
or_number_idem x d = ground arith

or_bundle_idem : (x d : CaBundleSpec) → or_bundle (or_bundle x d) d ≡ or_bundle x d
unfolding or_bundle
or_bundle_idem x d = ground arith

ruleset idem = (or_text_idem, or_default_idem, or_number_idem, or_bundle_idem)

fill_idem : (s : HermesInstanceSpec) (d : HermesClusterDefaultsSpec) → fill (fill s d) d ≡ fill s d
unfolding fill
fill_idem s d = simp idem

-- Defaulting twice with the same defaults is the same as once.
pub apply_cluster_defaults_idem :
    (i : HermesInstance) (d : HermesClusterDefaults)
    → apply_cluster_defaults (apply_cluster_defaults i d) d ≡ apply_cluster_defaults i d
unfolding apply_cluster_defaults
apply_cluster_defaults_idem i d = ap (λ s. record i { spec = s }) (fill_idem i.spec d.spec)

-- A value is not set, or it stays.
abbrev pub KeepsText : String → String → Type 0
KeepsText x y = (x ≡ "") ⊎ (y ≡ x)

abbrev pub KeepsSet : {A : Type 0} → Option A → Option A → Type 0
KeepsSet x y = (x ≡ none) ⊎ (y ≡ x)

abbrev pub KeepsNumber : ℕ → ℕ → Type 0
KeepsNumber x y = (x ≡ 0) ⊎ (y ≡ x)

abbrev pub KeepsBundle : CaBundleSpec → CaBundleSpec → Type 0
KeepsBundle x y = ((x.config_map_name ≡ "") × (x.secret_name ≡ "")) ⊎ (y ≡ x)

-- The spec `t` with the fields that have defaults taken from `s`, one by one.
abbrev pub with_defaulted_of : HermesInstanceSpec → HermesInstanceSpec → HermesInstanceSpec
with_defaulted_of s t = record t {
  image = record t.image {
    repository = s.image.repository;
    tag = s.image.tag;
    pull_policy = s.image.pull_policy;
  };
  storage = record t.storage {
    persistence = record t.storage.persistence {
      size = s.storage.persistence.size;
      storage_class_name = s.storage.persistence.storage_class_name;
    };
  };
  resources = record t.resources { requests = s.resources.requests; limits = s.resources.limits };
  security = record t.security {
    rbac = record t.security.rbac { annotations = s.security.rbac.annotations };
    network_policy = record t.security.network_policy {
      enabled = s.security.network_policy.enabled;
      allow_dns = s.security.network_policy.allow_dns;
    };
    ca_bundle = s.security.ca_bundle;
  };
  networking = record t.networking {
    service = record t.networking.service { type = s.networking.service.type };
  };
  observability = record t.observability {
    metrics = record t.observability.metrics {
      enabled = s.observability.metrics.enabled;
      port = s.observability.metrics.port;
      secure = s.observability.metrics.secure;
    };
    service_monitor = record t.observability.service_monitor {
      enabled = s.observability.service_monitor.enabled;
    };
    prometheus_rule = record t.observability.prometheus_rule {
      enabled = s.observability.prometheus_rule.enabled;
    };
    logging = record t.observability.logging {
      format = s.observability.logging.format;
      level = s.observability.logging.level;
    };
  };
}

-- Every field that can be defaulted keeps a value that is set, and all else of the spec stays: with
-- those fields put back, `t` is `s`.
pub record KeepsExplicit (s t : HermesInstanceSpec) : Type 0 where
  pub repository : KeepsText s.image.repository t.image.repository
  pub tag : KeepsText s.image.tag t.image.tag
  pub pull_policy : KeepsText s.image.pull_policy t.image.pull_policy
  pub size : KeepsText s.storage.persistence.size t.storage.persistence.size
  pub storage_class :
      KeepsSet s.storage.persistence.storage_class_name t.storage.persistence.storage_class_name
  pub requests : KeepsSet s.resources.requests t.resources.requests
  pub limits : KeepsSet s.resources.limits t.resources.limits
  pub annotations : KeepsSet s.security.rbac.annotations t.security.rbac.annotations
  pub network_policy : KeepsSet s.security.network_policy.enabled t.security.network_policy.enabled
  pub allow_dns : KeepsSet s.security.network_policy.allow_dns t.security.network_policy.allow_dns
  pub ca_bundle : KeepsBundle s.security.ca_bundle t.security.ca_bundle
  pub service_type : KeepsText s.networking.service.type t.networking.service.type
  pub metrics : KeepsSet s.observability.metrics.enabled t.observability.metrics.enabled
  pub port : KeepsNumber s.observability.metrics.port t.observability.metrics.port
  pub secure : KeepsSet s.observability.metrics.secure t.observability.metrics.secure
  pub service_monitor :
      KeepsSet s.observability.service_monitor.enabled t.observability.service_monitor.enabled
  pub prometheus_rule :
      KeepsSet s.observability.prometheus_rule.enabled t.observability.prometheus_rule.enabled
  pub format : KeepsText s.observability.logging.format t.observability.logging.format
  pub level : KeepsText s.observability.logging.level t.observability.logging.level
  pub others : with_defaulted_of s t ≡ s

or_text_empty : (x d : String) → or_text x d ≡ "" → x ≡ ""
unfolding or_text
or_text_empty x d e = ground (arith, eq_iff x "")

-- Defaulting makes no instance inadmissible: one that meets the rules of the validating webhook
-- before it meets them after it.
pub apply_cluster_defaults-IsAdmissible :
    (i : HermesInstance) (d : HermesClusterDefaults)
    → IsAdmissible i
    → IsAdmissible (apply_cluster_defaults i d)
unfolding apply_cluster_defaults fill
apply_cluster_defaults-IsAdmissible i d a = record {
  sources = record { exclusive = a.sources.exclusive; source = a.sources.source };
  sane = record {
    repository = λ e. a.sane.repository (or_text_empty _ _ e);
    size = λ e. a.sane.size (or_text_empty _ _ e);
    policy = a.sane.policy;
    disruption = a.sane.disruption;
    replicas = a.sane.replicas;
  };
  secrets = record {
    telegram = a.secrets.telegram;
    discord = a.secrets.discord;
    slack = a.secrets.slack;
    whats_app = a.secrets.whats_app;
    signal_phone = a.secrets.signal_phone;
    signal_token = a.secrets.signal_token;
    honcho = a.secrets.honcho;
  };
  tailscale = λ on.
      let f = a.tailscale on in
      record { auth_key = f.auth_key; sidecars = f.sidecars; volumes = f.volumes };
}
