-- ===== src/Fixtures/Admissible.antt =====
-- Instances that the webhooks admit, cluster defaults, and a client that finds no Secret.
use hermes_operator.Common.{ℕ, String, Bool, true, false, none, some, [], refl, inl, inr}
use hermes_operator.Kube.Result.{err, not_found}
use hermes_operator.Api.ClusterDefaults.{HermesClusterDefaults}
use hermes_operator.Api.Instance.{HermesInstance}
use hermes_operator.Api.Status.{HermesInstanceStatus}
use hermes_operator.Webhook.Validate.Accepts.{IsAdmissible}
use hermes_operator.Webhook.{Admission, SecretClient}
use hermes_operator.Fixtures.Instances.{plain_instance, empty_spec, empty_status}

-- An image, a size, a storage class, and Telegram with its token.
abbrev pub variant : HermesInstanceStatus → String → Bool → HermesInstance
variant status source suspended = record plain_instance {
  status = status;
  spec = record empty_spec {
    suspended = suspended;
    restore_from = source;
    image = record empty_spec.image { repository = "hermes" };
    storage = record {
      persistence = record { enabled = none; size = "1Gi"; storage_class_name = some "fast" };
    };
    gateways = record empty_spec.gateways {
      telegram = record empty_spec.gateways.telegram {
        enabled = some true;
        bot_token_secret_ref = some (record { name = "bot"; key = "token" });
      };
    };
  };
}

pub variant-IsAdmissible :
    (status : HermesInstanceStatus) (source : String) (suspended : Bool)
    → IsAdmissible (variant status source suspended)
variant-IsAdmissible status source suspended = record {
  sources = record { exclusive = inr refl; source = λ f e. cc };
  sane = record {
    repository = λ e. cc;
    size = λ e. cc;
    policy = λ e. cc;
    disruption = inl refl;
    replicas = λ lo hi p q. cc;
  };
  secrets = record {
    telegram = λ e n. cc;
    discord = λ e. cc;
    slack = λ e. cc;
    whats_app = λ e. cc;
    signal_phone = λ e. cc;
    signal_token = λ e. cc;
    honcho = λ e. cc;
  };
  tailscale = λ e. cc;
}

abbrev pub admissible_instance : HermesInstance
admissible_instance = variant empty_status "" false

-- The status once the instance has been restored and has migrated.
abbrev pub latched_status : HermesInstanceStatus
latched_status = record empty_status {
  restored_from = "snap";
  migration = record { completed = true; finished_at = some 1; source_version = "1" };
}

abbrev pub restored_instance : HermesInstance
restored_instance = variant latched_status "snap" false

abbrev pub cluster_defaults : HermesClusterDefaults
cluster_defaults = record {
  name = "default";
  generation = 1;
  status = record { observed_generation = 0; conditions = [] };
  spec = record {
    image = record { repository = "mirror"; tag = "2"; digest = ""; pull_policy = "Always" };
    registry = record { pull_secret_name = "" };
    storage = record {
      persistence = record { enabled = none; size = "5Gi"; storage_class_name = some "slow" };
    };
    security = record {
      service_account = record { annotations = none };
      network_policy = record { enabled = some true; allow_dns = none };
      ca_bundle = record { config_map_name = "ca"; secret_name = ""; key = "" };
    };
    observability = record {
      metrics = record {
        enabled = some true;
        port = 9090;
        secure = none;
        grafana_dashboard = none;
      };
      service_monitor = record { enabled = none };
      prometheus_rule = record { enabled = none };
      logging = record { format = "json"; level = "" };
    };
    networking = record {
      service = record { type = "ClusterIP" };
      network_policy = record { enabled = none; allow_dns = none };
    };
    resources = record { requests = none; limits = none };
  };
}

abbrev pub no_secrets : SecretClient ℕ
no_secrets = some λ namespace name w. (err not_found, w)

abbrev pub admission : Admission ℕ
admission = record { world = 0; warnings = [] }
