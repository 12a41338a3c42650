-- ===== src/Fixtures/Instances.antt =====
-- Instances with every optional part left out, and the few variants that the examples need.
use hermes_operator.Common.{true, false, none, some, [], ◌∷◌}
use hermes_operator.Api.Features.{BackupS3Spec}
use hermes_operator.Api.Spec.{HermesInstanceSpec}
use hermes_operator.Api.Status.{HermesInstanceStatus, AutoUpdateStatus}
use hermes_operator.Api.Instance.{HermesInstance, finalizer_backup_on_delete}

abbrev pub empty_spec : HermesInstanceSpec
empty_spec = record {
  image = record { repository = ""; tag = "1.0.0"; digest = ""; pull_policy = "" };
  config = record { raw = none; config_map_ref = none; merge_mode = "" };
  resources = record { requests = none; limits = none };
  security = record {
    rbac = record { create_service_account = none; service_account_name = ""; annotations = none };
    network_policy = record { enabled = none; allow_dns = none };
    ca_bundle = record { config_map_name = ""; secret_name = ""; key = "" };
  };
  storage = record {
    persistence = record { enabled = none; size = ""; storage_class_name = none };
  };
  workspace = record { initial_files = []; initial_dirs = [] };
  networking = record {
    service = record { type = "" };
    ingress = record { enabled = none };
    http_route = none;
  };
  observability = record {
    metrics = record { enabled = none; port = 0; secure = none; grafana_dashboard = none };
    service_monitor = record { enabled = none };
    prometheus_rule = record { enabled = none };
    logging = record { format = ""; level = "" };
  };
  availability = record {
    pod_disruption_budget = record { enabled = none; min_available = none; max_unavailable = none };
    horizontal_pod_autoscaler = record { enabled = none; min_replicas = none; max_replicas = none };
  };
  sidecars = [];
  extra_volumes = [];
  skills = [];
  self_configure = record { enabled = none; allowed_actions = []; protected_keys = [] };
  suspended = false;
  backup = record {
    s3 = none;
    schedule = "";
    on_delete = true;
    pre_update = none;
    history_limit = none;
    failed_history_limit = none;
    image = "";
  };
  restore_from = "";
  auto_update = record {
    enabled = true;
    source = record { registry = ""; channel = "9" };
    poll_interval = "";
    backup_before_update = none;
    rollback = record { enabled = none; probe_failure_threshold = 0 };
  };
  migration = record { from_open_claw = none };
  runtime_set = false;
  gateways = record {
    telegram = record {
      enabled = none;
      bot_token_secret_ref = none;
      allowed_user_ids = [];
      webhook_url = "";
    };
    discord = record {
      enabled = none;
      bot_token_secret_ref = none;
      application_id = "";
      guild_ids = [];
    };
    slack = record {
      enabled = none;
      bot_token_secret_ref = none;
      app_token_secret_ref = none;
      signing_secret_ref = none;
    };
    whats_app = record { enabled = none; provider_secret_ref = none };
    signal = record {
      enabled = none;
      phone_number_secret_ref = none;
      auth_token_secret_ref = none;
    };
  };
  profile_store = record {
    honcho = record {
      enabled = none;
      persistence = record { enabled = none };
      api_key_secret_ref = none;
    };
  };
  tailscale = record { enabled = none; auth_key = none };
  semaphore = record {
    enabled = none;
    url = "";
    token_secret_ref = none;
    admin_token_secret_ref = none;
    cleanup_on_delete = none;
  };
}

abbrev pub empty_auto_update : AutoUpdateStatus
empty_auto_update = record {
  last_check_time = none;
  current_tag = "";
  target_tag = "";
  last_success_tag = "";
  last_failed_tag = "";
  pre_update_snapshot = "";
  probe_failures = 0;
  rollout_deadline = none;
}

abbrev pub empty_status : HermesInstanceStatus
empty_status = record {
  observed_generation = 0;
  phase = "";
  conditions = [];
  replicas = 0;
  ready_replicas = 0;
  restored_from = "";
  backup = record {
    last_success_time = none;
    last_success_snapshot_id = "";
    last_failure_time = none;
    last_failure_reason = "";
    final_backup_job_name = "";
  };
  auto_update = empty_auto_update;
  migration = record { completed = false; finished_at = none; source_version = "" };
}

abbrev pub plain_instance : HermesInstance
plain_instance = record {
  meta = record {
    name = "hermes";
    namespace = "default";
    generation = 1;
    annotations = [];
    finalizers = [];
    deletion_timestamp = none;
  };
  spec = empty_spec;
  status = empty_status;
}

abbrev pub bucket : BackupS3Spec
bucket = record {
  bucket = "b";
  endpoint = "";
  region = "";
  path_prefix = "p";
  credentials_secret_ref = record { name = "s" };
}

abbrev pub backed_up_spec : HermesInstanceSpec
backed_up_spec = record empty_spec { backup = record empty_spec.backup { s3 = some bucket } }

-- An instance that is deleted at 0, with a bucket to back up to.
abbrev pub deleted_instance : HermesInstance
deleted_instance = record plain_instance {
  meta = record plain_instance.meta {
    finalizers = finalizer_backup_on_delete ∷ [];
    deletion_timestamp = some 0;
  };
  spec = backed_up_spec;
}
