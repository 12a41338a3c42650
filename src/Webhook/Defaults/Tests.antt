-- ===== src/Webhook/Defaults/Tests.antt =====
-- An instance gets the defaults of a cluster.
use hermes_operator.Common.{false}
use hermes_operator.Webhook.Defaults.{apply_cluster_defaults}
use hermes_operator.Webhook.Defaults.Keeps.{apply_cluster_defaults-IsAdmissible}
use hermes_operator.Webhook.Validate.Accepts.{IsAdmissible}
use hermes_operator.Fixtures.Instances.{empty_status}
use hermes_operator.Fixtures.Admissible.{
  admissible_instance, variant-IsAdmissible, cluster_defaults,
}

apply_cluster_defaults-IsAdmissible_example :
    IsAdmissible (apply_cluster_defaults admissible_instance cluster_defaults)
apply_cluster_defaults-IsAdmissible_example =
    apply_cluster_defaults-IsAdmissible admissible_instance cluster_defaults
      (variant-IsAdmissible empty_status "" false)
