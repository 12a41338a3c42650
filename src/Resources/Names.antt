-- ===== src/Resources/Names.antt =====
-- internal/resources: the names of the objects of an instance. A name that is only the instance's
-- (`NetworkPolicyName`, `RoleName`, `ServiceName` and others) is written `meta.name` where it is used.
use hermes_operator.Common.{
  String, Bool, ◌&&◌, Option, none, some, false, [], ◌∷◌, concat, bool_value,
}
use hermes_operator.Api.Instance.{HermesInstance}
use hermes_operator.Api.Spec.{GrafanaDashboardSpec}

abbrev two : String → String → String
two a b = concat (a ∷ b ∷ [])

unfoldable pub gateway_token_secret_name : HermesInstance → String
gateway_token_secret_name i = two i.meta.name "-gateway-tokens"

unfoldable pub pvc_name : HermesInstance → String
pvc_name i = two i.meta.name "-data"

unfoldable pub config_map_name : HermesInstance → String
config_map_name i = two i.meta.name "-config"

unfoldable pub grafana_dashboard_operator_name : HermesInstance → String
grafana_dashboard_operator_name i = two i.meta.name "-dashboard-operator"

unfoldable pub grafana_dashboard_instance_name : HermesInstance → String
grafana_dashboard_instance_name i = two i.meta.name "-dashboard-instance"

-- `HonchoServiceName` has the same text.
unfoldable pub honcho_deployment_name : HermesInstance → String
honcho_deployment_name i = two i.meta.name "-honcho"

unfoldable pub honcho_pvc_name : HermesInstance → String
honcho_pvc_name i = two i.meta.name "-honcho-data"

abbrev dashboard_wanted : Option GrafanaDashboardSpec → Bool
dashboard_wanted none = false
dashboard_wanted (some gd) = bool_value gd.enabled

unfoldable pub grafana_dashboard_enabled : HermesInstance → Bool
grafana_dashboard_enabled i = dashboard_wanted i.spec.observability.metrics.grafana_dashboard

unfoldable pub is_hpa_enabled : HermesInstance → Bool
is_hpa_enabled i = bool_value i.spec.availability.horizontal_pod_autoscaler.enabled

unfoldable pub semaphore_enabled : HermesInstance → Bool
semaphore_enabled i = bool_value i.spec.semaphore.enabled

unfoldable pub semaphore_cleanup_on_delete : HermesInstance → Bool
unfolding semaphore_enabled
semaphore_cleanup_on_delete i = semaphore_enabled i && bool_value i.spec.semaphore.cleanup_on_delete
