-- ===== src/Resources/Gateways.antt =====
-- internal/resources/gateways.go: what the enabled gateways add to the configuration, and the hosts
-- that they need.
use hermes_operator.Common.{String, Bool, true, List, [], ◌∷◌, ◌++◌, bool_value, if◌then◌else◌}
use hermes_operator.Api.Instance.{HermesInstance}
use hermes_operator.Resources.Yaml.{
  Value, Fields, flag, text, texts, numbers, mapping, end, field, set,
}

abbrev just_enabled : Value
just_enabled = mapping (field "enabled" (flag true) end)

-- `if enabled { out[k] = v }`.
abbrev add_if : Bool → String → Value → Fields → Fields
add_if b k v out = if b then set k v out else out

unfoldable pub build_gateway_config_fragments : HermesInstance → Fields
build_gateway_config_fragments i =
    let g = i.spec.gateways in
    let telegram = field "enabled" (flag true) (
      field "webhookURL" (text g.telegram.webhook_url)
        (field "allowedUserIDs" (numbers g.telegram.allowed_user_ids) end)) in
    let discord = field "enabled" (flag true) (
      field "applicationID" (text g.discord.application_id)
        (field "guildIDs" (texts g.discord.guild_ids) end)) in
    add_if (bool_value g.signal.enabled) "signal" just_enabled (
      add_if (bool_value g.whats_app.enabled) "whatsapp" just_enabled (
        add_if (bool_value g.slack.enabled) "slack" just_enabled (
          add_if (bool_value g.discord.enabled) "discord" (mapping discord)
            (add_if (bool_value g.telegram.enabled) "telegram" (mapping telegram) end))))

abbrev hosts_if : Bool → List String → List String
hosts_if b hosts = if b then hosts else []

unfoldable pub build_gateway_egress_endpoints : HermesInstance → List String
build_gateway_egress_endpoints i =
    let g = i.spec.gateways in
    hosts_if (bool_value g.telegram.enabled) ("api.telegram.org" ∷ [])
    ++ hosts_if (bool_value g.discord.enabled) ("discord.com" ∷ "gateway.discord.gg" ∷ [])
    ++ hosts_if (bool_value g.slack.enabled) ("slack.com" ∷ "wss-primary.slack.com" ∷ [])
    ++ hosts_if (bool_value g.whats_app.enabled) ("graph.facebook.com" ∷ [])
    ++ hosts_if (bool_value g.signal.enabled) ("chat.signal.org" ∷ [])
