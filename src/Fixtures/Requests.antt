-- ===== src/Fixtures/Requests.antt =====
-- Requests of an agent, a parent that permits them, and an API server that accepts every write.
use hermes_operator.Common.{ℕ, String, Bool, true, Option, none, some, [], ◌∷◌, str_eq}
use hermes_operator.Kube.Result.{ok}
use hermes_operator.Api.Features.{skills, config}
use hermes_operator.Api.Instance.{HermesInstance}
use hermes_operator.Api.SelfConfig.{HermesSelfConfig, unset}
use hermes_operator.SelfConfig.{Fields, scalar, object, field, end}
use hermes_operator.SelfConfig.Turn.{SelfConfigClient, Turn}
use hermes_operator.Fixtures.Instances.{plain_instance, empty_spec}

-- {"provider": {"apiKey": …}, "theme": …}
abbrev pub tree : Fields
tree = field "provider" (object (field "apiKey" scalar end)) (field "theme" scalar end)

abbrev pub unmarshal : String → Option Fields
unmarshal raw = some tree

-- A pattern without wildcards.
abbrev pub compile : String → Option (String → Bool)
compile p = some (λ path. str_eq path p)

-- An agent may add skills and patch its configuration, but not the key of its token.
abbrev pub permissive_parent : HermesInstance
permissive_parent = record plain_instance {
  spec = record empty_spec {
    self_configure = record {
      enabled = some true;
      allowed_actions = skills ∷ config ∷ [];
      protected_keys = "gateway.token" ∷ [];
    };
  };
}

abbrev pub request : HermesSelfConfig
request = record {
  meta = record plain_instance.meta { name = "ask" };
  spec = record {
    instance_ref = "hermes";
    add_skills = record { source = "git"; version = "1" } ∷ [];
    patch_config = some "{}";
    add_env_vars = [];
    add_workspace_files = [];
    add_profile_snapshot = none;
  };
  status = record {
    observed_generation = 0;
    phase = unset;
    applied_at = none;
    deny_reason = "";
    applied_fields = [];
    conditions = [];
  };
}

abbrev pub requests : SelfConfigClient ℕ
requests = record {
  get_self_config = λ name namespace w. (ok request, w);
  get_instance = λ name namespace w. (ok permissive_parent, w);
  perform = λ x w. (ok tt, w);
  update_status = λ sc w. (ok sc, w);
  now = λ w. (w, w);
  sprintf = λ reason. "denied";
  to_lower = λ s. s;
  format_time = λ t. "now";
  unmarshal = unmarshal;
  compile = compile;
}

abbrev pub turn : Turn ℕ
turn = record {
  sc = request;
  world = 0;
  writes = [];
  events = [];
  counted = record { denied_for = []; applied_for = [] };
}
