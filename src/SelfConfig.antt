-- ===== src/SelfConfig.antt =====
-- HermesSelfConfig: an agent's request to change its own instance. The policy that admits it
-- (internal/controller/selfconfig_policy.go), the patches that it becomes
-- (internal/controller/selfconfig_apply.go), the controller that applies them
-- (internal/controller/hermesselfconfig_controller.go) and its validating webhook
-- (internal/webhook/webhook_hermesselfconfig.go).
pub mod Policy
pub mod Patches
pub mod Turn
pub mod Reconcile
use hermes_operator.Common.{
  ℕ, String, Bool, true, false, str_eq, is_empty, is_cons, Option, none, some, not,
}
use hermes_operator.Api.Features.{
  SelfConfigAction, skills, config, env_vars, workspace_files, profiles, unknown,
}

-- A decoded JSON value. A scalar stands for a null, a boolean, a number, a text or an array, which
-- the policy treats alike. A Go map is kept as its entries in the order of their keys.
mutual
  pub data Json : Type 0 where
    scalar : Json
    object : Fields → Json

  pub data Fields : Type 0 where
    end : Fields
    field : String → Json → Fields → Fields

-- `a == b` on the texts of two actions.
abbrev pub same_action : SelfConfigAction → SelfConfigAction → Bool
same_action skills skills = true
same_action config config = true
same_action env_vars env_vars = true
same_action workspace_files workspace_files = true
same_action profiles profiles = true
same_action (unknown a) (unknown b) = str_eq a b
same_action _ _ = false

-- `PatchConfig != nil && len(PatchConfig.Raw) > 0`.
abbrev pub has_patch : Option String → Bool
has_patch none = false
has_patch (some raw) = not (is_empty raw)

abbrev pub raw_patch : Option String → String
raw_patch none = ""
raw_patch (some raw) = raw
