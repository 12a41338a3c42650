-- ===== src/SelfConfig/Policy/Tests.antt =====
-- The policy on two requests.
use mathlib.Core.List.{Memᴰ}
use hermes_operator.Common.{[], ◌∷◌, ◌≡◌, ◌↔◌, refl}
use hermes_operator.Kube.Result.{ok}
use hermes_operator.Api.Features.{skills, config}
use hermes_operator.SelfConfig.{object}
use hermes_operator.SelfConfig.Policy.{
  join_path, walk, walk_fields, compile_all, check_allowed_actions, check_protected_paths,
}
use hermes_operator.SelfConfig.Policy.Actions.{check_allowed_actions-mem_iff}
use hermes_operator.SelfConfig.Policy.Paths.{IsPath, below, first, here}
use hermes_operator.SelfConfig.Policy.Protected.{IsGuarded, check_protected_paths-clear}
use hermes_operator.Fixtures.Requests.{tree, unmarshal, compile}

check_allowed_actions-mem_iff_example :
    Memᴰ config (check_allowed_actions (skills ∷ config ∷ []) (skills ∷ []))
    ↔ (Memᴰ config (skills ∷ config ∷ []) × ¬ Memᴰ config (skills ∷ []))
check_allowed_actions-mem_iff_example =
    check_allowed_actions-mem_iff config (skills ∷ config ∷ []) (skills ∷ [])

hit : check_protected_paths unmarshal compile "{}" ("provider.apiKey" ∷ []) ≡ ok "provider.apiKey"
unfolding check_protected_paths compile_all walk walk_fields join_path
hit = refl

clear : check_protected_paths unmarshal compile "{}" ("gateway.token" ∷ []) ≡ ok ""
unfolding check_protected_paths compile_all walk walk_fields join_path
clear = refl

provider-IsPath : IsPath (object tree) "" "provider"
unfolding join_path
provider-IsPath = below (first here)

check_protected_paths-clear_example :
    ¬ IsGuarded unmarshal compile ("gateway.token" ∷ []) "provider"
check_protected_paths-clear_example =
    check_protected_paths-clear unmarshal compile "{}" ("gateway.token" ∷ []) tree "provider"
      (λ e. cc) (λ e. cc) refl clear provider-IsPath λ e. cc
