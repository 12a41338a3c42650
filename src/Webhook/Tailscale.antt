-- ===== src/Webhook/Tailscale.antt =====
-- internal/webhook/webhook_hermesinstance_validate.go: `validateTailscale`.
pub mod Accepts
use hermes_operator.Common.{
  ℕ, suc, String, Bool, true, false, not, ◌||◌, Option, none, some, List, [], ◌∷◌, bool_value,
  str_eq, if◌then◌else◌,
}
use hermes_operator.Common.Flow.{◌>>◌, ◌>>=◌, when, exit}
use hermes_operator.Api.Features.{SecretKeySelector, TailscaleAuthKey}
use hermes_operator.Api.Instance.{HermesInstance}
use hermes_operator.Webhook.{
  Check, Denial, SecretClient, pass, auth_key_required, sidecar_collides, volume_collides,
}
use hermes_operator.Webhook.Gateways.{look_up}

abbrev pub reserved_container : String
reserved_container = "tailscale"

abbrev pub is_reserved_volume : String → Bool
is_reserved_volume v = str_eq v "tailscale-serve" || str_eq v "tailscale-tmp"

abbrev pub is_reserved_container : String → Bool
is_reserved_container c = str_eq c reserved_container

-- `ts.AuthKey.SecretRef`, nil if either is.
abbrev pub auth_key_ref : Option TailscaleAuthKey → Option SecretKeySelector
auth_key_ref none = none
auth_key_ref (some k) = k.secret_ref

module _ {W : Type 0} where
  -- A loop over the names from an index on, which stops at the first reserved one.
  pub free_names : (String → Bool) → (ℕ → String → Denial) → ℕ → List String → Check W
  free_names reserved collides n [] = pass
  free_names reserved collides n (x ∷ xs) =
      let rest = free_names reserved collides (suc n) xs in
      if reserved x then exit (collides n x) else rest

module _ {W : Type 0} (client : SecretClient W) where
  pub check_names : HermesInstance → Check W
  unfolding free_names
  check_names i = do
    free_names is_reserved_container sidecar_collides 0 i.spec.sidecars
    free_names is_reserved_volume volume_collides 0 i.spec.extra_volumes

  pub check_tailscale : Option SecretKeySelector → HermesInstance → Check W
  unfolding check_names
  check_tailscale none i = exit auth_key_required
  check_tailscale (some ref) i = do
    check_names i
    look_up client "spec.tailscale.authKey.secretRef" ref i

  pub validate_tailscale : HermesInstance → Check W
  unfolding check_tailscale
  validate_tailscale i =
      when (bool_value i.spec.tailscale.enabled)
        (check_tailscale (auth_key_ref i.spec.tailscale.auth_key) i)
