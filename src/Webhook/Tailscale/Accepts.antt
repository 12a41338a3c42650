-- ===== src/Webhook/Tailscale/Accepts.antt =====
-- What `validateTailscale` accepts.
use hermes_operator.Common.{
  ℕ, suc, String, Bool, true, false, Option, none, some, List, [], ◌∷◌, ◌≡◌, ◌≢◌, refl, ◌↔◌, All,
  arith, eq_iff, bool_value, Bool-cases, inl, inr,
}
use hermes_operator.Api.Features.{SecretKeySelector}
use hermes_operator.Api.Instance.{HermesInstance}
use hermes_operator.Webhook.{Denial, SecretClient}
use hermes_operator.Webhook.Answers.{on_iff}
use hermes_operator.Webhook.Decides.{Decides, Decides-iff, Decides-pass, Decides-when, Decides-then}
use hermes_operator.Webhook.Gateways.Accepts.{Reads, look_up-Decides}
use hermes_operator.Webhook.Tailscale.{
  is_reserved_container, is_reserved_volume, auth_key_ref, free_names, check_names, check_tailscale,
  validate_tailscale,
}

-- The names of the operator's own container and volumes are left to it.
pub record IsFree (i : HermesInstance) : Type 0 where
  pub auth_key : auth_key_ref i.spec.tailscale.auth_key ≢ none
  pub sidecars : All (λ c. c ≢ "tailscale") i.spec.sidecars
  pub volumes : All (λ v. (v ≢ "tailscale-serve") × (v ≢ "tailscale-tmp")) i.spec.extra_volumes

container_iff : (c : String) → (is_reserved_container c ≡ false) ↔ (c ≢ "tailscale")
container_iff c =
    (λ e q. ground (arith, eq_iff c "tailscale"), λ n. ground (arith, eq_iff c "tailscale", n))

volume_iff :
    (v : String)
    → (is_reserved_volume v ≡ false) ↔ ((v ≢ "tailscale-serve") × (v ≢ "tailscale-tmp"))
volume_iff v = (
  λ e. (
    λ q. ground (arith, eq_iff v "tailscale-serve"),
    λ q. ground (arith, eq_iff v "tailscale-tmp"),
  ),
  λ n. ground (arith, eq_iff v "tailscale-serve", eq_iff v "tailscale-tmp", n.0, n.1),
)

module _ {W : Type 0} {F : Type 0} (reserved : String → Bool) (P : String → Type 0)
    (free : (x : String) → (reserved x ≡ false) ↔ P x) (collides : ℕ → String → Denial) where
  free_names-Decides :
      (n : ℕ) (xs : List String) → Decides F (All P xs) (free_names {W = W} reserved collides n xs)
  unfolding free_names
  free_names-Decides n [] = Decides-pass
  free_names-Decides n (x ∷ xs) = elim (Bool-cases (reserved x)) [
    | inl taken ↦
        rw taken (record {
          sound = λ s h. cc;
          complete = λ s f h. absurd (ground (arith, (free x).1 h.0));
        })
    | inr fine ↦
        rw fine (Decides-iff (free_names-Decides (suc n) xs) (λ h. ((free x).0 fine, h), λ h. h.1))
  ]

module _ {W : Type 0} (client : SecretClient W) where
  check_tailscale-Decides :
      (ref : Option SecretKeySelector) (i : HermesInstance)
      → auth_key_ref i.spec.tailscale.auth_key ≡ ref
      → Decides (Reads client) (IsFree i) (check_tailscale client ref i)
  unfolding check_tailscale check_names
  check_tailscale-Decides none i e = record {
    sound = λ s h. cc;
    complete = λ s f h. absurd (h.auth_key e);
  }
  check_tailscale-Decides (some ref) i e =
      Decides-iff
        (Decides-then
          (Decides-then
            (free_names-Decides is_reserved_container (λ c. c ≢ "tailscale") container_iff _ 0
              i.spec.sidecars)
            (free_names-Decides is_reserved_volume
              (λ v. (v ≢ "tailscale-serve") × (v ≢ "tailscale-tmp")) volume_iff _ 0
              i.spec.extra_volumes))
          (look_up-Decides client _ ref i))
        (
          λ h. record { auth_key = λ n. cc; sidecars = h.0.0; volumes = h.0.1 },
          λ h. ((h.sidecars, h.volumes), tt),
        )

  pub validate_tailscale-Decides :
      (i : HermesInstance)
      → Decides
          (Reads client)
          (i.spec.tailscale.enabled ≡ some true → IsFree i)
          (validate_tailscale client i)
  unfolding validate_tailscale
  validate_tailscale-Decides i =
      Decides-iff
        (Decides-when (bool_value i.spec.tailscale.enabled)
          (check_tailscale-Decides (auth_key_ref i.spec.tailscale.auth_key) i refl))
        (
          λ h on. h ((on_iff i.spec.tailscale.enabled).1 on),
          λ h on. h ((on_iff i.spec.tailscale.enabled).0 on),
        )
