-- ===== src/Webhook/Validate/Accepts.antt =====
-- What the admission webhook of HermesInstance lets pass: the rules of the API, stated on the spec.
use hermes_operator.Common.{
  String, true, false, not, Option, none, some, ◌≡◌, refl, ◌↔◌, arith, eq_iff, str_eq,
}
use hermes_operator.Api.Features.{MigrationSpec}
use hermes_operator.Api.Instance.{HermesInstance}
use hermes_operator.Webhook.{Admission, SecretClient, denial_of}
use hermes_operator.Webhook.Decides.{Decides, Decides-iff, Decides-return_if, Decides-then}
use hermes_operator.Webhook.Sanity.Accepts.{IsSane, validate_common-Decides}
use hermes_operator.Webhook.Sources.Accepts.{
  HasOneSource, KeepsLatches, sources-Decides, update_sources-Decides, cross_check_secrets-Decides,
}
use hermes_operator.Webhook.Gateways.Accepts.{Reads, HasSecrets, validate_gateways-Decides}
use hermes_operator.Webhook.Tailscale.Accepts.{IsFree, validate_tailscale-Decides}
use hermes_operator.Webhook.Validate.{
  class_changed, validate_immutable, validate_rest, validate_create, validate_update,
}

pub record IsAdmissible (i : HermesInstance) : Type 0 where
  pub sources : HasOneSource i
  pub sane : IsSane i
  pub secrets : HasSecrets i
  pub tailscale : i.spec.tailscale.enabled ≡ some true → IsFree i

pub record Continues (marshal : MigrationSpec → String) (old updated : HermesInstance)
    : Type 0 where
  pub latches : KeepsLatches marshal old updated
  pub storage_class :
      (c : String)
      → old.spec.storage.persistence.storage_class_name ≡ some c
      → updated.spec.storage.persistence.storage_class_name ≡ some c
  pub name : old.meta.name ≡ updated.meta.name

class_iff :
    (a b : Option String) → (class_changed a b ≡ false) ↔ ((c : String) → a ≡ some c → b ≡ some c)
class_iff none b = (λ h c e. cc, λ h. refl)
class_iff (some x) none = (λ h c e. cc, λ h. ground (arith, h x refl))
class_iff (some x) (some y) =
    (λ h c e. ground (arith, eq_iff x y), λ h. ground (arith, eq_iff x y, h x refl))

name_iff : (a b : String) → (not (str_eq a b) ≡ false) ↔ (a ≡ b)
name_iff a b = (λ h. ground (arith, eq_iff a b), λ h. ground (arith, eq_iff a b))

module _ {W : Type 0} (client : SecretClient W) where
  rest-Decides :
      (i : HermesInstance)
      → Decides
          (Reads client)
          (IsSane i × (HasSecrets i × (i.spec.tailscale.enabled ≡ some true → IsFree i)))
          (validate_rest client i)
  unfolding validate_rest
  rest-Decides i =
      Decides-then (validate_common-Decides i)
        (Decides-then (validate_gateways-Decides client i) (validate_tailscale-Decides client i))

  create-Decides :
      (i : HermesInstance) → Decides (Reads client) (IsAdmissible i) (validate_create client i)
  unfolding validate_create
  create-Decides i =
      Decides-iff
        (Decides-then (cross_check_secrets-Decides client i)
          (Decides-then (sources-Decides i) (rest-Decides i)))
        (
          λ h. record {
            sources = h.1.0;
            sane = h.1.1.0;
            secrets = h.1.1.1.0;
            tailscale = h.1.1.1.1;
          },
          λ h. (tt, (h.sources, (h.sane, (h.secrets, h.tailscale)))),
        )

  immutable-Decides :
      (old updated : HermesInstance)
      → Decides
          (Reads client)
          ((class_changed old.spec.storage.persistence.storage_class_name
                updated.spec.storage.persistence.storage_class_name
              ≡ false)
            × (not (str_eq old.meta.name updated.meta.name) ≡ false))
          (validate_immutable client old updated)
  unfolding validate_immutable
  immutable-Decides old updated = Decides-then (Decides-return_if _ _) (Decides-return_if _ _)

  module _ (marshal : MigrationSpec → String) where
    update-Decides :
        (old updated : HermesInstance)
        → Decides
            (Reads client)
            (Continues marshal old updated × IsAdmissible updated)
            (validate_update client marshal old updated)
    unfolding validate_update
    update-Decides old updated =
        let class =
          class_iff old.spec.storage.persistence.storage_class_name
            updated.spec.storage.persistence.storage_class_name in
        let name = name_iff old.meta.name updated.meta.name in
        Decides-iff
          (Decides-then (cross_check_secrets-Decides client updated) (
            Decides-then (update_sources-Decides marshal old updated)
              (Decides-then (immutable-Decides old updated) (rest-Decides updated))))
          (
            λ h. (
              record {
                latches = h.1.0.0;
                storage_class = class.0 h.1.1.0.0;
                name = name.0 h.1.1.0.1;
              },
              record {
                sources = h.1.0.1;
                sane = h.1.1.1.0;
                secrets = h.1.1.1.1.0;
                tailscale = h.1.1.1.1.1;
              },
            ),
            λ h. (
              tt,
              (
                (h.0.latches, h.1.sources),
                (
                  (class.1 h.0.storage_class, name.1 h.0.name),
                  (h.1.sane, (h.1.secrets, h.1.tailscale)),
                ),
              ),
            ),
          )

  module _ (s : Admission W) where
    -- An instance whose creation is not denied meets the rules: an image repository and a storage
    -- size, an explicit policy with known actions if self-configuration is on, at most one bound on
    -- disruptions, an ordered range of replicas, at most one of restore and migration, exactly one
    -- source of a migration, a Secret for every gateway that is on, and for Tailscale its key and no
    -- reserved name.
    pub validate_create-IsAdmissible :
        (i : HermesInstance) → denial_of (validate_create client i s) ≡ none → IsAdmissible i
    validate_create-IsAdmissible i = (create-Decides i).sound s

    pub validate_create_total :
        (i : HermesInstance)
        → Reads client
        → IsAdmissible i
        → denial_of (validate_create client i s) ≡ none
    validate_create_total i = (create-Decides i).complete s

    -- An update that is not denied meets the rules of a creation and continues the old instance: a
    -- storage class that was set and the name stay, and so do the restore source once it has been
    -- restored, and the migration, as JSON, once it has completed.
    pub validate_update-Continues :
        (marshal : MigrationSpec → String) (old updated : HermesInstance)
        → denial_of (validate_update client marshal old updated s) ≡ none
        → Continues marshal old updated × IsAdmissible updated
    validate_update-Continues marshal old updated = (update-Decides marshal old updated).sound s

    pub validate_update_total :
        (marshal : MigrationSpec → String) (old updated : HermesInstance)
        → Reads client
        → Continues marshal old updated
        → IsAdmissible updated
        → denial_of (validate_update client marshal old updated s) ≡ none
    validate_update_total marshal old updated f c a =
        (update-Decides marshal old updated).complete s f (c, a)
